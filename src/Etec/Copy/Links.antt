-- ===== src/Etec/Copy/Links.antt =====
-- What a superseded record says of its successor.
use evoeventmem.Prelude.{ℕ, ◌≤◌, ◌≡◌, refl, Option, none, some, arith}
use evoeventmem.Result.{ok, Ensures, Ensures-bind, Ensures-of, ensured}
use evoeventmem.Domain.Models.{MemoryRecord, superseded}
use evoeventmem.Domain.Models.Contract.{IsValid, model_validate_iff}
use evoeventmem.Etec.Types.{EtecConsolidator, EtecDecision}
use evoeventmem.Etec.Times.{
  fact_effective_time, require_time, require_fact_effective_time, supersession_cutoff, not_before,
}
use evoeventmem.Etec.Copy.{supersede_memory}

-- No effective time lies after the cutoff.
abbrev pub NotAfter : Option ℕ → ℕ → Type 0
NotAfter time cutoff = (t : ℕ) → time ≡ some t → t ≤ cutoff

abbrev pub Superseded : EtecConsolidator → MemoryRecord → MemoryRecord → MemoryRecord → Type 0
Superseded self target superseder m =
    IsValid self.platform.casefold m
    × (m.memory_id ≡ target.memory_id)
    × (m.status ≡ superseded)
    × (m.superseded_by ≡ some superseder.memory_id)
    × (cutoff : ℕ) × (m.valid_to ≡ some cutoff)
    × NotAfter (fact_effective_time superseder) cutoff
    × NotAfter (fact_effective_time target) cutoff

abbrev Cutoff : MemoryRecord → MemoryRecord → ℕ → Type 0
Cutoff superseder target cutoff =
    NotAfter (fact_effective_time superseder) cutoff × NotAfter (fact_effective_time target) cutoff

time-required : (o : Option ℕ) (t : ℕ) → require_time o ≡ ok t → o ≡ some t
time-required none t h = absurd (cc)
time-required (some u) t h = cc

not_before_bounds :
    (start : Option ℕ) (time : ℕ)
    → (time ≤ not_before start time) × NotAfter start (not_before start time)
not_before_bounds none time = (ground arith, λ t e. absurd (cc))
not_before_bounds (some start) time = (ground arith, λ t e. ground arith)

Cutoff-supersession_cutoff :
    (superseder target : MemoryRecord)
    → Ensures (Cutoff superseder target) (supersession_cutoff superseder target)
unfolding supersession_cutoff require_fact_effective_time
Cutoff-supersession_cutoff superseder target =
    Ensures-bind (Cutoff superseder target) (require_fact_effective_time superseder) _ λ time ran.
      let (after, not_early) = not_before_bounds (fact_effective_time target) time in
      let known = time-required (fact_effective_time superseder) time ran in
      (λ t e. ground arith, not_early)

-- Superseding a record that succeeds returns a valid record with the same id, in the superseded state,
-- with a link to the superseder, that stops being valid at a time not before the effective time of
-- the superseder, nor before its own.
pub supersede_memory-Superseded :
    (self : EtecConsolidator) (target superseder m : MemoryRecord) (decision : EtecDecision)
    (now : ℕ)
    → supersede_memory self target superseder decision now ≡ ok m
    → Superseded self target superseder m
unfolding supersede_memory
supersede_memory-Superseded self target superseder m decision now ran =
    ensured (Superseded self target superseder) _ m
      (Ensures-bind (Superseded self target superseder) (supersession_cutoff superseder target) _
        λ cutoff cut.
          let (after, not_early) =
            ensured (Cutoff superseder target) _ cutoff
              (Cutoff-supersession_cutoff superseder target) cut in
          Ensures-of (Superseded self target superseder) _ λ copy done.
            let (valid, same) = (model_validate_iff self.platform.casefold _ copy).0 done in
            (
              valid,
              rw same refl,
              rw same refl,
              rw same refl,
              cutoff,
              rw same refl,
              after,
              not_early,
            ))
      ran
