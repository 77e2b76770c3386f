-- ===== src/Etec/Copy/Scoped.antt =====
-- The records that a consolidation stores keep the user and the tenant.
use evoeventmem.Prelude.{ℕ, ◌≡◌, refl, true, List, arith, ==_iff, string_eq, option_eq}
use evoeventmem.Result.{Ensures, Ensures-bind, Ensures-of}
use evoeventmem.Domain.Models.{MemoryRecord}
use evoeventmem.Domain.Models.Contract.{model_validate_iff}
use evoeventmem.Etec.Types.{EtecConsolidator, EtecDecision}
use evoeventmem.Etec.Times.{supersession_cutoff}
use evoeventmem.Etec.Targets.{is_eligible, is_verified}
use evoeventmem.Etec.Copy.{
  validated, merged_copy, merge_memory, supersede_memory, add_supersedes, store_superseded_memory,
  store_new_memory,
}

-- A record of the user and the tenant of another one.
abbrev pub InScope : MemoryRecord → MemoryRecord → Type 0
InScope source m = (m.user_id ≡ source.user_id) × (m.tenant_id ≡ source.tenant_id)

-- What is eligible is in the scope.
pub InScope-is_eligible : (source m : MemoryRecord) → is_eligible source m ≡ true → InScope source m
unfolding is_eligible
InScope-is_eligible source m h =
    ground (arith, ==_iff m.user_id source.user_id, ==_iff m.tenant_id source.tenant_id)

-- And so is what is verified.
pub InScope-is_verified : (source m : MemoryRecord) → is_verified source m ≡ true → InScope source m
unfolding is_verified
InScope-is_verified source m h =
    ground (arith, ==_iff m.user_id source.user_id, ==_iff m.tenant_id source.tenant_id)

module _ (self : EtecConsolidator) (source : MemoryRecord) where
  pub InScope-validated :
      (copy : MemoryRecord) → InScope source copy → Ensures (InScope source) (validated self copy)
  InScope-validated copy h = Ensures-of (InScope source) (validated self copy) λ m done.
      let same = ((model_validate_iff self.platform.casefold copy m).0 done).1 in rw same h

  pub InScope-merge_memory :
      (target other : MemoryRecord) (decision : EtecDecision) (now : ℕ)
      → InScope source target
      → Ensures (InScope source) (merge_memory self target other decision now)
  unfolding merge_memory merged_copy
  InScope-merge_memory target other decision now h =
      InScope-validated (merged_copy self target other decision now) h

  pub InScope-supersede_memory :
      (target other : MemoryRecord) (decision : EtecDecision) (now : ℕ)
      → InScope source target
      → Ensures (InScope source) (supersede_memory self target other decision now)
  unfolding supersede_memory
  InScope-supersede_memory target other decision now h =
      Ensures-bind (InScope source) (supersession_cutoff other target) _
        λ cutoff _. InScope-validated _ h

  pub InScope-add_supersedes :
      (target : MemoryRecord) (decision : EtecDecision) (ids : List ℕ) (now : ℕ)
      → InScope source target
      → Ensures (InScope source) (add_supersedes self target decision ids now)
  unfolding add_supersedes
  InScope-add_supersedes target decision ids now h = InScope-validated _ h

  pub InScope-store_superseded_memory :
      (other : MemoryRecord) (decision : EtecDecision) (ids : List ℕ) (now : ℕ)
      → Ensures (InScope source) (store_superseded_memory self source other decision ids now)
  unfolding store_superseded_memory
  InScope-store_superseded_memory other decision ids now =
      Ensures-bind (InScope source) (supersession_cutoff other source) _
        λ cutoff _. InScope-validated _ (refl, refl)

  pub InScope-store_new_memory :
      (decision : EtecDecision) (ids : List ℕ) (now : ℕ)
      → Ensures (InScope source) (store_new_memory self source decision ids now)
  unfolding store_new_memory
  InScope-store_new_memory decision ids now = InScope-validated _ (refl, refl)
