-- ===== src/Etec/Supersede/Scoped.antt =====
-- What `_apply_supersede` stores is of the scope of the source.
use evoeventmem.Prelude.{
  ℕ, ◌≡◌, refl, Bool, true, false, Option, none, some, List, [], ◌∷◌, All, All-append,
  if◌then◌else◌, ltb, ◌==◌, nat_eq, ◌||◌,
}
use evoeventmem.Result.{Result, ok, Ensures, Ensures-bind, Ensures-if, ensured}
use evoeventmem.Domain.Models.{MemoryRecord}
use evoeventmem.Etec.Types.{
  EtecConsolidator, EtecDecision, ConsolidationAction, is_supersede, is_merge,
}
use evoeventmem.Etec.Times.{require_fact_effective_time, fact_effective_time}
use evoeventmem.Etec.Copy.{supersede_memory}
use evoeventmem.Etec.Copy.Scoped.{InScope, InScope-supersede_memory}
use evoeventmem.Etec.Select.{max_from}
use evoeventmem.Etec.Score.{score_pair}
use evoeventmem.Etec.Targets.Bounded.{by_id_of_all}
use evoeventmem.Etec.Pairs.{
  PairDecision, add_pair, pair_decisions, target_record, stale_pairs,
  ambiguous_current_winners_decision, cleanup_supersede_decision,
}
use evoeventmem.Etec.Supersede.{
  Sweep, SweepResult, ambiguous, swept, supersede_by_source, supersede_by_winner,
  compare_with_winner, sweep_at, next_turn, sweep_pair, sweep,
}

-- A pair that supersedes, with a target in the scope.
abbrev pub PairInScope : MemoryRecord → PairDecision → Type 0
PairInScope source pair =
    InScope source pair.target × (pair.decision.action ≡ ConsolidationAction.supersede)

pub max_from_all {ℓ κ} :
    {A : Type ℓ} (P : A → Type κ) (less : A → A → Bool) (best : A) (items : List A)
    → P best
    → All P items
    → P (max_from less best items)
unfolding max_from
max_from_all P less best [] b h = b
max_from_all P less best (x ∷ xs) b h =
    max_from_all P less (if less best x then x else best) xs
      (elim (less best x) as (λ t. P (if t then x else best)) [ true ↦ h.0 | false ↦ b ]) h.1

action_of_supersede :
    (a : ConsolidationAction) → is_supersede a ≡ true → a ≡ ConsolidationAction.supersede
action_of_supersede ConsolidationAction.supersede h = refl
action_of_supersede _ h = absurd (cc)

module _ (source : MemoryRecord) where
  All-add_pair :
      (b : Bool) (o : Option MemoryRecord) (d : EtecDecision) (rest : List PairDecision)
      → (b ≡ true → d.action ≡ ConsolidationAction.supersede)
      → ((m : MemoryRecord) → o ≡ some m → InScope source m)
      → All (PairInScope source) rest
      → All (PairInScope source) (add_pair b o d rest)
  All-add_pair true (some m) d rest f g h = ((g m refl, f refl), h)
  All-add_pair true none d rest f g h = h
  All-add_pair false o d rest f g h = h

  InScope-target_record :
      (targets : List MemoryRecord) (id : Option ℕ) (m : MemoryRecord)
      → All (InScope source) targets
      → target_record targets id ≡ some m
      → InScope source m
  InScope-target_record targets none m h e = absurd (cc)
  InScope-target_record targets (some id) m h e = by_id_of_all (InScope source) targets id m h e

  pub All-pair_decisions :
      (targets : List MemoryRecord) (scored : List EtecDecision)
      → All (InScope source) targets
      → All (PairInScope source) (pair_decisions targets scored)
  unfolding pair_decisions
  All-pair_decisions targets [] h = tt
  All-pair_decisions targets (d ∷ ds) h =
      All-add_pair (is_supersede d.action) (target_record targets d.target_memory_id) d _
        (action_of_supersede d.action) (λ m. InScope-target_record targets d.target_memory_id m h)
        (All-pair_decisions targets ds h)

  abbrev pub Timed : ℕ × PairDecision → Type 0
  Timed e = PairInScope source e.1

  pub All-stale_pairs :
      (time : ℕ) (pairs : List PairDecision)
      → All (PairInScope source) pairs
      → Ensures (All Timed) (stale_pairs time pairs)
  unfolding stale_pairs
  All-stale_pairs time [] h = tt
  All-stale_pairs time (pair ∷ pairs) h =
      Ensures-bind (All Timed) (require_fact_effective_time pair.target) _ λ t _.
        Ensures-bind (All Timed) (stale_pairs time pairs) _ λ rest ran.
          let later : All Timed rest =
            ensured (All Timed) _ rest (All-stale_pairs time pairs h.1) ran in
          elim (ltb time t) as (λ b. All Timed (if b then (t, pair) ∷ rest else rest)) [
            | true ↦ (h.0, later)
            | false ↦ later
          ]

  module _ (self : EtecConsolidator) where
    -- A turn of the loop ends with a rejection, or adds a record of the scope.
    abbrev pub Swept : SweepResult → Type 0
    Swept (ambiguous decision) = decision.action ≡ ConsolidationAction.reject
    Swept (swept acc) = All (InScope source) acc.changed_targets

    Swept-supersede_by_source :
        (pair : PairDecision) (now : ℕ) (acc : Sweep)
        → InScope source pair.target
        → All (InScope source) acc.changed_targets
        → Ensures Swept (supersede_by_source self source pair now acc)
    unfolding supersede_by_source
    Swept-supersede_by_source pair now acc p h =
        Ensures-bind Swept (supersede_memory self pair.target source pair.decision now) _
          λ updated ran. All-append (InScope source) acc.changed_targets (updated ∷ []) h (
            ensured (InScope source) _ updated
                (InScope-supersede_memory self source pair.target source pair.decision now p) ran,
            tt,
          )

    Swept-supersede_by_winner :
        (winner : MemoryRecord) (pair : PairDecision) (actual : EtecDecision) (now : ℕ)
        (acc : Sweep)
        → InScope source pair.target
        → All (InScope source) acc.changed_targets
        → Ensures Swept (supersede_by_winner self winner pair actual now acc)
    unfolding supersede_by_winner
    Swept-supersede_by_winner winner pair actual now acc p h =
        Ensures-bind Swept
          (supersede_memory self pair.target winner (cleanup_supersede_decision actual) now) _
          λ updated ran. All-append (InScope source) acc.changed_targets (updated ∷ []) h (
            ensured (InScope source) _ updated
                (InScope-supersede_memory self source pair.target winner
                  (cleanup_supersede_decision actual) now p)
                ran,
            tt,
          )

    Swept-compare_with_winner :
        (d : EtecDecision) (winner : MemoryRecord) (pair : PairDecision) (now : ℕ) (acc : Sweep)
        → InScope source pair.target
        → All (InScope source) acc.changed_targets
        → Ensures Swept (compare_with_winner self source d winner pair now acc)
    unfolding compare_with_winner ambiguous_current_winners_decision
    Swept-compare_with_winner d winner pair now acc p h =
        let actual = score_pair self winner pair.target in
        Ensures-if Swept (is_merge actual.action || is_supersede actual.action)
          (supersede_by_winner self winner pair actual now acc)
          (ok (ambiguous (ambiguous_current_winners_decision source d actual)))
          (Swept-supersede_by_winner winner pair actual now acc p h) refl

    Swept-sweep_at :
        (time : Option ℕ) (source_time : ℕ) (x y : Result SweepResult) (acc : Sweep)
        → Ensures Swept x
        → Ensures Swept y
        → All (InScope source) acc.changed_targets
        → Ensures Swept (sweep_at self time source_time x y acc)
    Swept-sweep_at none source_time x y acc h k a = a
    Swept-sweep_at (some t) source_time x y acc h k a = Ensures-if Swept (ltb t source_time) x y h k

    Swept-sweep_pair :
        (time : ℕ) (d : EtecDecision) (winner : MemoryRecord) (pair : PairDecision) (now : ℕ)
        (acc : Sweep)
        → InScope source pair.target
        → All (InScope source) acc.changed_targets
        → Ensures Swept (sweep_pair self source time d winner pair now acc)
    unfolding sweep_pair
    Swept-sweep_pair time d winner pair now acc p h =
        let time_of = fact_effective_time pair.target in
        let by_source = supersede_by_source self source pair now acc in
        let by_winner = compare_with_winner self source d winner pair now acc in
        Ensures-if Swept (pair.target.memory_id == winner.memory_id) (ok (swept acc))
          (sweep_at self time_of time by_source by_winner acc) h
          (Swept-sweep_at time_of time by_source by_winner acc
            (Swept-supersede_by_source pair now acc p h)
            (Swept-compare_with_winner d winner pair now acc p h) h)

    Swept-next_turn :
        (turn : SweepResult) (rest : Sweep → Result SweepResult)
        → Swept turn
        → ((acc : Sweep) → All (InScope source) acc.changed_targets → Ensures Swept (rest acc))
        → Ensures Swept (next_turn self turn rest)
    Swept-next_turn (ambiguous d) rest h k = h
    Swept-next_turn (swept acc) rest h k = k acc h

    pub Swept-sweep :
        (time : ℕ) (d : EtecDecision) (winner : MemoryRecord) (pairs : List PairDecision) (now : ℕ)
        (acc : Sweep)
        → All (PairInScope source) pairs
        → All (InScope source) acc.changed_targets
        → Ensures Swept (sweep self source time d winner pairs now acc)
    unfolding sweep
    Swept-sweep time d winner [] now acc ps h = h
    Swept-sweep time d winner (pair ∷ pairs) now acc ps h =
        Ensures-bind Swept (sweep_pair self source time d winner pair now acc) _ λ turn ran.
          Swept-next_turn turn _
            (ensured Swept _ turn (Swept-sweep_pair time d winner pair now acc ps.0.0 h) ran)
            (λ acc' h'. Swept-sweep time d winner pairs now acc' ps.1 h')
