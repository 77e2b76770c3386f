-- ===== src/Etec/Select/Best.antt =====
-- Which of the scored candidates `_select_decision` takes.
use mathlib.Core.List.{Memᴰ}
use evoeventmem.Prelude.{
  ℕ, ◌≤◌, ◌≡◌, ◌≢◌, refl, Bool, true, List, [], ◌∷◌, All, All-select_mem, select, any, ltb, arith,
  Bool-cases, inl, inr, if◌then◌else◌,
}
use evoeventmem.Domain.Models.{MemoryRecord}
use evoeventmem.Etec.Types.{EtecConsolidator, EtecDecision}
use evoeventmem.Etec.Select.{
  max_from, has_conflict, less_contradiction, select_conflict, select_decision,
}
use evoeventmem.Etec.Supersede.Scoped.{max_from_all}

module _ {A : Type 0} (key : A → ℕ) where
  abbrev less_key : A → A → Bool
  less_key a b = ltb (key a) (key b)

  max_from_ge :
      (best : A) (items : List A) (n : ℕ) → n ≤ key best → n ≤ key (max_from less_key best items)
  unfolding max_from
  max_from_ge best [] n h = h
  max_from_ge best (x ∷ xs) n h =
      max_from_ge (if less_key best x then x else best) xs n (ground arith)

  max_from_bounds :
      (best : A) (items : List A) → All (λ x. key x ≤ key (max_from less_key best items)) items
  unfolding max_from
  max_from_bounds best [] = tt
  max_from_bounds best (x ∷ xs) = (
    max_from_ge (if less_key best x then x else best) xs (key x) (ground arith),
    max_from_bounds (if less_key best x then x else best) xs,
  )

module _ {A : Type 0} (p : A → Bool) (Q : A → Type 0) where
  All-of_select : (xs : List A) → All Q (select p xs) → All (λ x. p x ≡ true → Q x) xs
  unfolding select
  All-of_select [] h = tt
  All-of_select (x ∷ xs) h = elim (Bool-cases (p x)) [
    | inl yields ↦ let h' = rw yields at h in (λ _. h'.0, All-of_select xs h'.1)
    | inr fails ↦ let h' = rw fails at h in (λ yields. absurd (cc), All-of_select xs h')
  ]

  select_some : (xs : List A) → any p xs ≡ true → select p xs ≢ []
  unfolding select any
  select_some [] h = absurd (cc)
  select_some (x ∷ xs) h = ground (arith, select_some xs)

abbrev contradiction_of : EtecDecision → ℕ
contradiction_of d = d.features.contradiction_score

abbrev NoGreater : EtecDecision → EtecDecision → Type 0
NoGreater chosen d = d.features.contradiction_score ≤ chosen.features.contradiction_score

-- A scored decision that marks a conflict.
abbrev pub IsConflict : List EtecDecision → EtecDecision → Type 0
IsConflict scored d = (has_conflict d ≡ true) × Memᴰ d scored

IsConflict-chosen :
    (self : EtecConsolidator) (source : MemoryRecord) (scored conflicts : List EtecDecision)
    → All (IsConflict scored) conflicts
    → conflicts ≢ []
    → IsConflict scored (select_conflict self conflicts source scored)
      × All (NoGreater (select_conflict self conflicts source scored)) conflicts
IsConflict-chosen self source scored [] h some_there = absurd (some_there refl)
IsConflict-chosen self source scored (d ∷ ds) h some_there = (
  max_from_all (IsConflict scored) less_contradiction d ds h.0 h.1,
  (
    max_from_ge contradiction_of d ds d.features.contradiction_score (ground arith),
    max_from_bounds contradiction_of d ds,
  ),
)

-- Where a scored candidate marks a conflict, the decision is one of the scored ones, it marks a
-- conflict, and no scored one that marks a conflict has a greater contradiction score.
pub select_decision-IsConflict :
    (self : EtecConsolidator) (source : MemoryRecord) (scored : List EtecDecision)
    → any has_conflict scored ≡ true
    → IsConflict scored (select_decision self source scored)
      × All
          (λ d.
            has_conflict d ≡ true
            → d.features.contradiction_score
              ≤ (select_decision self source scored).features.contradiction_score)
          scored
unfolding select_decision
select_decision-IsConflict self source scored h =
    let (conflict, greatest) =
      IsConflict-chosen self source scored (select has_conflict scored)
        (All-select_mem has_conflict scored)
        (select_some has_conflict (λ d. has_conflict d ≡ true) scored h) in
    (conflict, All-of_select has_conflict _ scored greatest)
