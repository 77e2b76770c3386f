-- ===== src/Retrieval/Temporal/InInterval.antt =====
-- What an interval constraint of src/evoeventmem/retrieval.py leaves of the candidates.
use mathlib.Core.Path.{subst}
use evoeventmem.Prelude.{
  ℕ, ◌≡◌, ◌≤◌, refl, sym, String, true, false, Option, none, some, List, [], ◌∷◌, ◌++◌, All,
  All-append, All-imp, All-select, All-map, All-map_of, All-both, All-contained, select_passes, map,
  select, any, contains, leb, not, ◌&&◌, nat_eq, arith, Bool-cases, inl, inr, ◌⊎◌,
}
use evoeventmem.Prelude.Sort.{All-sort}
use evoeventmem.Platform.{Platform}
use evoeventmem.Domain.Models.{MemoryRecord}
use evoeventmem.Retrieval.Types.{
  Candidate, TemporalOperator, no_operator, at, before, after, between, earliest, latest, sequence,
  duration, QueryRoutingDecision,
}
use evoeventmem.Retrieval.Candidates.{raw_lt}
use evoeventmem.Retrieval.Reader.{temporal_anchor}
use evoeventmem.Retrieval.Sources.{is_some}
use evoeventmem.Retrieval.Temporal.{
  is_temporal, is_anchored, memory_ids, is_below, is_above, interval_agreement, interval_bounds,
  agreed, agreeing, outside, within, apply_interval_temporal, pool, non_temporal, is_in_pool,
  kept_ids, constrain, by_operator, apply_temporal_constraint,
}

abbrev pub NotBelow : Option ℕ → ℕ → Type 0
NotBelow none t = Unit
NotBelow (some lower) t = lower ≤ t

abbrev pub NotAbove : Option ℕ → ℕ → Type 0
NotAbove none t = Unit
NotAbove (some upper) t = t ≤ upper

-- The memory of a candidate is the one that its id stands for.
abbrev pub IsKnown : (ℕ → MemoryRecord) → Candidate → Type 0
IsKnown memory_of c = c.memory ≡ memory_of c.memory.memory_id

module _ (lower upper : Option ℕ) where
  -- A time in the closed interval, or no time.
  abbrev pub IsInside : Option ℕ → Type 0
  IsInside none = Unit
  IsInside (some t) = NotBelow lower t × NotAbove upper t

  NotBelow-is_below : (o : Option ℕ) (t : ℕ) → is_below t o ≡ false → NotBelow o t
  NotBelow-is_below none t h = tt
  NotBelow-is_below (some l) t h = ground arith

  NotAbove-is_above : (o : Option ℕ) (t : ℕ) → is_above t o ≡ false → NotAbove o t
  NotAbove-is_above none t h = tt
  NotAbove-is_above (some l) t h = ground arith

  IsInside-agreement :
      (t : ℕ) → leb (interval_agreement t lower upper) 0 ≡ false → IsInside (some t)
  unfolding interval_agreement
  IsInside-agreement t h = elim (Bool-cases (is_below t lower)) [
    | inl below ↦ absurd (cc (rw below at h))
    | inr reaches ↦ elim (Bool-cases (is_above t upper)) [
      | inl above ↦ absurd (cc (rw (reaches, above) at h))
      | inr stays ↦ (NotBelow-is_below lower t reaches, NotAbove-is_above upper t stays)
    ]
  ]

  -- A candidate of the interval loop.
  abbrev Inside : Candidate → Type 0
  Inside c = IsInside (temporal_anchor c.memory)

  module _ (memory_of : ℕ → MemoryRecord) where
    abbrev Kept : Candidate → Type 0
    Kept c = IsKnown memory_of c × Inside c

    Kept-agreed :
        (c : Candidate) (anchor : Option ℕ)
        → temporal_anchor c.memory ≡ anchor
        → IsKnown memory_of c
        → All Kept (agreed lower upper c anchor)
    Kept-agreed c none e known = ((known, subst IsInside (sym e) tt), tt)
    Kept-agreed c (some t) e known = elim (Bool-cases (leb (interval_agreement t lower upper) 0)) [
      | inl dropped ↦ rw dropped tt
      | inr agrees ↦ rw agrees ((known, subst IsInside (sym e) (IsInside-agreement t agrees)), tt)
    ]

    Kept-agreeing :
        (candidates : List Candidate)
        → All (IsKnown memory_of) candidates
        → All Kept (agreeing lower upper candidates)
    unfolding agreeing
    Kept-agreeing [] h = tt
    Kept-agreeing (c ∷ cs) h =
        All-append Kept (agreed lower upper c (temporal_anchor c.memory)) (agreeing lower upper cs)
          (Kept-agreed c (temporal_anchor c.memory) refl h.0) (Kept-agreeing cs h.1)

-- Without bounds every time is inside.
IsInside-unbounded : (o : Option ℕ) → IsInside none none o
IsInside-unbounded none = tt
IsInside-unbounded (some t) = (tt, tt)

module _ (p : Platform) (token_set : String → List String) (candidates : List Candidate)
    (routing : QueryRoutingDecision) (reference : ℕ) (memory_of : ℕ → MemoryRecord)
    (lower upper : Option ℕ) where
  Kept-within :
      (lower upper : Option ℕ) (cs : List Candidate)
      → All (IsKnown memory_of) cs
      → All (Kept lower upper memory_of) (within p token_set cs (some (lower, upper)))
  Kept-within none none cs h =
      All-imp (IsKnown memory_of) (Kept none none memory_of) cs
        (λ c known. (known, IsInside-unbounded (temporal_anchor c.memory))) h
  Kept-within none (some u) cs h =
      All-sort (raw_lt p) (Kept none (some u) memory_of) (agreeing none (some u) cs)
        (Kept-agreeing none (some u) memory_of cs h)
  Kept-within (some l) none cs h =
      All-sort (raw_lt p) (Kept (some l) none memory_of) (agreeing (some l) none cs)
        (Kept-agreeing (some l) none memory_of cs h)
  Kept-within (some l) (some u) cs h =
      All-sort (raw_lt p) (Kept (some l) (some u) memory_of) (agreeing (some l) (some u) cs)
        (Kept-agreeing (some l) (some u) memory_of cs h)

  -- A candidate that counts is in the interval, or has no time.
  abbrev pub CountsInside : Candidate → Type 0
  CountsInside c = (c.raw_score ≡ 0) ⊎ IsInside lower upper (temporal_anchor c.memory)

  -- The memory of an id is in the interval, or has no time.
  abbrev Fine : ℕ → Type 0
  Fine id = IsInside lower upper (temporal_anchor (memory_of id))

  abbrev Known : Candidate → Type 0
  Known = IsKnown memory_of

  IsInside-unanchored : (o : Option ℕ) → is_some o ≡ false → IsInside lower upper o
  IsInside-unanchored none h = tt
  IsInside-unanchored (some t) h = absurd (cc)

  Fine-kept_ids :
      (kept : List Candidate)
      → All (Kept lower upper memory_of) kept
      → All Known candidates
      → All Fine (kept_ids p token_set candidates routing reference kept)
  Fine-kept_ids kept h known =
      let others = non_temporal p token_set candidates routing reference in
      let free = select (λ c. not (is_anchored c)) others in
      All-append Fine (memory_ids kept) (memory_ids free)
        (All-map_of Fine (Kept lower upper memory_of) (λ (c : Candidate). c.memory.memory_id) kept
          (λ c k. subst (λ m. IsInside lower upper (temporal_anchor m)) k.0 k.1) h)
        (All-map_of Fine (λ c. Known c × ((not (is_anchored c)) ≡ true))
          (λ (c : Candidate). c.memory.memory_id) free
          (λ c k.
            subst (λ m. IsInside lower upper (temporal_anchor m)) k.0
              (IsInside-unanchored (temporal_anchor c.memory) (ground arith)))
          (All-both Known (λ c. not (is_anchored c) ≡ true)
            (λ c. Known c × (not (is_anchored c) ≡ true)) free (λ c a b. (a, b))
            (All-select (λ c. not (is_anchored c)) Known others
              (All-select (λ c. not (is_temporal c)) Known candidates known))
            (select_passes (λ c. not (is_anchored c)) others)))

  All-constrain :
      (kept : List Candidate)
      → All (Kept lower upper memory_of) kept
      → All Known candidates
      → All CountsInside (constrain p token_set candidates routing reference kept).0
  unfolding constrain
  All-constrain kept h known =
      let others = non_temporal p token_set candidates routing reference in
      let keeps = kept_ids p token_set candidates routing reference kept in
      let test = λ (c : Candidate). contains c.memory.memory_id keeps in
      let fine = Fine-kept_ids kept h known in
      let rest =
        select (λ c. is_temporal c && not (is_in_pool p token_set candidates routing reference c))
          candidates in
      All-append CountsInside (select test others ++ kept) (map outside rest)
        (All-append CountsInside (select test others) kept
          (All-both Known (λ c. test c ≡ true) CountsInside (select test others)
            (λ c k there. inr (
              subst (λ m. IsInside lower upper (temporal_anchor m)) (sym k)
                (All-contained Fine keeps c.memory.memory_id fine there)))
            (All-select test Known others
              (All-select (λ c. not (is_temporal c)) Known candidates known))
            (select_passes test others))
          (All-imp (Kept lower upper memory_of) CountsInside kept (λ c k. inr k.1) h))
        (All-map CountsInside outside rest (λ c. inl refl))

  Kept-pool :
      interval_bounds routing.temporal_constraint ≡ some (lower, upper)
      → All Known candidates
      → All (Kept lower upper memory_of) (
          apply_interval_temporal p token_set
            (pool p token_set candidates routing reference)
            routing.temporal_constraint)
  unfolding apply_interval_temporal
  Kept-pool e known = rw e (
      Kept-within lower upper (pool p token_set candidates routing reference) (
        All-select (λ c. is_temporal c && is_in_pool p token_set candidates routing reference c)
          Known candidates known))

  -- An operator with bounds is an interval operator.
  by_operator-constrain :
      (op : TemporalOperator)
      → routing.temporal_constraint.operator ≡ op
      → interval_bounds routing.temporal_constraint ≡ some (lower, upper)
      → by_operator p token_set candidates routing reference op
        ≡ constrain p token_set candidates routing reference (
            apply_interval_temporal p token_set
              (pool p token_set candidates routing reference)
              routing.temporal_constraint)
  unfolding by_operator interval_bounds
  by_operator-constrain at e h = refl
  by_operator-constrain before e h = refl
  by_operator-constrain after e h = refl
  by_operator-constrain between e h = refl
  by_operator-constrain sequence e h = refl
  by_operator-constrain no_operator e h = absurd (cc (rw e at h))
  by_operator-constrain earliest e h = absurd (cc (rw e at h))
  by_operator-constrain latest e h = absurd (cc (rw e at h))
  by_operator-constrain duration e h = absurd (cc (rw e at h))

  -- For an interval operator with these bounds, where there are temporal candidates and the candidates of an
  -- id show one memory: every candidate that is left with a positive score is of a memory whose time is in
  -- the closed interval, or that has no time.
  pub apply_temporal_constraint_lem :
      interval_bounds routing.temporal_constraint ≡ some (lower, upper)
      → any is_temporal candidates ≡ true
      → All (IsKnown memory_of) candidates
      → All CountsInside (apply_temporal_constraint p token_set candidates routing reference).0
  unfolding apply_temporal_constraint
  apply_temporal_constraint_lem e some_temporal known = rw some_temporal (
      rw (by_operator-constrain routing.temporal_constraint.operator refl e) (
        All-constrain
          (apply_interval_temporal p token_set (pool p token_set candidates routing reference)
            routing.temporal_constraint)
          (Kept-pool e known) known))
