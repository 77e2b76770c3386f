-- ===== src/Retrieval/Pack/Bounded.antt =====
-- The loops of `_pack` of src/evoeventmem/retrieval.py: what they keep, and when they stop.
use mathlib.Core.Path.{subst}
use mathlib.Core.List.{Perm, append_assoc}
use mathlib.Core.List.Perm
use evoeventmem.Prelude.{
  String, ℕ, zero, suc, ◌≡◌, ◌≤◌, sym, Bool, true, false, none, some, List, [], ◌∷◌, ◌++◌, All,
  arith, Bool-cases, inl, inr, ◌⊎◌, length, if◌then◌else◌,
}
use evoeventmem.Retrieval.Types.{EvidencePolicy, ScoredMemory}
use evoeventmem.Retrieval.Pack.{
  RetrievalHarness, PackState, Taken, skip, choose, take_best, total, fits, best_lt, packed,
  continue, pack_from, pack,
}

module _ (test : ScoredMemory → Bool) (lt : ScoredMemory → ScoredMemory → Bool) where
  -- What is taken passes the test, and nothing else is lost.
  abbrev pub TakenFrom : List ScoredMemory → Taken → Type 0
  TakenFrom items none = All (λ item. test item ≡ false) items
  TakenFrom items (some (best, rest)) =
      (test best ≡ true) × Perm (best ∷ rest) items × (length items ≡ suc (length rest))

  TakenFrom-skip :
      (item : ScoredMemory) (items : List ScoredMemory) (taken : Taken)
      → test item ≡ false
      → TakenFrom items taken
      → TakenFrom (item ∷ items) (skip item taken)
  TakenFrom-skip item items none fails h = (fails, h)
  TakenFrom-skip item items (some (best, rest)) fails (passes, perm, n) =
      (passes, Perm.trans (Perm.swap item best rest) (Perm.cons item perm), omega (arith, n))

  TakenFrom-choose :
      (item : ScoredMemory) (items : List ScoredMemory) (taken : Taken)
      → test item ≡ true
      → TakenFrom items taken
      → TakenFrom (item ∷ items) (choose lt item items taken)
  TakenFrom-choose item items none yields h = (yields, Perm.refl (item ∷ items), omega arith)
  TakenFrom-choose item items (some (best, rest)) yields (passes, perm, n) =
      elim (lt item best)
        as (λ b.
          TakenFrom (item ∷ items) (if b then some (best, item ∷ rest) else some (item, items))) [
            | true ↦ (
              passes,
              Perm.trans (Perm.swap item best rest) (Perm.cons item perm),
              omega (arith, n),
            )
            | false ↦ (yields, Perm.refl (item ∷ items), omega arith)
          ]

  pub TakenFrom-take_best : (items : List ScoredMemory) → TakenFrom items (take_best test lt items)
  unfolding take_best
  TakenFrom-take_best [] = tt
  TakenFrom-take_best (item ∷ items) = elim (Bool-cases (test item)) [
    | inl yields ↦
        rw yields
          (TakenFrom-choose item items (take_best test lt items) yields (TakenFrom-take_best items))
    | inr fails ↦
        rw fails
          (TakenFrom-skip item items (take_best test lt items) fails (TakenFrom-take_best items))
  ]

module _ (self : RetrievalHarness) (query : String) (budget : ℕ) (policy : EvidencePolicy)
    (eligible : List ScoredMemory) where
  -- What is selected fits the budget, and each item is either selected or in the pool.
  abbrev pub IsFaithful : PackState → Type 0
  IsFaithful s =
      ((s.selected ≡ []) ⊎ (total self query s.selected ≤ budget))
      × Perm (s.selected ++ s.pool) eligible

  IsFaithful-packed :
      (allow : Bool) (s : PackState) (best : ScoredMemory) (rest : List ScoredMemory)
      → fits self query budget policy allow s best ≡ true
      → Perm (best ∷ rest) s.pool
      → IsFaithful s
      → IsFaithful (packed self query budget policy s best rest)
  IsFaithful-packed allow s best rest passes perm (within, all) = (
    inr (ground arith),
    Perm.trans
        (subst (λ items. Perm items (s.selected ++ s.pool))
          (sym (append_assoc s.selected (best ∷ []) rest)) (Perm.append_left s.selected perm))
        all,
  )

  -- No item of the pool passes the test any more.
  abbrev pub IsExhausted : Bool → PackState → Type 0
  IsExhausted allow s = All (λ item. fits self query budget policy allow s item ≡ false) s.pool

  abbrev pub Ends : Bool → PackState → Type 0
  Ends allow s = IsFaithful s × IsExhausted allow s

  Ends-continue :
      (allow : Bool) (fuel : ℕ) (s : PackState) (taken : Taken)
      → ((s' : PackState)
          → length s'.pool ≤ fuel
          → IsFaithful s'
          → Ends allow (pack_from self query budget policy fuel allow s'))
      → length s.pool ≤ suc fuel
      → TakenFrom
          (fits self query budget policy allow s)
          (best_lt self query budget policy s)
          s.pool
          taken
      → IsFaithful s
      → Ends allow (
          continue self query budget policy (pack_from self query budget policy fuel allow) s taken)
  Ends-continue allow fuel s none loop n h faithful = (faithful, h)
  Ends-continue allow fuel s (some (best, rest)) loop n (passes, perm, one_less) faithful =
      loop (packed self query budget policy s best rest) (omega (arith, n, one_less))
        (IsFaithful-packed allow s best rest passes perm faithful)

  Ends-pack_from :
      (allow : Bool) (fuel : ℕ) (s : PackState)
      → length s.pool ≤ fuel
      → IsFaithful s
      → Ends allow (pack_from self query budget policy fuel allow s)
  unfolding pack_from
  Ends-pack_from allow zero s n faithful = (faithful, none_left s.pool (omega arith))
    where
      none_left :
          (pool : List ScoredMemory)
          → length pool ≡ 0
          → All (λ item. fits self query budget policy allow s item ≡ false) pool
      none_left [] e = tt
      none_left (x ∷ xs) e = absurd (omega arith)
  Ends-pack_from allow (suc fuel) s n faithful =
      Ends-continue allow fuel s
        (take_best (fits self query budget policy allow s) (best_lt self query budget policy s)
          s.pool)
        (Ends-pack_from allow fuel) n
        (TakenFrom-take_best (fits self query budget policy allow s)
          (best_lt self query budget policy s) s.pool)
        faithful

  -- A phase ends with nothing in the pool that passes its test: the fuel is enough.
  pub Ends-pack :
      (allow : Bool) (s : PackState)
      → IsFaithful s
      → Ends allow (pack self query budget policy allow s)
  unfolding pack
  Ends-pack allow s = Ends-pack_from allow (length s.pool) s (omega arith)
