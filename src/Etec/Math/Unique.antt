-- ===== src/Etec/Math/Unique.antt =====
-- A list without repetitions keeps one item for each key.
use mathlib.Core.List.{Memᴰ}
use evoeventmem.Prelude.{
  All, All-of_mem, ◌≡◌, true, false, ◌&&◌, not, List, [], ◌∷◌, map, Eq, ==_iff, contains, arith,
  if◌then◌else◌,
}
use evoeventmem.Etec.Math.{unique_from, unique_by}

module _ {A : Type 0} {K : Type 0} ⦃e : Eq K⦄ (key : A → K) where
  -- No two items have the same key.
  abbrev pub IsUnique : List A → Type 0
  IsUnique [] = Unit
  IsUnique (x ∷ xs) = (contains (key x) (map key xs) ≡ false) × IsUnique xs

  abbrev kept_keys : List K → List A → List K
  kept_keys seen items = map key (unique_from key seen items)

  -- The keys of the result are the keys of the items that are not in `seen`.
  contains-unique_from :
      (seen : List K) (items : List A) (k : K)
      → contains k (kept_keys seen items) ≡ (not (contains k seen) && contains k (map key items))
  unfolding unique_from contains
  contains-unique_from seen [] k = ground arith
  contains-unique_from seen (x ∷ xs) k = ground (
    arith,
    ==_iff k (key x),
    contains-unique_from seen xs k,
    contains-unique_from (key x ∷ seen) xs k,
  )

  fresh :
      (seen : List K) (x : A) (xs : List A) → contains (key x) (kept_keys (key x ∷ seen) xs) ≡ false
  unfolding contains
  fresh seen x xs = rw contains-unique_from (ground (arith, ==_iff (key x) (key x)))

  IsUnique-unique_from : (seen : List K) (items : List A) → IsUnique (unique_from key seen items)
  unfolding unique_from
  IsUnique-unique_from seen [] = tt
  IsUnique-unique_from seen (x ∷ xs) =
      elim (contains (key x) seen)
        as (λ b.
          IsUnique (if b then unique_from key seen xs else x ∷ unique_from key (key x ∷ seen) xs)) [
            | true ↦ IsUnique-unique_from seen xs
            | false ↦ (fresh seen x xs, IsUnique-unique_from (key x ∷ seen) xs)
          ]

  All-unique_from :
      (P : A → Type 0) (seen : List K) (items : List A)
      → All P items
      → All P (unique_from key seen items)
  unfolding unique_from
  All-unique_from P seen [] h = tt
  All-unique_from P seen (x ∷ xs) h =
      elim (contains (key x) seen)
        as (λ b.
          All P (if b then unique_from key seen xs else x ∷ unique_from key (key x ∷ seen) xs)) [
            | true ↦ All-unique_from P seen xs h.1
            | false ↦ (h.0, All-unique_from P (key x ∷ seen) xs h.1)
          ]

  -- One of the items is left for each key of the items.
  abbrev pub OneEach : List A → List A → Type 0
  OneEach items kept =
      IsUnique kept
      × ((k : K) → contains k (map key kept) ≡ contains k (map key items))
      × All (λ x. Memᴰ x items) kept

  pub unique_by-OneEach : (items : List A) → OneEach items (unique_by key items)
  unfolding contains
  unique_by-OneEach items = (
    IsUnique-unique_from [] items,
    λ k. contains-unique_from [] items k,
    All-unique_from (λ x. Memᴰ x items) [] items (All-of_mem (λ x. Memᴰ x items) items (λ x h. h)),
  )
