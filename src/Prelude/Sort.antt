-- ===== src/Prelude/Sort.antt =====
-- Python's `sorted` with a key: a stable sort, given the strict order of the keys.
use mathlib.Core.Path.{◌≡◌}
use mathlib.Core.Bool.{Bool, true, false}
use mathlib.Core.List.{List, [], ◌∷◌, Perm}
use mathlib.Core.List.Perm
use native.Mathlib.Omega.{arith}
use evoeventmem.Prelude.Tests.{if◌then◌else◌}
use evoeventmem.Prelude.Lists.{All}

module _ {ℓ} {A : Type ℓ} (lt : A → A → Bool) where
  -- An element goes in front of those that are not smaller, so equal elements keep their order.
  unfoldable pub insert : A → List A → List A
  insert x [] = x ∷ []
  insert x (y ∷ ys) = let rest = insert x ys in if lt y x then y ∷ rest else x ∷ y ∷ ys

  unfoldable pub sort : List A → List A
  unfolding insert
  sort [] = []
  sort (x ∷ xs) = insert x (sort xs)

  insert-perm : (x : A) (ys : List A) → Perm (insert x ys) (x ∷ ys)
  unfolding insert
  insert-perm x [] = Perm.refl (x ∷ [])
  insert-perm x (y ∷ ys) =
      elim (lt y x) as (λ b. Perm (if b then y ∷ insert x ys else x ∷ y ∷ ys) (x ∷ y ∷ ys)) [
        | true ↦ Perm.trans (Perm.cons y (insert-perm x ys)) (Perm.swap x y ys)
        | false ↦ Perm.refl (x ∷ y ∷ ys)
      ]

  pub sort-perm : (xs : List A) → Perm (sort xs) xs
  unfolding sort
  sort-perm [] = Perm.refl []
  sort-perm (x ∷ xs) = Perm.trans (insert-perm x (sort xs)) (Perm.cons x (sort-perm xs))

  -- No element is smaller than one that stands before it.
  abbrev pub IsSorted : List A → Type ℓ
  IsSorted [] = Unit
  IsSorted (x ∷ []) = Unit
  IsSorted (x ∷ y ∷ ys) = (lt y x ≡ false) × IsSorted (y ∷ ys)

  module _ (asym : (a b : A) → lt a b ≡ true → lt b a ≡ false) where
    insert_head-IsSorted :
        (z x : A) (ys : List A)
        → lt x z ≡ false
        → IsSorted (z ∷ ys)
        → IsSorted (insert x ys)
        → IsSorted (z ∷ insert x ys)
    unfolding insert
    insert_head-IsSorted z x [] h s t = (h, tt)
    insert_head-IsSorted z x (y ∷ ys) h s t = ground (arith)

    insert-IsSorted : (x : A) (ys : List A) → IsSorted ys → IsSorted (insert x ys)
    unfolding insert
    insert-IsSorted x [] s = tt
    insert-IsSorted x (y ∷ []) s = ground (arith, asym y x)
    insert-IsSorted x (y ∷ z ∷ zs) s =
        ground (arith, asym y x, insert-IsSorted x (z ∷ zs), insert_head-IsSorted y x (z ∷ zs))

    pub sort-IsSorted : (xs : List A) → IsSorted (sort xs)
    unfolding sort
    sort-IsSorted [] = tt
    sort-IsSorted (x ∷ xs) = insert-IsSorted x (sort xs) (sort-IsSorted xs)

  All-insert {κ} : (P : A → Type κ) (x : A) (ys : List A) → P x → All P ys → All P (insert x ys)
  unfolding insert
  All-insert P x [] h k = (h, tt)
  All-insert P x (y ∷ ys) h k =
      elim (lt y x) as (λ b. All P (if b then y ∷ insert x ys else x ∷ y ∷ ys)) [
        | true ↦ (k.0, All-insert P x ys h k.1)
        | false ↦ (h, k)
      ]

  pub All-sort {κ} : (P : A → Type κ) (xs : List A) → All P xs → All P (sort xs)
  unfolding sort
  All-sort P [] h = tt
  All-sort P (x ∷ xs) h = All-insert P x (sort xs) h.0 (All-sort P xs h.1)
