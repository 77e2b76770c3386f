-- ===== src/Prelude/Lists.antt =====
-- Lists with native lengths, and membership as a Boolean test.
use Prim.Native.Nat.{ℕ, zero, suc, ◌+◌, ◌≤◌, ◌<◌}
use mathlib.Core.Path.{◌≡◌, refl, ap, subst, sym}
use mathlib.Core.Logic.{◌↔◌, inl, inr}
use mathlib.Core.Bool.{Bool, true, false, ◌||◌, ◌&&◌}
use mathlib.Core.Option.{Option, none, some}
use mathlib.Core.List.{List, [], ◌∷◌, ◌++◌, map, Memᴰ}
use native.Mathlib.Omega.{arith}
use evoeventmem.Prelude.Tests.{Eq, ◌==◌, ==_iff, Bool-cases, if◌then◌else◌}

module _ {ℓ} {A : Type ℓ} where
  abbrev pub length : List A → ℕ
  length [] = 0
  length (x ∷ xs) = suc (length xs)

  unfoldable pub take : ℕ → List A → List A
  take zero xs = []
  take (suc n) [] = []
  take (suc n) (x ∷ xs) = x ∷ take n xs

  -- `xs[n:]`
  unfoldable pub drop : ℕ → List A → List A
  drop zero xs = xs
  drop (suc n) [] = []
  drop (suc n) (x ∷ xs) = drop n xs

  -- `[x for x in xs if p(x)]`
  unfoldable pub select : (A → Bool) → List A → List A
  select p [] = []
  select p (x ∷ xs) = let rest = select p xs in if p x then x ∷ rest else rest

  -- the first element that passes the test
  unfoldable pub find : (A → Bool) → List A → Option A
  find p [] = none
  find p (x ∷ xs) = if p x then some x else find p xs

  unfoldable pub any : (A → Bool) → List A → Bool
  any p [] = false
  any p (x ∷ xs) = p x || any p xs

  pub length-append : (xs ys : List A) → length (xs ++ ys) ≡ length xs + length ys
  length-append [] ys = omega arith
  length-append (x ∷ xs) ys = omega (arith, length-append xs ys)

  pub length-take-le : (n : ℕ) (xs : List A) → length (take n xs) ≤ n
  unfolding take
  length-take-le zero xs = omega arith
  length-take-le (suc n) [] = omega arith
  length-take-le (suc n) (x ∷ xs) = omega (arith, length-take-le n xs)

  pub take-append-drop : (n : ℕ) (xs : List A) → take n xs ++ drop n xs ≡ xs
  unfolding take drop
  take-append-drop zero xs = refl
  take-append-drop (suc n) [] = refl
  take-append-drop (suc n) (x ∷ xs) = ap (◌∷◌ x) (take-append-drop n xs)

  -- Nothing is dropped from a list that `take` did not fill.
  pub drop_of_short : (n : ℕ) (xs : List A) → length (take n xs) < n → drop n xs ≡ []
  unfolding take drop
  drop_of_short zero xs h = absurd (omega arith)
  drop_of_short (suc n) [] h = refl
  drop_of_short (suc n) (x ∷ xs) h = drop_of_short n xs (omega arith)

  -- Every element has the property.
  abbrev pub All {κ} : (A → Type κ) → List A → Type κ
  All P [] = Unit
  All P (x ∷ xs) = P x × All P xs

module _ {ℓ κ} {A : Type ℓ} (P : A → Type κ) where
  pub All-append : (xs ys : List A) → All P xs → All P ys → All P (xs ++ ys)
  All-append [] ys h k = k
  All-append (x ∷ xs) ys h k = (h.0, All-append xs ys h.1 k)

pub All-take {ℓ κ} :
    {A : Type ℓ} (P : A → Type κ) (n : ℕ) (xs : List A) → All P xs → All P (take n xs)
unfolding take
All-take P zero xs h = tt
All-take P (suc n) [] h = tt
All-take P (suc n) (x ∷ xs) h = (h.0, All-take P n xs h.1)

pub All-map_of {ℓ κ μ ν} :
    {A : Type ℓ} {B : Type κ} (P : B → Type μ) (Q : A → Type ν) (f : A → B) (xs : List A)
    → ((x : A) → Q x → P (f x))
    → All Q xs
    → All P (map f xs)
All-map_of P Q f [] h k = tt
All-map_of P Q f (x ∷ xs) h k = (h x k.0, All-map_of P Q f xs h k.1)

pub All-imp {ℓ κ μ} :
    {A : Type ℓ} (P : A → Type κ) (Q : A → Type μ) (xs : List A)
    → ((x : A) → P x → Q x)
    → All P xs
    → All Q xs
All-imp P Q [] f h = tt
All-imp P Q (x ∷ xs) f h = (f x h.0, All-imp P Q xs f h.1)

pub All-both {ℓ κ μ ν} :
    {A : Type ℓ} (P : A → Type κ) (Q : A → Type μ) (R : A → Type ν) (xs : List A)
    → ((x : A) → P x → Q x → R x)
    → All P xs
    → All Q xs
    → All R xs
All-both P Q R [] f h k = tt
All-both P Q R (x ∷ xs) f h k = (f x h.0 k.0, All-both P Q R xs f h.1 k.1)

module _ {ℓ} {A : Type ℓ} (p : A → Bool) where
  pub All-select {κ} : (P : A → Type κ) (xs : List A) → All P xs → All P (select p xs)
  unfolding select
  All-select P [] h = tt
  All-select P (x ∷ xs) h =
      elim (p x) as (λ b. All P (if b then x ∷ select p xs else select p xs)) [
        | true ↦ (h.0, All-select P xs h.1)
        | false ↦ All-select P xs h.1
      ]

  pub select_passes : (xs : List A) → All (λ x. p x ≡ true) (select p xs)
  unfolding select
  select_passes [] = tt
  select_passes (x ∷ xs) = elim (Bool-cases (p x)) [
    | inl yields ↦ rw yields (yields, select_passes xs)
    | inr fails ↦ rw fails (select_passes xs)
  ]

  pub find_passes : (xs : List A) (x : A) → find p xs ≡ some x → p x ≡ true
  unfolding find
  find_passes [] x h = absurd (cc)
  find_passes (y ∷ ys) x h = ground (arith, find_passes ys x)

  pub find_fails : (xs : List A) → find p xs ≡ none → All (λ x. p x ≡ false) xs
  unfolding find
  find_fails [] h = tt
  find_fails (y ∷ ys) h = elim (Bool-cases (p y)) [
    | inl yields ↦ absurd (ground arith)
    | inr fails ↦ (fails, find_fails ys (rw fails at h))
  ]

  pub All-find {κ} : (P : A → Type κ) (xs : List A) (x : A) → All P xs → find p xs ≡ some x → P x
  unfolding find
  All-find P [] x h e = absurd (cc)
  All-find P (y ∷ ys) x h e = elim (Bool-cases (p y)) [
    | inl yields ↦ let same : y ≡ x = ground arith in subst P same h.0
    | inr fails ↦ All-find P ys x h.1 (rw fails at e)
  ]

pub length-select-le {ℓ} :
    {A : Type ℓ} (p : A → Bool) (xs : List A) → length (select p xs) ≤ length xs
unfolding select
length-select-le p [] = omega arith
length-select-le p (x ∷ xs) = ground (arith, length-select-le p xs)

pub All-map {ℓ κ μ} :
    {A : Type ℓ} {B : Type κ} (P : B → Type μ) (f : A → B) (xs : List A)
    → ((x : A) → P (f x))
    → All P (map f xs)
All-map P f [] h = tt
All-map P f (x ∷ xs) h = (h x, All-map P f xs h)

pub length-map {ℓ κ} :
    {A : Type ℓ} {B : Type κ} (f : A → B) (xs : List A) → length (map f xs) ≡ length xs
length-map f [] = omega arith
length-map f (x ∷ xs) = omega (arith, length-map f xs)

module _ {ℓ} {A : Type ℓ} ⦃e : Eq A⦄ where
  -- `x in xs`
  unfoldable pub contains : A → List A → Bool
  contains x [] = false
  contains x (y ∷ ys) = x == y || contains x ys

module _ {ℓ} {A : Type ℓ} ⦃e : Eq A⦄ where
  -- How often an element occurs.
  unfoldable pub count : A → List A → ℕ
  count x [] = 0
  count x (y ∷ ys) = let rest = count x ys in if x == y then suc rest else rest

module _ {ℓ} {A : Type ℓ} ⦃e : Eq A⦄ where
  abbrev list_beq : List A → List A → Bool
  list_beq [] [] = true
  list_beq [] (y ∷ ys) = false
  list_beq (x ∷ xs) [] = false
  list_beq (x ∷ xs) (y ∷ ys) = x == y && list_beq xs ys

  pub list_beq_iff : (xs ys : List A) → (list_beq xs ys ≡ true) ↔ (xs ≡ ys)
  list_beq_iff [] [] = ground arith
  list_beq_iff [] (y ∷ ys) = ground arith
  list_beq_iff (x ∷ xs) [] = ground arith
  list_beq_iff (x ∷ xs) (y ∷ ys) = ground (arith, e.same_iff x y, list_beq_iff xs ys)

  instance abbrev pub list_eq : Eq (List A)
  list_eq = record { same = list_beq; same_iff = list_beq_iff }

pub All-of_mem {ℓ κ} :
    {A : Type ℓ} (P : A → Type κ) (xs : List A) → ((x : A) → Memᴰ x xs → P x) → All P xs
All-of_mem P [] h = tt
All-of_mem P (x ∷ xs) h = (h x (Memᴰ.head refl), All-of_mem P xs (λ y m. h y (Memᴰ.tail m)))

pub All-contained {ℓ κ} :
    {A : Type ℓ} ⦃e : Eq A⦄ (P : A → Type κ) (xs : List A) (x : A)
    → All P xs
    → contains x xs ≡ true
    → P x
unfolding contains
All-contained P [] x h k = absurd (cc)
All-contained ⦃e⦄ P (y ∷ ys) x h k = elim (Bool-cases (x == y)) [
  | inl same ↦ subst P (sym ((e.same_iff x y).0 same)) h.0
  | inr differs ↦ All-contained P ys x h.1 (rw differs at k)
]

-- The elements of a list, as its members that pass the test.
pub All-select_mem {ℓ} :
    {A : Type ℓ} (p : A → Bool) (xs : List A) → All (λ x. (p x ≡ true) × Memᴰ x xs) (select p xs)
All-select_mem p xs =
    All-both (λ x. p x ≡ true) (λ x. Memᴰ x xs) (λ x. (p x ≡ true) × Memᴰ x xs) (select p xs)
      (λ x h k. (h, k)) (select_passes p xs)
      (All-select p (λ x. Memᴰ x xs) xs (All-of_mem (λ x. Memᴰ x xs) xs (λ x h. h)))

-- The sum of the weights of the elements.
abbrev pub tally {ℓ} : {A : Type ℓ} → (A → ℕ) → List A → ℕ
tally weight [] = 0
tally weight (x ∷ xs) = weight x + tally weight xs

pub tally-append {ℓ} :
    {A : Type ℓ} (weight : A → ℕ) (xs ys : List A)
    → tally weight (xs ++ ys) ≡ tally weight xs + tally weight ys
tally-append weight [] ys = omega arith
tally-append weight (x ∷ xs) ys = omega (arith, tally-append weight xs ys)

pub tally_one {ℓ} : {A : Type ℓ} (xs : List A) → tally (λ x. 1) xs ≡ length xs
tally_one [] = refl
tally_one (x ∷ xs) = omega (arith, tally_one xs)

pub tally-count {ℓ κ} :
    {A : Type ℓ} {K : Type κ} ⦃e : Eq K⦄ (key : A → K) (k : K) (xs : List A)
    → tally (λ x. if k == key x then 1 else 0) xs ≡ count k (map key xs)
unfolding count
tally-count key k [] = refl
tally-count key k (x ∷ xs) = ground (arith, tally-count key k xs)

pub contains-select {ℓ} :
    {A : Type ℓ} ⦃e : Eq A⦄ (p : A → Bool) (x : A) (xs : List A)
    → contains x (select p xs) ≡ (contains x xs && p x)
unfolding contains select
contains-select p x [] = refl
contains-select p x (y ∷ ys) = ground (arith, ==_iff x y, contains-select p x ys)
