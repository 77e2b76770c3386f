-- ===== src/Result.antt =====
-- Python's exceptions as values. `validation` is pydantic's ValidationError with the message of the
-- validator that raised it; the other constructors are the exceptions of the modelled modules.
use mathlib.Core.Path.{subst}
use evoeventmem.Prelude.{
  Bool, true, false, List, [], ◌∷◌, All, String, ◌≡◌, refl, ◌⊎◌, inl, inr, if◌then◌else◌,
}

pub data Error : Type 0 where
  validation : String → Error
  value_error : String → Error
  key_error : Error
  runtime_error : String → Error
  identity_collision : Error
  scope_mismatch : Error
  storage : String → Error

pub data Result {ℓ} (A : Type ℓ) : Type ℓ where
  ok : A → Result A
  err : Error → Result A

-- Go on with the value, or pass the exception on.
abbrev pub ◌>>=◌ {u v} :
    {Value : Type u} {Next : Type v} → Result Value → (Value → Result Next) → Result Next
err raised >>= next = err raised
ok value >>= next = next value

-- A statement that may raise, before the rest.
abbrev pub ◌>>◌ {u} : {Next : Type u} → Result (Unit {0}) → Result Next → Result Next
err raised >> rest = err raised
ok done >> rest = rest

infixl 5 ◌>>=◌ ◌>>◌
-- `if bad: raise error`
abbrev pub raise_if : Bool → Error → Result (Unit {0})
raise_if true e = err e
raise_if false e = ok tt

pub Result-cases {ℓ} :
    {A : Type ℓ} (r : Result A) → ((a : A) × (r ≡ ok a)) ⊎ ((e : Error) × (r ≡ err e))
Result-cases (ok a) = inl (a, refl)
Result-cases (err e) = inr (e, refl)

-- A row of `if bad: raise ValueError(message)`: the first check that fails raises.
unfoldable pub raise_first {ℓ} : {A : Type ℓ} → List (Bool × String) → A → Result A
raise_first [] a = ok a
raise_first ((true, message) ∷ checks) a = err (validation message)
raise_first ((false, message) ∷ checks) a = raise_first checks a

abbrev pub NoneFires : List (Bool × String) → Type 0
NoneFires = All (λ c. c.0 ≡ false)

pub raise_first-eq-ok {ℓ} :
    {A : Type ℓ} (checks : List (Bool × String)) (a b : A)
    → raise_first checks a ≡ ok b
    → NoneFires checks × (b ≡ a)
unfolding raise_first
raise_first-eq-ok [] a b h = (tt, cc)
raise_first-eq-ok ((true, message) ∷ checks) a b h = absurd (cc)
raise_first-eq-ok ((false, message) ∷ checks) a b h =
    let (rest, e) = raise_first-eq-ok checks a b h in ((refl, rest), e)

pub raise_first_ok {ℓ} :
    {A : Type ℓ} (checks : List (Bool × String)) (a : A)
    → NoneFires checks
    → raise_first checks a ≡ ok a
unfolding raise_first
raise_first_ok [] a h = refl
raise_first_ok ((true, message) ∷ checks) a h = absurd (cc h.0)
raise_first_ok ((false, message) ∷ checks) a h = raise_first_ok checks a h.1

ok-injective {ℓ} : {A : Type ℓ} (a b : A) → ok a ≡ ok b → a ≡ b
ok-injective a b h = cc

-- What holds of the value, if there is one.
abbrev pub Ensures {ℓ κ} : {A : Type ℓ} → (A → Type κ) → Result A → Type κ
Ensures P (ok a) = P a
Ensures P (err e) = Unit

pub ensured {ℓ κ} :
    {A : Type ℓ} (P : A → Type κ) (r : Result A) (a : A) → Ensures P r → r ≡ ok a → P a
ensured P (ok b) a h e = subst P (ok-injective b a e) h
ensured P (err e) a h f = absurd (cc)

pub Ensures-bind {ℓ κ μ} :
    {A : Type ℓ} {B : Type κ} (Q : B → Type μ) (m : Result A) (f : A → Result B)
    → ((a : A) → m ≡ ok a → Ensures Q (f a))
    → Ensures Q (m >>= f)
Ensures-bind Q (ok a) f h = h a refl
Ensures-bind Q (err e) f h = tt

pub Ensures-of {ℓ κ} :
    {A : Type ℓ} (P : A → Type κ) (r : Result A) → ((a : A) → r ≡ ok a → P a) → Ensures P r
Ensures-of P (ok a) h = h a refl
Ensures-of P (err e) h = tt

pub Ensures-if {ℓ κ} :
    {A : Type ℓ} (P : A → Type κ) (b : Bool) (x y : Result A)
    → Ensures P x
    → Ensures P y
    → Ensures P (if b then x else y)
Ensures-if P true x y h k = h
Ensures-if P false x y h k = k

-- A statement that may raise changes nothing of what the rest ensures.
pub Ensures-then {ℓ κ} :
    {A : Type ℓ} (P : A → Type κ) (m : Result (Unit {0})) (rest : Result A)
    → Ensures P rest
    → Ensures P (m >> rest)
Ensures-then P (ok done) rest h = h
Ensures-then P (err e) rest h = tt
