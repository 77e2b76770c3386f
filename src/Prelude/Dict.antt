-- ===== src/Prelude/Dict.antt =====
-- Python's `dict`, in insertion order: an assignment to a key that is there keeps its place.
use evoeventmem.Prelude.Tests.{Eq, ◌==◌, Bool-cases, if◌then◌else◌}
use mathlib.Core.Path.{◌≡◌, refl, sym, subst}
use mathlib.Core.Logic.{inl, inr}
use mathlib.Core.Option.{Option, none, some}
use mathlib.Core.List.{List, [], ◌∷◌}
use evoeventmem.Prelude.Lists.{All}
use native.Mathlib.Omega.{arith}

abbrev pub Dict {ℓ κ} : Type ℓ → Type κ → Type (ℓ ⊔ κ)
Dict K V = List (K × V)

module _ {ℓ κ} {K : Type ℓ} {V : Type κ} where
  -- `d.values()`
  unfoldable pub values : Dict K V → List V
  values [] = []
  values ((k, v) ∷ d) = v ∷ values d

module _ {ℓ κ} {K : Type ℓ} {V : Type κ} ⦃e : Eq K⦄ where
  -- `d.get(k)`
  unfoldable pub get : Dict K V → K → Option V
  get [] k = none
  get ((j, v) ∷ d) k = if j == k then some v else get d k

  -- `d[k] = v`
  unfoldable pub put : Dict K V → K → V → Dict K V
  put [] k v = (k, v) ∷ []
  put ((j, w) ∷ d) k v = if j == k then (j, v) ∷ d else (j, w) ∷ put d k v

  pub get-put :
      (d : Dict K V) (k j : K) (v : V) → get (put d k v) j ≡ (if k == j then some v else get d j)
  unfolding get put
  get-put [] k j v = refl
  get-put ((i, w) ∷ d) k j v =
      ground (arith, e.same_iff k j, e.same_iff i k, e.same_iff i j, get-put d k j v)

module _ {ℓ κ μ} {K : Type ℓ} {V : Type κ} ⦃e : Eq K⦄ (P : K × V → Type μ) where
  pub All-put : (d : Dict K V) (k : K) (v : V) → P (k, v) → All P d → All P (put d k v)
  unfolding put
  All-put [] k v p h = (p, tt)
  All-put ((j, w) ∷ d) k v p h = elim (Bool-cases (j == k)) [
    | inl same ↦ rw same (subst (λ i. P (i, v)) (sym ((e.same_iff j k).0 same)) p, h.1)
    | inr differs ↦ rw differs (h.0, All-put d k v p h.1)
  ]

  pub All-get : (d : Dict K V) (k : K) (v : V) → All P d → get d k ≡ some v → P (k, v)
  unfolding get
  All-get [] k v h found = absurd (cc)
  All-get ((j, w) ∷ d) k v h found = elim (Bool-cases (j == k)) [
    | inl same ↦
        let here : w ≡ v = ground arith in
        subst (λ i. P (i, v)) ((e.same_iff j k).0 same) (subst (λ x. P (j, x)) here h.0)
    | inr differs ↦ All-get d k v h.1 (rw differs at found)
  ]

pub All-values {ℓ κ μ ν} :
    {K : Type ℓ} {V : Type κ} (P : K × V → Type μ) (Q : V → Type ν) (d : Dict K V)
    → ((k : K) (v : V) → P (k, v) → Q v)
    → All P d
    → All Q (values d)
unfolding values
All-values P Q [] f h = tt
All-values P Q ((k, v) ∷ d) f h = (f k v h.0, All-values P Q d f h.1)
