-- ===== src/Domain/Order/Asym.antt =====
-- Python's order on texts and on tuples of texts is asymmetric.
use Prim.Native.Nat.{Ordering}
use Prim.Native.String
use Prim.Native.String.{compare}
use evoeventmem.Prelude.{String, true, false, List, [], ◌∷◌, ◌≡◌, refl, arith}
use text.Mathlib.TextEquality.{path_by_compare}
use text.Mathlib.TextPositions.{compare_refl}
use evoeventmem.Domain.Order.{tuple_lt}

pub compare_flip : (s t : String) → compare s t ≡ Ordering.lt → compare t s ≡ Ordering.gt
compare_flip String.[] String.[] h = absurd (cc)
compare_flip String.[] (String.◌∷◌ d t) h = String.compare.cons-nil d t
compare_flip (String.◌∷◌ c s) String.[] h = absurd (cc (String.compare.cons-nil c s))
compare_flip (String.◌∷◌ c s) (String.◌∷◌ d t) h =
    ground
      (arith, String.compare.cons-cons c d s t, String.compare.cons-cons d c t s, compare_flip s t)

pub compare_eq_flip : (s t : String) → compare s t ≡ Ordering.eq → compare t s ≡ Ordering.eq
compare_eq_flip s t h = rw (path_by_compare s t h) (compare_refl t)

pub tuple_lt_asym : (ss ts : List String) → tuple_lt ss ts ≡ true → tuple_lt ts ss ≡ false
unfolding tuple_lt
tuple_lt_asym [] [] h = refl
tuple_lt_asym [] (t ∷ ts) h = refl
tuple_lt_asym (s ∷ ss) [] h = absurd (cc)
tuple_lt_asym (s ∷ ss) (t ∷ ts) h =
    ground (arith, compare_flip s t, compare_flip t s, compare_eq_flip s t, tuple_lt_asym ss ts)
