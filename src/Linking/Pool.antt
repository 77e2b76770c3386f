-- ===== src/Linking/Pool.antt =====
-- What the two comparison pools of src/evoeventmem/linking.py share: loops that stop when the pool is full,
-- sets of reasons, and the order of keys.
use evoeventmem.Prelude.{
  ℕ, ◌+◌, Bool, true, false, List, [], ◌∷◌, select, contains, ◌||◌, ◌&&◌, not, if◌then◌else◌, All,
  String,
}
use evoeventmem.Prelude.Sort.{sort}
use evoeventmem.Domain.Order.{tuple_lt}
use evoeventmem.Linking.Types.{Reason, reason_eq}

-- The rest of a function, after a loop that may have returned.
abbrev pub unless_stopped {κ} : {S : Type κ} → S × Bool → (S → S × Bool) → S × Bool
unless_stopped (s, true) rest = (s, true)
unless_stopped (s, false) rest = rest s

-- A loop that changes a state and stops when a round says so; whether it was stopped.
unfoldable pub for_until {ℓ κ} :
    {A : Type ℓ} {S : Type κ} → (A → S → S × Bool) → List A → S → S × Bool
for_until step [] s = (s, false)
for_until step (x ∷ xs) s = unless_stopped (step x s) (for_until step xs)

-- `reasons.add(reason)`
unfoldable pub add_reason : Reason → List Reason → List Reason
add_reason reason reasons = if contains reason reasons then reasons else reason ∷ reasons

-- `_ordered_reasons`
unfoldable pub ordered_reasons : List Reason → List Reason → List Reason
ordered_reasons reasons order = select (λ reason. contains reason reasons) order

-- `_reason_priority`: the place of the first reason of the order that is among the reasons.
unfoldable pub reason_priority : List Reason → List Reason → ℕ
reason_priority reasons [] = 0
reason_priority reasons (reason ∷ order) =
    let rest = reason_priority reasons order in if contains reason reasons then 0 else rest + 1

-- `sorted` of a set of texts
abbrev pub sorted_texts : List String → List String
sorted_texts texts = sort (λ a b. tuple_lt (a ∷ []) (b ∷ [])) texts

-- The first component of a tuple decides, or the rest does.
abbrev pub then_by : Bool → Bool → Bool → Bool
then_by less greater rest = less || not greater && rest

abbrev pub tuple_then_by : List String → List String → Bool → Bool
tuple_then_by a b rest = then_by (tuple_lt a b) (tuple_lt b a) rest

pub unless_stopped-keeps {κ ν} :
    {S : Type κ} (P : S → Type ν) (r : S × Bool) (rest : S → S × Bool)
    → P r.0
    → ((s : S) → P s → P (rest s).0)
    → P (unless_stopped r rest).0
unless_stopped-keeps P (s, true) rest p h = p
unless_stopped-keeps P (s, false) rest p h = h s p

module _ {ℓ κ μ ν} {A : Type ℓ} {S : Type κ} (Q : A → Type μ) (P : S → Type ν)
    (step : A → S → S × Bool) where
  -- What every round keeps, the loop keeps.
  pub for_until-keeps :
      ((x : A) (s : S) → Q x → P s → P (step x s).0)
      → (xs : List A) (s : S) → All Q xs
      → P s
      → P (for_until step xs s).0
  unfolding for_until
  for_until-keeps h [] s q p = p
  for_until-keeps h (x ∷ xs) s q p =
      unless_stopped-keeps P (step x s) (for_until step xs) (h x s q.0 p)
        λ s' p'. for_until-keeps h xs s' q.1 p'
