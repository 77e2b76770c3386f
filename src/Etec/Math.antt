-- ===== src/Etec/Math.antt =====
-- Sets of texts and lists without repetition: src/evoeventmem/core/math_utils.py, and the loops over
-- `seen` of src/evoeventmem/consolidation.py. A set is the list of its elements, in any order and
-- maybe more than once; `as_set` keeps each of them once.
pub mod Unique
use evoeventmem.Prelude.{
  ℕ, String, Bool, Option, List, [], ◌∷◌, ◌++◌, not, contains, length, select, Eq, ◌==◌, nat_eq,
  string_eq, option_eq, pair_eq, if◌then◌else◌,
}
use evoeventmem.Float
use evoeventmem.Domain.Models.{EvidenceRef}

module _ {ℓ κ} {A : Type ℓ} {K : Type κ} ⦃e : Eq K⦄ (key : A → K) where
  -- The loop `if key in seen: continue` ... `seen.add(key); unique.append(item)`.
  unfoldable pub unique_from : List K → List A → List A
  unique_from seen [] = []
  unique_from seen (item ∷ items) =
      let skipped = unique_from seen items in
      let kept = unique_from (key item ∷ seen) items in
      if contains (key item) seen then skipped else item ∷ kept

  abbrev pub unique_by : List A → List A
  unique_by items = unique_from [] items

unfoldable pub unique_uuids : List ℕ → List ℕ
unique_uuids items = unique_by (λ memory_id. memory_id) items

abbrev pub as_set : List String → List String
as_set items = unique_by (λ text. text) items

-- `evidence_key`
abbrev pub evidence_key : EvidenceRef → String × (String × Option String)
evidence_key evidence = (evidence.source_type, (evidence.source_id, evidence.locator))

unfoldable pub unique_evidence : List EvidenceRef → List EvidenceRef
unique_evidence refs = unique_by evidence_key refs

-- `len(left & right)` and `len(left | right)`
unfoldable pub count_both : List String → List String → ℕ
count_both left right = length (select (λ x. contains x right) (as_set left))

unfoldable pub count_either : List String → List String → ℕ
count_either left right = length (as_set (left ++ right))

unfoldable pub jaccard : List String → List String → ℕ
jaccard left right =
    if count_either left right == 0
    then 0
    else Float.div (count_both left right) (count_either left right)
