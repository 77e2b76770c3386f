-- ===== src/Etec/Features.antt =====
-- The feature vector of a pair of memories.
use evoeventmem.Prelude.{
  ℕ, String, Bool, true, false, Option, none, some, List, [], ◌∷◌, map, not, ◌&&◌, ◌||◌, ◌==◌, Eq,
  any, contains, max, string_eq, option_eq, pair_eq, nat_eq, if◌then◌else◌,
}
use evoeventmem.Float
use evoeventmem.Float.{one, decimal, at_most_one}
use evoeventmem.Domain.Text.{normalize_memory_content}
use evoeventmem.Domain.Models.{
  MemoryRecord, MemoryKind, EvidenceRef, RelationRef, fact, event, episode, procedure, is_empty,
}
use evoeventmem.Prelude.Dict.{values}
use evoeventmem.Etec.Types.{EtecConsolidator, EtecFeatureVector}
use evoeventmem.Etec.Math.{jaccard, evidence_key}
use evoeventmem.Etec.Keys.{
  normalized_linking_key, same_fact_slot, same_fact_value, entity_role_keys, is_multi_valued,
  memory_is_multi_valued,
}
use evoeventmem.Etec.Times.{overlapping}

-- `source.memory_kind is target.memory_kind`
abbrev pub same_kind : MemoryKind → MemoryKind → Bool
same_kind fact fact = true
same_kind event event = true
same_kind episode episode = true
same_kind procedure procedure = true
same_kind _ _ = false

-- `left & right`, as a test
abbrev shares_any {ℓ} : {K : Type ℓ} ⦃e : Eq K⦄ → List K → List K → Bool
shares_any left right = any (λ key. contains key right) left

unfoldable pub evidence_consistency : List EvidenceRef → List EvidenceRef → ℕ
evidence_consistency [] target = 0
evidence_consistency (s ∷ source) [] = decimal 7 10
evidence_consistency (s ∷ source) (t ∷ target) =
    if shares_any (map evidence_key (s ∷ source)) (map evidence_key (t ∷ target))
    then one
    else if shares_any (map (λ (item : EvidenceRef). item.source_type) (s ∷ source))
        (map (λ (item : EvidenceRef). item.source_type) (t ∷ target))
    then decimal 8 10
    else decimal 6 10

unfoldable pub temporal_overlap_score : MemoryRecord → MemoryRecord → ℕ
temporal_overlap_score source target = elim (overlapping source target) [
  | none ↦ decimal 5 10
  | some overlap ↦ if overlap then one else 0
]

-- The score of two values of one slot, by whether their intervals overlap.
abbrev pub graded_by : Option Bool → ℕ → ℕ
graded_by none graded = graded
graded_by (some true) graded = graded
graded_by (some false) graded = decimal 5 10

module _ (self : EtecConsolidator) where
  -- `_semantic_similarity` of the two embeddings, within its bounds
  unfoldable pub semantic : MemoryRecord → MemoryRecord → ℕ
  semantic source target =
      let fold = self.platform.casefold in
      if normalize_memory_content fold source.content
          == normalize_memory_content fold target.content
        || same_fact_value self source target
      then one
      else at_most_one (self.cosine source.content target.content)

  unfoldable pub entity_role : MemoryRecord → MemoryRecord → ℕ
  entity_role source target =
      let overlap = jaccard (entity_role_keys self source) (entity_role_keys self target) in
      if overlap == 0 && same_fact_slot self source target then one else overlap

  abbrev pub role_set : MemoryRecord → List String
  role_set memory = map (normalized_linking_key self) (values memory.roles)

  abbrev pub predicate_set : MemoryRecord → List String
  predicate_set memory =
      map (λ (relation : RelationRef). normalized_linking_key self relation.predicate)
        memory.relations

  unfoldable pub structural_similarity : MemoryRecord → MemoryRecord → ℕ
  structural_similarity source target =
      let kind = if same_kind source.memory_kind target.memory_kind then decimal 4 10 else 0 in
      let roles = Float.mul (decimal 3 10) (jaccard (role_set source) (role_set target)) in
      let predicates =
        Float.mul (decimal 3 10) (jaccard (predicate_set source) (predicate_set target)) in
      let score = Float.add (Float.add kind roles) predicates in
      at_most_one (if same_fact_slot self source target then max score (decimal 8 10) else score)

  -- `_contradiction_score`
  unfoldable pub contradiction_score : MemoryRecord → MemoryRecord → ℕ → ℕ → Bool → ℕ
  contradiction_score source target entity_role_overlap structural multi_valued =
      let graded = at_most_one (
        Float.add (Float.add (decimal 6 10) (Float.mul entity_role_overlap (decimal 2 10)))
          (Float.mul structural (decimal 2 10))) in
      if multi_valued
        || not (same_fact_slot self source target)
        || same_fact_value self source target
      then 0
      else graded_by (overlapping source target) graded

  unfoldable pub features : MemoryRecord → MemoryRecord → EtecFeatureVector
  features source target = record {
    semantic_similarity = semantic source target;
    entity_role_overlap = entity_role source target;
    temporal_overlap = temporal_overlap_score source target;
    structural_similarity = structural_similarity source target;
    evidence_consistency = evidence_consistency source.evidence_refs target.evidence_refs;
    contradiction_score =
        contradiction_score source target (entity_role source target)
          (structural_similarity source target) (is_multi_valued source target);
    multi_valued = is_multi_valued source target;
  }

-- `_standalone_features`
unfoldable pub standalone_features : MemoryRecord → EtecFeatureVector
standalone_features source = record {
  semantic_similarity = 0;
  entity_role_overlap = 0;
  temporal_overlap = 0;
  structural_similarity = 0;
  evidence_consistency = if is_empty source.evidence_refs then 0 else one;
  contradiction_score = 0;
  multi_valued = memory_is_multi_valued source;
}
