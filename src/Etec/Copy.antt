-- ===== src/Etec/Copy.antt =====
-- The records that a consolidation stores: the merged record, the superseded ones and the new one.
-- `now` is what `datetime.now(UTC)` returned.
pub mod Scoped
pub mod Links
pub mod Merged
pub mod Kept
use evoeventmem.Prelude.{
  ℕ, String, Bool, true, false, Option, none, some, List, [], ◌∷◌, ◌++◌, map, not, ◌&&◌, ltb, max,
  ◌==◌, nat_eq, string_eq, contains, select, if◌then◌else◌, ◌+++◌,
}
use evoeventmem.Prelude.Dict.{put}
use evoeventmem.Result.{Result, ok, ◌>>=◌}
use evoeventmem.Domain.Value.{Value, null, bool, float, str, arr, obj, Metadata, items, fields}
use evoeventmem.Domain.Order.{tuple_lt}
use evoeventmem.Domain.Models.{MemoryRecord, active, superseded, model_validate, all_fields}
use evoeventmem.Platform.{Platform}
use evoeventmem.Etec.Types.{
  EtecConsolidator, EtecDecision, EtecFeatureVector, EtecThresholds, ConsolidationAction,
}
use evoeventmem.Etec.Math.{unique_uuids, unique_evidence}
use evoeventmem.Etec.Keys.{same_fact_slot, same_fact_value, unique_entities}
use evoeventmem.Etec.Times.{earliest_time, latest_time, supersession_cutoff}

-- `features.model_dump(mode="json")`, and those of the other models.
unfoldable pub dump_features : EtecFeatureVector → Value
dump_features f = obj (
    fields (
      ("semantic_similarity", float f.semantic_similarity)
      ∷ ("entity_role_overlap", float f.entity_role_overlap)
      ∷ ("temporal_overlap", float f.temporal_overlap)
      ∷ ("structural_similarity", float f.structural_similarity)
      ∷ ("evidence_consistency", float f.evidence_consistency)
      ∷ ("contradiction_score", float f.contradiction_score)
      ∷ ("multi_valued", bool f.multi_valued)
      ∷ []))

unfoldable pub dump_thresholds : EtecThresholds → Value
dump_thresholds t = obj (
    fields (
      ("merge_semantic_min", float t.merge_semantic_min)
      ∷ ("merge_entity_role_min", float t.merge_entity_role_min)
      ∷ ("merge_score_min", float t.merge_score_min)
      ∷ ("supersede_contradiction_min", float t.supersede_contradiction_min)
      ∷ ("reject_evidence_min", float t.reject_evidence_min)
      ∷ []))

unfoldable pub action_text : ConsolidationAction → String
action_text ConsolidationAction.add = "ADD"
action_text ConsolidationAction.merge = "MERGE"
action_text ConsolidationAction.supersede = "SUPERSEDE"
action_text ConsolidationAction.reject = "REJECT"

abbrev id_or_null : Platform → Option ℕ → Value
id_or_null p none = null
id_or_null p (some id) = str (p.uuid_str id)

unfoldable pub dump_decision : Platform → EtecDecision → Value
dump_decision p d = obj (
    fields (
      ("action", str (action_text d.action))
      ∷ ("source_memory_id", str (p.uuid_str d.source_memory_id))
      ∷ ("target_memory_id", id_or_null p d.target_memory_id)
      ∷ ("score", float d.score)
      ∷ ("features", dump_features d.features)
      ∷ ("thresholds", dump_thresholds d.thresholds)
      ∷ ("rule_hits", arr (items (map str d.rule_hits)))
      ∷ ("reason", str d.reason)
      ∷ ("conflict_target_memory_id", id_or_null p d.conflict_target_memory_id)
      ∷ []))

unfoldable pub metadata_with_decision : Platform → MemoryRecord → EtecDecision → Metadata
metadata_with_decision p memory decision = put memory.metadata "etec" (
    obj (
      fields (
        ("policy_name", str "etec-rule-weighted.v2")
        ∷ ("decision", dump_decision p decision)
        ∷ [])))

-- `left <= right` of sets
abbrev pub is_subset : List String → List String → Bool
is_subset left right = all_fields (λ token. contains token right) left

-- `sorted({left, right})`
unfoldable pub sorted_pair : String → String → List String
sorted_pair left right =
    if left == right
    then left ∷ []
    else if tuple_lt (right ∷ []) (left ∷ [])
    then right ∷ left ∷ []
    else left ∷ right ∷ []

module _ (self : EtecConsolidator) where
  unfoldable pub compose_merge_content_for_slot : String → String → Bool → String
  compose_merge_content_for_slot target_content source_content prefer_newer =
      let target_tokens = self.word_tokens target_content in
      let source_tokens = self.word_tokens source_content in
      if is_subset source_tokens target_tokens
      then target_content
      else if is_subset target_tokens source_tokens
      then source_content
      else if prefer_newer
      then source_content +++ (" " +++ target_content)
      else target_content +++ (" " +++ source_content)

  unfoldable pub compose_merge_content : String → String → String
  compose_merge_content target_content source_content =
      let target_tokens = self.word_tokens target_content in
      let source_tokens = self.word_tokens source_content in
      if is_subset source_tokens target_tokens
      then target_content
      else if is_subset target_tokens source_tokens
      then source_content
      else target_content +++ (" " +++ source_content)

  abbrev pub validated : MemoryRecord → Result MemoryRecord
  validated copy = model_validate self.platform.casefold copy

  unfoldable pub merged_ids : MemoryRecord → MemoryRecord → List ℕ
  merged_ids target source =
      select (λ id. not (id == target.memory_id))
        (unique_uuids (target.derived_from ++ source.derived_from ++ (source.memory_id ∷ [])))

  abbrev pub merged_content : MemoryRecord → MemoryRecord → String
  merged_content target source =
      if same_fact_slot self source target
      then compose_merge_content_for_slot target.content source.content
          (not (same_fact_value self source target))
      else compose_merge_content target.content source.content

  -- The update of `_merge_memory`.
  unfoldable pub merged_copy : MemoryRecord → MemoryRecord → EtecDecision → ℕ → MemoryRecord
  merged_copy target source decision now =
      let ids = merged_ids target source in
      record target {
        content = merged_content target source;
        evidence_refs = unique_evidence (target.evidence_refs ++ source.evidence_refs);
        entities = unique_entities self (target.entities ++ source.entities);
        relations = target.relations ++ source.relations;
        supersedes = unique_uuids (target.supersedes ++ source.supersedes);
        derived_from = ids;
        valid_from = earliest_time target.valid_from source.valid_from;
        valid_to = latest_time target.valid_to source.valid_to;
        confidence = max target.confidence source.confidence;
        metadata =
            put
              (put (metadata_with_decision self.platform target decision) "merged_source_memory_ids"
                (arr (items (map (λ id. str (self.platform.uuid_str id)) ids))))
              "merged_contents" (arr (items (map str (sorted_pair target.content source.content))));
        updated_at = now;
      }

  unfoldable pub merge_memory : MemoryRecord → MemoryRecord → EtecDecision → ℕ → Result MemoryRecord
  merge_memory target source decision now = validated (merged_copy target source decision now)

  unfoldable pub supersede_memory :
      MemoryRecord → MemoryRecord → EtecDecision → ℕ → Result MemoryRecord
  supersede_memory target superseder decision now = do
    cutoff ← supersession_cutoff superseder target
    validated (record target {
      status = superseded;
      valid_to = some cutoff;
      superseded_by = some superseder.memory_id;
      metadata = metadata_with_decision self.platform target decision;
      updated_at = now;
    })

  unfoldable pub add_supersedes : MemoryRecord → EtecDecision → List ℕ → ℕ → Result MemoryRecord
  add_supersedes target decision supersedes now = validated (record target {
    supersedes = unique_uuids supersedes;
    metadata = metadata_with_decision self.platform target decision;
    updated_at = now;
  })

  unfoldable pub store_superseded_memory :
      MemoryRecord → MemoryRecord → EtecDecision → List ℕ → ℕ → Result MemoryRecord
  store_superseded_memory source superseder decision supersedes now = do
    cutoff ← supersession_cutoff superseder source
    validated (record source {
      status = superseded;
      valid_to = some cutoff;
      supersedes = unique_uuids supersedes;
      superseded_by = some superseder.memory_id;
      metadata = metadata_with_decision self.platform source decision;
      updated_at = now;
    })

  abbrev pub conflict_entry : Option ℕ → Metadata → Metadata
  conflict_entry none metadata = metadata
  conflict_entry (some id) metadata =
      put metadata "conflicts_with" (arr (items (str (self.platform.uuid_str id) ∷ [])))

  unfoldable pub store_new_memory : MemoryRecord → EtecDecision → List ℕ → ℕ → Result MemoryRecord
  store_new_memory source decision supersedes now = validated (record source {
    status = active;
    supersedes = unique_uuids supersedes;
    superseded_by = none;
    metadata =
        conflict_entry decision.conflict_target_memory_id
          (metadata_with_decision self.platform source decision);
    updated_at = now;
  })
