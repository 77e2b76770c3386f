-- ===== src/Etec/Score.antt =====
-- `_weighted_score` and `_score_pair`.
pub mod Laws
pub mod Disjoint
use evoeventmem.Prelude.{
  ℕ, String, Bool, Option, none, some, List, [], ◌∷◌, ◌++◌, not, ◌&&◌, ltb, leb, ◌==◌, nat_eq,
  if◌then◌else◌,
}
use evoeventmem.Float
use evoeventmem.Float.{decimal, at_most_one}
use evoeventmem.Domain.Models.{MemoryRecord}
use evoeventmem.Etec.Types.{
  EtecConsolidator, EtecFeatureVector, EtecThresholds, EtecDecision, ConsolidationAction,
}
use evoeventmem.Etec.Keys.{same_fact_slot, same_fact_value, distinct_fact_value}
use evoeventmem.Etec.Times.{fact_effective_time, merge_temporally_compatible}
use evoeventmem.Etec.Features.{features}

-- `min(1.0, max(0.0, score))` of the weighted sum
unfoldable pub weighted_score : EtecFeatureVector → ℕ
weighted_score f =
    let semantic = Float.mul f.semantic_similarity (decimal 35 100) in
    let entity = Float.mul f.entity_role_overlap (decimal 2 10) in
    let temporal = Float.mul f.temporal_overlap (decimal 15 100) in
    let structural = Float.mul f.structural_similarity (decimal 15 100) in
    let evidence = Float.mul f.evidence_consistency (decimal 15 100) in
    at_most_one (
      Float.monus
        (Float.add (Float.add (Float.add (Float.add semantic entity) temporal) structural) evidence)
        (Float.mul f.contradiction_score (decimal 35 100)))

-- What the branches of `_score_pair` set.
pub record Verdict : Type 0 where
  pub action : ConsolidationAction
  pub rule_hits : List String
  pub reason : String
  pub conflict_target : Option ℕ

abbrev pub verdict : ConsolidationAction → List String → String → Verdict
verdict action rule_hits reason = record {
  action = action;
  rule_hits = rule_hits;
  reason = reason;
  conflict_target = none;
}

abbrev kept_both : ℕ → List String → String → Verdict
kept_both target_id rule_hits reason = record (verdict ConsolidationAction.add rule_hits reason) {
  conflict_target = some target_id;
}

-- The branch of two facts that contradict each other: their effective times decide.
unfoldable pub order_conflict : ℕ → Option ℕ → Option ℕ → Verdict
order_conflict target_id (some source_time) (some target_time) =
    if source_time == target_time
    then kept_both target_id ("equal_fact_effective_time" ∷ "temporal_conflict_kept_both" ∷ [])
        "Contradictory single-valued facts have equal effective times, so neither can supersede the other; both sides are retained with an explicit conflict marker instead of silently dropping the incoming fact."
    else if ltb target_time source_time
    then verdict ConsolidationAction.supersede
        ("temporal_contradiction" ∷ "newer_source_supersedes_older_target" ∷ [])
        "The incoming fact is strictly newer and supersedes the target."
    else verdict ConsolidationAction.supersede
        ("temporal_contradiction" ∷ "stale_source_superseded_by_newer_target" ∷ [])
        "The incoming fact is stale and is superseded by the newer target."
order_conflict target_id _ _ =
    kept_both target_id ("missing_fact_effective_time" ∷ "temporal_conflict_kept_both" ∷ [])
      "A contradictory single-valued fact is missing an effective time, so temporal ordering is unsafe; both sides are retained with an explicit conflict marker instead of silently dropping the incoming fact."

module _ (self : EtecConsolidator) where
  -- The branch of a pair that meets the thresholds of a merge.
  unfoldable pub merge_verdict : MemoryRecord → MemoryRecord → Verdict
  merge_verdict source target =
      if distinct_fact_value self source target
      then verdict ConsolidationAction.add ("distinct_fact_value" ∷ [])
          "Both memories declare fact metadata with distinct values, so they are added as separate facts."
      else if merge_temporally_compatible source target
      then verdict ConsolidationAction.merge ("duplicate_fact" ∷ [])
          "Candidate is semantically and structurally consistent with the incoming memory."
      else verdict ConsolidationAction.add ("disjoint_temporal_intervals" ∷ [])
          "Known temporal intervals are disjoint, so the facts remain separate."

  abbrev pub contradicts : EtecFeatureVector → Bool
  contradicts f =
      leb self.thresholds.supersede_contradiction_min f.contradiction_score && not f.multi_valued

  abbrev pub mergeable : EtecFeatureVector → Bool
  mergeable f =
      leb self.thresholds.merge_semantic_min f.semantic_similarity
      && leb self.thresholds.merge_entity_role_min f.entity_role_overlap
      && leb self.thresholds.merge_score_min (weighted_score f)

  -- The chain of conditions of `_score_pair`.
  unfoldable pub judge : MemoryRecord → MemoryRecord → EtecFeatureVector → Verdict
  judge source target f =
      if ltb f.evidence_consistency self.thresholds.reject_evidence_min
      then verdict ConsolidationAction.reject ("missing_source_evidence" ∷ [])
          "Candidate pair is not constrained by source evidence."
      else if contradicts f
      then order_conflict target.memory_id (fact_effective_time source) (fact_effective_time target)
      else if f.multi_valued
          && same_fact_slot self source target
          && not (same_fact_value self source target)
      then verdict ConsolidationAction.add ("explicit_multi_valued_slot" ∷ [])
          "Same temporal slot is explicitly multi-valued, so the memory is added."
      else if mergeable f
      then merge_verdict source target
      else verdict ConsolidationAction.add [] "Candidate did not meet a consolidation threshold."

  unfoldable pub score_pair : MemoryRecord → MemoryRecord → EtecDecision
  score_pair source target =
      let f = features self source target in
      let v = judge source target f in
      record {
        action = v.action;
        source_memory_id = source.memory_id;
        target_memory_id = some target.memory_id;
        score = weighted_score f;
        features = f;
        thresholds = self.thresholds;
        rule_hits =
            v.rule_hits
            ++ (if same_fact_value self source target then "same_fact_value" ∷ [] else []);
        reason = v.reason;
        conflict_target_memory_id = v.conflict_target;
      }
