-- ===== src/Etec/Select.antt =====
-- `decide`: the rejections of a source, and the choice among its scored candidates.
pub mod Best
use evoeventmem.Prelude.{
  ℕ, String, Bool, Option, none, some, List, [], ◌∷◌, ◌++◌, map, ltb, leb, select, contains,
  string_eq, if◌then◌else◌,
}
use evoeventmem.Float.{one}
use evoeventmem.Domain.Models.{MemoryRecord, is_active, is_some}
use evoeventmem.Etec.Types.{
  EtecConsolidator, EtecDecision, ConsolidationAction, is_supersede, is_merge,
}
use evoeventmem.Etec.Features.{standalone_features}
use evoeventmem.Etec.Score.{score_pair}

-- `max(items, key=...)` of a list that starts with `best`: the first item that no other one exceeds.
unfoldable pub max_from {ℓ} : {A : Type ℓ} → (A → A → Bool) → A → List A → A
max_from less best [] = best
max_from less best (item ∷ items) = max_from less (if less best item then item else best) items

abbrev pub less_contradiction : EtecDecision → EtecDecision → Bool
less_contradiction a b = ltb a.features.contradiction_score b.features.contradiction_score

abbrev pub less_score : EtecDecision → EtecDecision → Bool
less_score a b = ltb a.score b.score

abbrev pub has_conflict : EtecDecision → Bool
has_conflict decision = is_some decision.conflict_target_memory_id

abbrev pub supersedes_target : EtecDecision → Bool
supersedes_target decision = is_supersede decision.action

abbrev pub merges : EtecDecision → Bool
merges decision = is_merge decision.action

-- The copy of the best candidate that no rule took.
unfoldable pub as_add : EtecDecision → EtecDecision
as_add best = record best {
  action = ConsolidationAction.add;
  rule_hits = best.rule_hits ++ ("no_merge_or_conflict_rule_hit" ∷ []);
  reason =
      if contains "disjoint_temporal_intervals" best.rule_hits
      then best.reason
      else "No candidate satisfied MERGE or SUPERSEDE thresholds.";
}

module _ (self : EtecConsolidator) where
  -- A decision about the source alone.
  abbrev standalone : MemoryRecord → ConsolidationAction → ℕ → List String → String → EtecDecision
  standalone source action score rule_hits reason = record {
    action = action;
    source_memory_id = source.memory_id;
    target_memory_id = none;
    score = score;
    features = standalone_features source;
    thresholds = self.thresholds;
    rule_hits = rule_hits;
    reason = reason;
    conflict_target_memory_id = none;
  }

  unfoldable pub reject_inactive_source : MemoryRecord → Option EtecDecision
  reject_inactive_source source =
      if is_active source.status
      then none
      else some (
          standalone source ConsolidationAction.reject 0 ("inactive_source" ∷ [])
            "ETEC accepts only active source memories for consolidation.")

  unfoldable pub reject_source_id_collision : MemoryRecord → EtecDecision
  reject_source_id_collision source =
      standalone source ConsolidationAction.reject 0 ("source_memory_id_collision" ∷ [])
        "A durable memory with the source memory ID already exists."

  unfoldable pub reject_without_evidence : MemoryRecord → Option EtecDecision
  reject_without_evidence source =
      if leb self.thresholds.reject_evidence_min (standalone_features source).evidence_consistency
      then none
      else some (
          standalone source ConsolidationAction.reject 0 ("missing_source_evidence" ∷ [])
            "ETEC rejects memories that are not constrained by source evidence.")

  unfoldable pub add_without_candidates : MemoryRecord → EtecDecision
  add_without_candidates source =
      standalone source ConsolidationAction.add (standalone_features source).evidence_consistency
        ("no_active_candidate" ∷ []) "No active candidate was available for consolidation."

  unfoldable pub score_candidates : MemoryRecord → List MemoryRecord → List EtecDecision
  score_candidates source candidates = map (score_pair self source) candidates

  -- The last part of `_select_decision`, where there is neither a conflict nor a rule that was hit.
  unfoldable pub select_add : MemoryRecord → List EtecDecision → EtecDecision
  select_add source [] = add_without_candidates source
  select_add source (d ∷ ds) = as_add (max_from less_score d ds)

  abbrev select_merge : List EtecDecision → MemoryRecord → List EtecDecision → EtecDecision
  select_merge [] source scored = select_add source scored
  select_merge (d ∷ ds) source scored = max_from less_score d ds

  abbrev select_supersede : List EtecDecision → MemoryRecord → List EtecDecision → EtecDecision
  select_supersede [] source scored = select_merge (select merges scored) source scored
  select_supersede (d ∷ ds) source scored = max_from less_contradiction d ds

  abbrev pub select_conflict : List EtecDecision → MemoryRecord → List EtecDecision → EtecDecision
  select_conflict [] source scored =
      select_supersede (select supersedes_target scored) source scored
  select_conflict (d ∷ ds) source scored = max_from less_contradiction d ds

  unfoldable pub select_decision : MemoryRecord → List EtecDecision → EtecDecision
  select_decision source scored = select_conflict (select has_conflict scored) source scored

  unfoldable pub decide : MemoryRecord → List MemoryRecord → EtecDecision
  decide source candidates = elim (reject_inactive_source source) [
    | some rejection ↦ rejection
    | none ↦ elim (reject_without_evidence source) [
      | some rejection ↦ rejection
      | none ↦ select_decision source (score_candidates source candidates)
    ]
  ]
