-- ===== src/Etec/Apply.antt =====
-- `ETECConsolidator.apply`. A consolidation first computes its result, and then adds the records of
-- `updated_memories` in their order. Where the source is newer, the code adds the superseded records
-- before it computes the source's own; what that raises discards them with the transaction.
pub mod Results
pub mod Scoped
pub mod Effect
use evoeventmem.Prelude.{
  ℕ, String, Bool, Option, none, some, List, [], ◌∷◌, ◌++◌, ◌&&◌, if◌then◌else◌,
}
use evoeventmem.Result.{Result, ok, ◌>>=◌}
use evoeventmem.Domain.Models.{MemoryRecord}
use evoeventmem.Repository.Port.{Repository, transaction}
use evoeventmem.Etec.Types.{
  EtecConsolidator, EtecDecision, EtecApplyResult, ConsolidationAction, is_supersede, is_temporal,
}
use evoeventmem.Etec.Copy.{merge_memory, store_new_memory}
use evoeventmem.Etec.Select.{
  reject_inactive_source, reject_source_id_collision, reject_without_evidence, score_candidates,
  select_decision,
}
use evoeventmem.Etec.Targets.{
  sanitize_source_supersedes, existing_records, eligible_candidates, bounded_target_memories,
  require_target,
}
use evoeventmem.Etec.Supersede.{plan_supersede, relink_merged_source_histories}

abbrev pub unchanged : EtecDecision → EtecApplyResult
unchanged decision = record { decision = decision; stored_memory = none; updated_memories = [] }

-- The copy of a decision to supersede, for a temporal query.
unfoldable pub downgraded : EtecDecision → EtecDecision
downgraded decision = record decision {
  action = ConsolidationAction.merge;
  rule_hits = decision.rule_hits ++ ("temporal_intent_supersede_downgraded_to_merge" ∷ []);
  reason =
      "SUPERSEDE was downgraded to MERGE because the query intent is TEMPORAL; old values are preserved for sorting.";
}

module _ (self : EtecConsolidator) where
  unfoldable pub for_intent : EtecDecision → EtecDecision
  for_intent decision =
      if is_supersede decision.action && is_temporal self.routing_intent
      then downgraded decision
      else decision

module _ (r : Repository) where
  -- `transaction.add(memory)` for each of the memories
  unfoldable pub add_all : r.State → List MemoryRecord → Result r.State
  add_all s [] = ok s
  add_all s (memory ∷ memories) = do (s', stored) ← r.add s memory; add_all s' memories

-- Return a rejection early, or go on.
abbrev pub unless_rejected : Option EtecDecision → Result EtecApplyResult → Result EtecApplyResult
unless_rejected (some rejection) rest = ok (unchanged rejection)
unless_rejected none rest = rest

abbrev pub unless_found :
    Option MemoryRecord → EtecDecision → Result EtecApplyResult → Result EtecApplyResult
unless_found (some existing) rejection rest = ok (unchanged rejection)
unless_found none rejection rest = rest

module _ (self : EtecConsolidator) (r : Repository) where
  unfoldable pub plan_merge :
      r.State → MemoryRecord → EtecDecision → List MemoryRecord → ℕ → Result EtecApplyResult
  plan_merge s source decision bounded now = do
    target ← require_target decision bounded
    merged ← merge_memory self target source decision now
    histories ← relink_merged_source_histories self r s merged source now
    ok (record {
      decision = decision;
      stored_memory = some merged;
      updated_memories = histories ++ (merged ∷ []);
    })

  unfoldable pub plan_add : MemoryRecord → EtecDecision → ℕ → Result EtecApplyResult
  plan_add source decision now = do
    stored ← store_new_memory self source decision source.supersedes now
    ok (record { decision = decision; stored_memory = some stored; updated_memories = stored ∷ [] })

  -- The branches on the action of the decision.
  abbrev pub plan_action :
      ConsolidationAction
      → r.State
      → MemoryRecord
      → EtecDecision
      → List EtecDecision
      → List MemoryRecord
      → ℕ
      → Result EtecApplyResult
  plan_action ConsolidationAction.reject s source decision scored bounded now =
      ok (unchanged decision)
  plan_action ConsolidationAction.merge s source decision scored bounded now =
      plan_merge s source decision bounded now
  plan_action ConsolidationAction.supersede s source decision scored bounded now =
      plan_supersede self source decision scored bounded now
  plan_action ConsolidationAction.add s source decision scored bounded now =
      plan_add source decision now

  unfoldable pub plan_decision :
      r.State
      → MemoryRecord
      → EtecDecision
      → List EtecDecision
      → List MemoryRecord
      → ℕ
      → Result EtecApplyResult
  plan_decision s source decision scored bounded now =
      plan_action decision.action s source decision scored bounded now

  unfoldable pub plan_fresh :
      r.State → MemoryRecord → Option (List MemoryRecord) → ℕ → Result EtecApplyResult
  plan_fresh s source candidates now = do
    existing ← existing_records r s source candidates
    let eligible = eligible_candidates source existing
    generated ← self.generate source eligible
    let bounded = bounded_target_memories generated eligible
    let scored = score_candidates self source bounded
    let decision = for_intent self (select_decision self source scored)
    unless_rejected (reject_without_evidence self source)
        (plan_decision s source decision scored bounded now)

  unfoldable pub plan :
      r.State → MemoryRecord → Option (List MemoryRecord) → ℕ → Result EtecApplyResult
  plan s given candidates now = do
    source ← sanitize_source_supersedes r self s given
    unless_rejected (reject_inactive_source self source) (do
      found ← r.get s source.memory_id
      unless_found found (reject_source_id_collision self source)
          (plan_fresh s source candidates now))

  unfoldable pub apply_in :
      MemoryRecord → Option (List MemoryRecord) → ℕ → r.State → Result (r.State × EtecApplyResult)
  apply_in source candidates now s = do
    result ← plan s source candidates now
    s' ← add_all r s result.updated_memories
    ok (s', result)

  unfoldable pub apply :
      r.State → MemoryRecord → Option (List MemoryRecord) → ℕ → Result (r.State × EtecApplyResult)
  apply s source candidates now = transaction r (apply_in source candidates now) s
