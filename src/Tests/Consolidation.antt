-- ===== src/Tests/Consolidation.antt =====
-- The theorems on the consolidation of memories at concrete inputs.
use evoeventmem.Prelude.{
  ◌≡◌, refl, none, some, true, false, [], ◌∷◌, nat_eq, select, find, contains, any, All, ◌≤◌, ◌↔◌,
  ◌≢◌, ℕ,
}
use evoeventmem.Prelude.Dict
use evoeventmem.Float
use evoeventmem.Float.{decimal, one}
use evoeventmem.Result.{ok, raise_first}
use evoeventmem.Domain.Text.{split, join, casefold, normalize_memory_content}
use evoeventmem.Domain.Value.{str, as_str}
use evoeventmem.Domain.Models.{
  MemoryRecord, superseded, model_validate, memory_fields, validate_contract, contract_checks,
  linked_ids, all_fields,
}
use evoeventmem.Repository.Port.{transaction}
use evoeventmem.Repository.InMemory.{
  Store, repository, laws, add, get, update, list_for_user, begin, commit,
}
use evoeventmem.Etec.Types
use evoeventmem.Etec.Types.{
  ConsolidationAction, EtecConsolidator, EtecDecision, EtecApplyResult, default_thresholds,
}
use evoeventmem.Etec.Math
use evoeventmem.Etec.Keys
use evoeventmem.Etec.Times
use evoeventmem.Etec.Features
use evoeventmem.Etec.Score
use evoeventmem.Etec.Score.{score_pair}
use evoeventmem.Etec.Features.{features}
use evoeventmem.Etec.Times.{fact_effective_time}
use evoeventmem.Etec.Score.Laws.{Conflicting, Ordered, score_pair_supersedes, score_pair_conflicts}
use evoeventmem.Etec.Select
use evoeventmem.Etec.Select.{has_conflict, select_decision}
use evoeventmem.Etec.Select.Best.{IsConflict, select_decision-IsConflict}
use evoeventmem.Etec.Copy
use evoeventmem.Etec.Copy.{metadata_with_decision, supersede_memory, merged_copy, merge_memory}
use evoeventmem.Etec.Copy.Merged.{Merged, merge_memory-Merged}
use evoeventmem.Etec.Score.Disjoint.{score_pair_disjoint}
use evoeventmem.Etec.Copy.Links.{Superseded, supersede_memory-Superseded}
use evoeventmem.Etec.Targets
use evoeventmem.Etec.Targets.{is_eligible, bounded_target_memories, eligible_candidates}
use evoeventmem.Etec.Targets.Bounded.{All-bounded_target_memories}
use evoeventmem.Etec.Pairs
use evoeventmem.Etec.Supersede
use evoeventmem.Etec.Apply
use evoeventmem.Etec.Apply.{apply}
use evoeventmem.Etec.Apply.Effect.{get-apply}
use evoeventmem.Tests.Samples.{platform, tea, coffee}

abbrev consolidator : EtecConsolidator
consolidator = record {
  thresholds = default_thresholds;
  routing_intent = none;
  platform = platform;
  nfkc = λ text. text;
  key_tokens = split;
  word_tokens = split;
  cosine = λ left right. 0;
  generate = λ source existing. ok (existing, []);
}

-- Two values of one fact slot, the second one later.
abbrev old_drink : MemoryRecord
old_drink = record tea {
  valid_from = some 100;
  metadata = ("fact_slot", str "drink") ∷ ("fact_value", str "tea") ∷ [];
}

abbrev new_drink : MemoryRecord
new_drink = record coffee {
  valid_from = some 200;
  metadata = ("fact_slot", str "drink") ∷ ("fact_value", str "coffee") ∷ [];
}

abbrev before : Store
before = record { items = (1, old_drink) ∷ []; transaction_active = false }

abbrev decision : EtecDecision
decision = score_pair consolidator new_drink old_drink

-- The later value is stored, and the earlier one ends where it starts.
abbrev old_stored : MemoryRecord
old_stored = record old_drink {
  status = superseded;
  valid_to = some 200;
  superseded_by = some 2;
  metadata = metadata_with_decision platform old_drink decision;
  updated_at = 300;
}

abbrev new_stored : MemoryRecord
new_stored = record new_drink {
  supersedes = 1 ∷ [];
  metadata = metadata_with_decision platform new_drink decision;
  updated_at = 300;
}

abbrev after : Store
after = record { items = (1, old_stored) ∷ (2, new_stored) ∷ []; transaction_active = false }

abbrev result : EtecApplyResult
result = record {
  decision = decision;
  stored_memory = some new_stored;
  updated_memories = old_stored ∷ new_stored ∷ [];
}

program : Unit {0}
unfolding add get update list_for_user begin commit transaction Dict.get Dict.put Dict.values select
    find contains any raise_first split join casefold normalize_memory_content as_str model_validate
    memory_fields validate_contract contract_checks linked_ids all_fields Float.bit_length
    Float.round_div Float.round Float.one Float.decimal Float.add Float.monus Float.mul Float.div
    Math.unique_from Math.unique_uuids Math.unique_evidence Math.count_both Math.count_either
    Math.jaccard Types.default_thresholds Keys.memory_is_multi_valued Keys.is_multi_valued
    Keys.normalized_linking_key Keys.declared_key Keys.fact_slot_key Keys.same_fact_slot
    Keys.explicit_fact_value Keys.fact_value_key Keys.same_fact_value Keys.distinct_fact_value
    Keys.entity_key Keys.role_key Keys.keys_of_entities Keys.keys_of_roles Keys.entity_role_keys
    Keys.unique_entities Times.fact_effective_time Times.require_fact_effective_time Times.interval
    Times.intervals_overlap Times.overlapping Times.merge_temporally_compatible Times.earliest_time
    Times.latest_time Times.supersession_cutoff Features.evidence_consistency
    Features.temporal_overlap_score Features.semantic Features.entity_role
    Features.structural_similarity Features.contradiction_score Features.features
    Features.standalone_features Score.weighted_score Score.order_conflict Score.merge_verdict
    Score.judge Score.score_pair Select.max_from Select.as_add Select.reject_inactive_source
    Select.reject_source_id_collision Select.reject_without_evidence Select.add_without_candidates
    Select.score_candidates Select.select_add Select.select_decision Select.decide
    Copy.dump_features Copy.dump_thresholds Copy.action_text Copy.dump_decision
    Copy.metadata_with_decision Copy.sorted_pair Copy.compose_merge_content_for_slot
    Copy.compose_merge_content Copy.merged_ids Copy.merged_copy Copy.merge_memory
    Copy.supersede_memory Copy.add_supersedes Copy.store_superseded_memory Copy.store_new_memory
    Targets.is_verified Targets.verified_ids Targets.sanitize_source_supersedes Targets.resolve_ids
    Targets.resolve_explicit_candidates Targets.existing_records Targets.is_eligible
    Targets.eligible_candidates Targets.by_id Targets.bounded_from Targets.bounded_target_memories
    Targets.require_target Pairs.merged_source_history_relink_decision
    Pairs.cleanup_supersede_decision Pairs.ambiguous_current_winners_decision Pairs.pair_decisions
    Pairs.stale_pairs Supersede.winner_less Supersede.supersede_by_source
    Supersede.supersede_by_winner Supersede.compare_with_winner Supersede.sweep_pair Supersede.sweep
    Supersede.store_stale Supersede.stale_source Supersede.supersede_all Supersede.newer_source
    Supersede.plan_supersede Supersede.relink Supersede.relink_merged_source_histories
    Apply.downgraded Apply.for_intent Apply.add_all Apply.plan_merge Apply.plan_add
    Apply.plan_decision Apply.plan_fresh Apply.plan Apply.apply_in Apply.apply
program = tt

run : apply consolidator repository before new_drink none 300 ≡ ok (after, result)
unfolding program
run = refl

get-apply_example : Dict.get (laws.contents after) 7 ≡ Dict.get (laws.contents before) 7
get-apply_example =
    get-apply consolidator repository laws before after new_drink none 300 result 7 run
      (λ e. cc, (λ e. cc, tt))

score_pair_supersedes_example : (decision.action ≡ ConsolidationAction.supersede) ↔ (
    Conflicting consolidator (features consolidator new_drink old_drink)
    × Ordered (fact_effective_time new_drink) (fact_effective_time old_drink))
score_pair_supersedes_example = score_pair_supersedes consolidator new_drink old_drink

-- Another value from the same time on.
abbrev same_time : MemoryRecord
same_time = record new_drink { valid_from = some 100 }

abbrev conflict : EtecDecision
conflict = score_pair consolidator same_time old_drink

abbrev the_id : ℕ
the_id = 1

score_pair_conflicts_example : (conflict.conflict_target_memory_id ≡ some the_id) ↔ (
    Conflicting consolidator (features consolidator same_time old_drink)
    × (Ordered (fact_effective_time same_time) (fact_effective_time old_drink) → ⊥)
    × (the_id ≡ 1))
score_pair_conflicts_example = score_pair_conflicts consolidator same_time old_drink the_id

marks : any has_conflict (conflict ∷ []) ≡ true
unfolding program
marks = refl

select_decision-IsConflict_example :
    IsConflict (conflict ∷ []) (select_decision consolidator same_time (conflict ∷ []))
    × All
        (λ d.
          has_conflict d ≡ true
          → d.features.contradiction_score
            ≤ (select_decision consolidator same_time (conflict ∷ [])).features.contradiction_score)
        (conflict ∷ [])
select_decision-IsConflict_example =
    select_decision-IsConflict consolidator same_time (conflict ∷ []) marks

ends : supersede_memory consolidator old_drink new_drink decision 300 ≡ ok old_stored
unfolding program
ends = refl

supersede_memory-Superseded_example : Superseded consolidator old_drink new_drink old_stored
supersede_memory-Superseded_example =
    supersede_memory-Superseded consolidator old_drink new_drink old_stored decision 300 ends

-- The same preference again, to be merged.
abbrev merged : MemoryRecord
merged = record (merged_copy consolidator tea coffee decision 300) {
  normalized_content = some "likes tea likes coffee";
}

joins : merge_memory consolidator tea coffee decision 300 ≡ ok merged
unfolding program
joins = refl

merge_memory-Merged_example : Merged consolidator tea coffee merged
merge_memory-Merged_example = merge_memory-Merged consolidator tea coffee merged decision 300 joins

-- The tea ends before the coffee starts.
abbrev ended : MemoryRecord
ended = record old_drink { valid_to = some 150 }

score_pair_disjoint_example :
    (score_pair consolidator new_drink ended).action ≢ ConsolidationAction.supersede
unfolding program
score_pair_disjoint_example = score_pair_disjoint consolidator new_drink ended refl refl

-- A generator that returns the source itself.
All-bounded_target_memories_example :
    All
      (λ m. is_eligible new_drink m ≡ true)
      (bounded_target_memories
        (old_drink ∷ [], new_drink ∷ [])
        (eligible_candidates new_drink (old_drink ∷ new_drink ∷ [])))
All-bounded_target_memories_example =
    All-bounded_target_memories new_drink (old_drink ∷ new_drink ∷ [])
      (old_drink ∷ [], new_drink ∷ [])
