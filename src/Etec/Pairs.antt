-- ===== src/Etec/Pairs.antt =====
-- The pairs of `_apply_supersede`, and the copies of decisions that the consolidation makes.
use evoeventmem.Prelude.{
  ℕ, Bool, true, false, Option, none, some, List, [], ◌∷◌, ◌++◌, nat_eq, string_eq, ltb,
  if◌then◌else◌,
}
use evoeventmem.Result.{Result, ok, ◌>>=◌}
use evoeventmem.Domain.Models.{MemoryRecord}
use evoeventmem.Etec.Types.{EtecDecision, ConsolidationAction, is_supersede, is_merge}
use evoeventmem.Etec.Math.{as_set}
use evoeventmem.Etec.Times.{require_fact_effective_time}
use evoeventmem.Etec.Targets.{by_id}

-- A decision to supersede, with the record of its target.
pub record PairDecision : Type 0 where
  pub decision : EtecDecision
  pub target : MemoryRecord

unfoldable pub merged_source_history_relink_decision : EtecDecision → EtecDecision
merged_source_history_relink_decision decision = record decision {
  action = ConsolidationAction.supersede;
  rule_hits = as_set (decision.rule_hits ++ ("merged_source_history_relink" ∷ []));
  reason = "The merged target inherits the source's verified historical supersession link.";
}

unfoldable pub cleanup_supersede_decision : EtecDecision → EtecDecision
cleanup_supersede_decision decision =
    if is_merge decision.action
    then record decision {
      action = ConsolidationAction.supersede;
      rule_hits = decision.rule_hits ++ ("duplicate_current_fact_cleanup" ∷ []);
      reason = "Current-fact cleanup supersedes the intermediate target with the selected winner.";
    }
    else decision

unfoldable pub ambiguous_current_winners_decision :
    MemoryRecord → EtecDecision → EtecDecision → EtecDecision
ambiguous_current_winners_decision source winner_decision actual_pair_decision =
    record winner_decision {
      action = ConsolidationAction.reject;
      source_memory_id = source.memory_id;
      rule_hits = as_set (
          winner_decision.rule_hits
          ++ actual_pair_decision.rule_hits
          ++ ("ambiguous_current_fact_winners" ∷ []));
      reason =
          "Current facts are ambiguous because contradictory winners share an equal effective time; the incoming source is rejected without mutation.";
    }

-- `pair.target_memory_id in targets_by_id`, and the record there.
abbrev pub target_record : List MemoryRecord → Option ℕ → Option MemoryRecord
target_record targets none = none
target_record targets (some id) = by_id targets id

-- The tests on a pair: it supersedes, and its target is there.
abbrev pub add_pair :
    Bool → Option MemoryRecord → EtecDecision → List PairDecision → List PairDecision
add_pair true (some target) pair rest = record { decision = pair; target = target } ∷ rest
add_pair true none pair rest = rest
add_pair false target pair rest = rest

unfoldable pub pair_decisions : List MemoryRecord → List EtecDecision → List PairDecision
pair_decisions targets [] = []
pair_decisions targets (pair ∷ scored) =
    add_pair (is_supersede pair.action) (target_record targets pair.target_memory_id) pair
      (pair_decisions targets scored)

-- The pairs whose target is later than the source, with the times of the targets.
unfoldable pub stale_pairs : ℕ → List PairDecision → Result (List (ℕ × PairDecision))
stale_pairs source_time [] = ok []
stale_pairs source_time (pair ∷ pairs) = do
  time ← require_fact_effective_time pair.target
  rest ← stale_pairs source_time pairs
  ok (if ltb source_time time then (time, pair) ∷ rest else rest)
