-- ===== src/Etec/Types.antt =====
-- The models of src/evoeventmem/consolidation.py and the state of `ETECConsolidator`. Scores and
-- thresholds are doubles between 0.0 and 1.0, as numbers of units of 2 ^ -1074.
use evoeventmem.Prelude.{ℕ, String, Bool, true, false, Option, some, List}
use evoeventmem.Float.{decimal}
use evoeventmem.Result.{Result}
use evoeventmem.Domain.Models.{MemoryRecord}
use evoeventmem.Platform.{Platform}

pub data ConsolidationAction : Type 0 where
  add merge supersede reject : ConsolidationAction

-- `QueryIntent` of src/evoeventmem/router.py
pub data QueryIntent : Type 0 where
  no_memory semantic temporal graph episodic procedural hybrid : QueryIntent

pub record EtecFeatureVector : Type 0 where
  pub semantic_similarity : ℕ
  pub entity_role_overlap : ℕ
  pub temporal_overlap : ℕ
  pub structural_similarity : ℕ
  pub evidence_consistency : ℕ
  pub contradiction_score : ℕ
  pub multi_valued : Bool

pub record EtecThresholds : Type 0 where
  pub merge_semantic_min : ℕ
  pub merge_entity_role_min : ℕ
  pub merge_score_min : ℕ
  pub supersede_contradiction_min : ℕ
  pub reject_evidence_min : ℕ

unfoldable pub default_thresholds : EtecThresholds
default_thresholds = record {
  merge_semantic_min = decimal 82 100;
  merge_entity_role_min = decimal 35 100;
  merge_score_min = decimal 68 100;
  supersede_contradiction_min = decimal 7 10;
  reject_evidence_min = decimal 1 10;
}

pub record EtecDecision : Type 0 where
  pub action : ConsolidationAction
  pub source_memory_id : ℕ
  pub target_memory_id : Option ℕ
  pub score : ℕ
  pub features : EtecFeatureVector
  pub thresholds : EtecThresholds
  pub rule_hits : List String
  pub reason : String
  pub conflict_target_memory_id : Option ℕ

pub record EtecApplyResult : Type 0 where
  pub decision : EtecDecision
  pub stored_memory : Option MemoryRecord
  pub updated_memories : List MemoryRecord

-- `ETECConsolidator`, with what it calls and does not implement: the Unicode normalisation and the two
-- regular expressions, the quotient of `_semantic_similarity` for two contents (0.0 where it is
-- negative or a vector is zero), and the candidate generator that `__init__` takes, which returns the
-- targets of its entity candidates and those of its event candidates, or raises.
pub record EtecConsolidator : Type 0 where
  pub thresholds : EtecThresholds
  pub routing_intent : Option QueryIntent
  pub platform : Platform
  pub nfkc : String → String
  pub key_tokens : String → List String
  pub word_tokens : String → List String
  pub cosine : String → String → ℕ
  pub generate : MemoryRecord → List MemoryRecord → Result (List MemoryRecord × List MemoryRecord)

-- `decision.action is ConsolidationAction.X`
abbrev pub is_supersede : ConsolidationAction → Bool
is_supersede ConsolidationAction.supersede = true
is_supersede _ = false

abbrev pub is_merge : ConsolidationAction → Bool
is_merge ConsolidationAction.merge = true
is_merge _ = false

abbrev pub is_reject : ConsolidationAction → Bool
is_reject ConsolidationAction.reject = true
is_reject _ = false

abbrev pub is_temporal : Option QueryIntent → Bool
is_temporal (some QueryIntent.temporal) = true
is_temporal _ = false
