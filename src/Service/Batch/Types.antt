-- ===== src/Service/Batch/Types.antt =====
-- The requests, decisions and results of src/evoeventmem/services/memory_service.py. The snapshot of
-- a candidate is the candidate.
use evoeventmem.Prelude.{ℕ, suc, String, Option, none, some, List, [], ◌∷◌, string_eq}
use evoeventmem.Prelude.Dict.{Dict, get, put}
use evoeventmem.Domain.Value.{Metadata}
use evoeventmem.Domain.Models.{MemoryRecord, EvidenceRef}

pub data DecisionStatus : Type 0 where
  accepted duplicate rejected : DecisionStatus

pub data FailureCategory : Type 0 where
  invalid_candidate missing_evidence memory_id_collision : FailureCategory
  request_validation_failed storage_failed : FailureCategory

pub record RawObservation : Type 0 where
  pub source_type : String
  pub source_id : String
  pub locator : Option String
  pub metadata : Metadata

pub record Candidate : Type 0 where
  pub candidate_id : String
  pub memory : MemoryRecord
  pub extractor_version : String
  pub raw_observations : List RawObservation
  pub raw_output : Option String
  pub metadata : Metadata

pub record WriteRequest : Type 0 where
  pub request_id : String
  pub candidates : List Candidate
  pub raw_observations : List RawObservation
  pub metadata : Metadata

pub record Decision : Type 0 where
  pub request_id : String
  pub candidate_id : String
  pub status : DecisionStatus
  pub reason : String
  pub idempotency_key : Option String
  pub memory_id : Option ℕ
  pub failure_category : Option FailureCategory
  pub evidence_refs : List EvidenceRef
  pub raw_observations : List RawObservation
  pub candidate_snapshot : Candidate

pub record Metrics : Type 0 where
  pub requested_candidates : ℕ
  pub accepted : ℕ
  pub duplicates : ℕ
  pub rejected : ℕ
  pub failure_categories : Dict String ℕ

pub record WriteResult : Type 0 where
  pub request_id : String
  pub accepted_memories : List MemoryRecord
  pub decisions : List Decision
  pub metrics : Metrics

-- `_PreparedWrite`
pub record Prepared : Type 0 where
  pub candidate : Candidate
  pub memory : MemoryRecord
  pub idempotency_key : String
  pub raw_observations : List RawObservation

abbrev pub category_value : FailureCategory → String
category_value invalid_candidate = "invalid_candidate"
category_value missing_evidence = "missing_evidence"
category_value memory_id_collision = "memory_id_collision"
category_value request_validation_failed = "request_validation_failed"
category_value storage_failed = "storage_failed"

abbrev zero_if_none : Option ℕ → ℕ
zero_if_none none = 0
zero_if_none (some n) = n

-- `metrics.failure_categories[key] = metrics.failure_categories.get(key, 0) + 1`
unfoldable pub count_category : Option FailureCategory → Dict String ℕ → Dict String ℕ
count_category none counts = counts
count_category (some category) counts =
    put counts (category_value category) (suc (zero_if_none (get counts (category_value category))))

-- The body of the loop of `_build_write_metrics`.
abbrev pub count_status : DecisionStatus → Option FailureCategory → Metrics → Metrics
count_status accepted category m = record m { accepted = suc m.accepted }
count_status duplicate category m = record m { duplicates = suc m.duplicates }
count_status rejected category m = record m {
  rejected = suc m.rejected;
  failure_categories = count_category category m.failure_categories;
}

unfoldable pub count_decisions : List Decision → Metrics → Metrics
unfolding count_category
count_decisions [] m = m
count_decisions (d ∷ ds) m = count_decisions ds (count_status d.status d.failure_category m)

-- `_build_write_metrics`
unfoldable pub build_write_metrics : ℕ → List Decision → Metrics
unfolding count_decisions
build_write_metrics requested decisions = count_decisions decisions (record {
  requested_candidates = requested;
  accepted = 0;
  duplicates = 0;
  rejected = 0;
  failure_categories = [];
})
