-- ===== src/Service/Batch/Prepare.antt =====
-- `_prepare_write_candidate` and the decisions of src/evoeventmem/services/memory_service.py.
use evoeventmem.Prelude.{
  ℕ, String, Bool, Option, none, some, List, [], ◌∷◌, map, ◌&&◌, string_eq, if◌then◌else◌,
}
use evoeventmem.Prelude.Dict.{put}
use evoeventmem.Result.{Result, ok, err, Error, validation, ◌>>=◌}
use evoeventmem.Domain.Value.{Value, str, arr, obj, Metadata, items, fields}
use evoeventmem.Domain.Models.{MemoryRecord, model_validate, nonempty, all_fields, is_empty}
use evoeventmem.Platform.{Platform}
use evoeventmem.Rules.Identity.{idempotency_key}
use evoeventmem.Service.Batch.Types.{
  DecisionStatus, accepted, duplicate, rejected, FailureCategory, invalid_candidate,
  missing_evidence, memory_id_collision, request_validation_failed, storage_failed, RawObservation,
  Candidate, WriteRequest, Decision, Prepared,
}

unfoldable pub observation_fields : RawObservation → Bool
observation_fields o = nonempty o.source_type && nonempty o.source_id

abbrev pub locator_entry : Option String → Metadata → Metadata
locator_entry none rest = rest
locator_entry (some locator) rest = ("locator", str locator) ∷ rest

-- `observation.model_dump(mode="json", exclude_none=True)`
unfoldable pub observation_payload : RawObservation → Value
observation_payload o = obj (
    fields (
      ("source_type", str o.source_type)
      ∷ ("source_id", str o.source_id)
      ∷ locator_entry o.locator (("metadata", obj (fields o.metadata)) ∷ [])))

-- `_with_write_metadata`
unfoldable pub with_write_metadata :
    MemoryRecord → String → String → String → String → List RawObservation → MemoryRecord
unfolding observation_payload
with_write_metadata memory request_id candidate_id extractor_version key raw =
    let payload : Value = arr (items (map observation_payload raw)) in
    let pipeline : Value = obj (
      fields (
        ("request_id", str request_id)
        ∷ ("candidate_id", str candidate_id)
        ∷ ("extractor_version", str extractor_version)
        ∷ ("idempotency_key", str key)
        ∷ ("raw_observations", payload)
        ∷ [])) in
    record memory {
      metadata =
          put
            (put (put memory.metadata "write_idempotency_key" (str key)) "source_observations"
              payload)
            "write_pipeline" pipeline;
    }

-- `_failure_category`
unfoldable pub failure_category : Candidate → FailureCategory
failure_category candidate =
    if is_empty candidate.memory.evidence_refs then missing_evidence else invalid_candidate

-- `candidate.raw_observations or request.raw_observations`
abbrev pub observations_of : WriteRequest → Candidate → List RawObservation
observations_of request candidate =
    if is_empty candidate.raw_observations
    then request.raw_observations
    else candidate.raw_observations

module _ (p : Platform) where
  -- `MemoryWriteCandidate.model_validate(candidate.model_dump(mode="python"))`
  unfoldable pub validate_candidate : Candidate → Result Candidate
  unfolding model_validate observation_fields
  validate_candidate candidate = do
    memory ← model_validate p.casefold candidate.memory
    if nonempty candidate.candidate_id
          && nonempty candidate.extractor_version
          && all_fields observation_fields candidate.raw_observations
        then ok (record candidate { memory = memory })
        else err (validation "field constraints")

  pub data Preparation : Type 0 where
    invalid : Decision → Preparation
    prepared : Prepared → Preparation

  unfoldable pub invalid_decision : WriteRequest → Candidate → Error → Decision
  unfolding failure_category
  invalid_decision request candidate e = record {
    request_id = request.request_id;
    candidate_id = candidate.candidate_id;
    status = rejected;
    reason = p.error_text e;
    idempotency_key = none;
    memory_id = none;
    failure_category = some (failure_category candidate);
    evidence_refs = [];
    raw_observations = observations_of request candidate;
    candidate_snapshot = candidate;
  }

  unfoldable pub prepared_write : WriteRequest → List RawObservation → Candidate → Prepared
  unfolding with_write_metadata
  prepared_write request raw validated =
      let key = idempotency_key p validated.memory validated.extractor_version in
      record {
        candidate = validated;
        memory =
            with_write_metadata validated.memory request.request_id validated.candidate_id
              validated.extractor_version key raw;
        idempotency_key = key;
        raw_observations = raw;
      }

  -- `_prepare_write_candidate`
  unfoldable pub prepare_write_candidate : WriteRequest → Candidate → Preparation
  unfolding invalid_decision prepared_write
  prepare_write_candidate request candidate = elim (validate_candidate candidate) [
    | err e ↦ invalid (invalid_decision request candidate e)
    | ok validated ↦ prepared (prepared_write request (observations_of request candidate) validated)
  ]

  abbrev pub file : Preparation → List Decision × List Prepared → List Decision × List Prepared
  file (invalid d) (ds, ps) = (d ∷ ds, ps)
  file (prepared w) (ds, ps) = (ds, w ∷ ps)

  -- The first loop of `write_extracted_events`: the decisions on invalid candidates, and the others.
  unfoldable pub prepare_all : WriteRequest → List Candidate → List Decision × List Prepared
  prepare_all request [] = ([], [])
  prepare_all request (c ∷ cs) = file (prepare_write_candidate request c) (prepare_all request cs)

-- A decision on a candidate that was prepared.
unfoldable pub prepared_decision :
    WriteRequest → DecisionStatus → String → Option ℕ → Option FailureCategory → Prepared → Decision
prepared_decision request status reason memory_id category w = record {
  request_id = request.request_id;
  candidate_id = w.candidate.candidate_id;
  status = status;
  reason = reason;
  idempotency_key = some w.idempotency_key;
  memory_id = memory_id;
  failure_category = category;
  evidence_refs = w.memory.evidence_refs;
  raw_observations = w.raw_observations;
  candidate_snapshot = w.candidate;
}

unfoldable pub request_rejected : WriteRequest → Prepared → Decision
unfolding prepared_decision
request_rejected request =
    prepared_decision request rejected
      "request contains rejected candidates; no durable memories written" none
      (some request_validation_failed)

unfoldable pub storage_failure : WriteRequest → Prepared → Decision
unfolding prepared_decision
storage_failure request =
    prepared_decision request rejected "memory storage transaction failed" none
      (some storage_failed)

-- `_duplicate_decision`
unfoldable pub duplicate_decision : WriteRequest → Prepared → ℕ → Decision
unfolding prepared_decision
duplicate_decision request w memory_id =
    prepared_decision request duplicate "candidate has already been written with the same identity"
      (some memory_id) none w

-- The evidence of an accepted decision is that of the stored memory.
unfoldable pub accepted_decision : WriteRequest → Prepared × MemoryRecord → Decision
unfolding prepared_decision
accepted_decision request (w, memory) =
    let d =
      prepared_decision request accepted "candidate written as durable memory"
        (some memory.memory_id) none w in
    record d { evidence_refs = memory.evidence_refs }

unfoldable pub collision_decision : WriteRequest → Prepared → Bool → Decision
unfolding prepared_decision
collision_decision request w collision =
    prepared_decision request rejected
      (if collision
        then "memory_id belongs to a different durable or request identity"
        else "request contains memory_id collisions; no durable memories written")
      none (some (if collision then memory_id_collision else request_validation_failed)) w
