-- ===== src/Service/Batch/Counts.antt =====
-- Every candidate of a request is decided exactly once, and the metrics count the decisions.
pub mod Decided
use evoeventmem.Prelude.{
  String, count, tally, tally-append, tally_one, tally-count, ◌==◌, sym, ap, ◌∙◌, ℕ, suc, ◌+◌, ◌≡◌,
  refl, List, [], ◌∷◌, ◌++◌, map, arith, length, Option, nat_eq, string_eq, option_eq, pair_eq,
  Bool-cases, inl, inr, if◌then◌else◌,
}
use evoeventmem.Prelude.Dict
use evoeventmem.Prelude.Dict.{Dict}
use evoeventmem.Result.{Ensures, Ensures-bind, ensured, Result-cases}
use evoeventmem.Domain.Models.{MemoryRecord, is_empty, model_validate}
use evoeventmem.Platform.{Platform}
use evoeventmem.Repository.Port.{Repository, transaction, Ensures-transaction}
use evoeventmem.Service.Batch.Types.{
  WriteRequest, Decision, Prepared, Candidate, Metrics, accepted, duplicate, rejected,
  DecisionStatus, FailureCategory, count_status, count_decisions, build_write_metrics,
}
use evoeventmem.Service.Batch.Prepare.{
  accepted_decision, request_rejected, storage_failure, prepare_all, validate_candidate,
  prepare_write_candidate, prepared_decision, invalid_decision, prepared_write, Preparation,
  invalid, prepared, duplicate_decision, collision_decision, file,
}
use evoeventmem.Service.Batch.Collisions.{
  memory_id_collision_indexes, memory_id_collision_decisions,
}
use evoeventmem.Service.Batch.Sorting.{ScopedKey, scoped_key, Sorted, sort_candidates, add_pending}
use evoeventmem.Service.Batch.Run.{
  Outcome, Service, write_batch, settle, write_prepared, decide, write_extracted_events,
}
use evoeventmem.Service.Batch.Counts.Decided.{
  decided, requested, decided-prepare_all, decided-decide,
}

count_status_total :
    (status : DecisionStatus) (category : Option FailureCategory) (m : Metrics)
    → (count_status status category m).accepted
        + (count_status status category m).duplicates
        + (count_status status category m).rejected
      ≡ m.accepted + m.duplicates + m.rejected + 1
count_status_total accepted category m = omega arith
count_status_total duplicate category m = omega arith
count_status_total rejected category m = omega arith

-- The counters add up over the decisions.
count_decisions_total :
    (ds : List Decision) (m : Metrics)
    → (count_decisions ds m).accepted
        + (count_decisions ds m).duplicates
        + (count_decisions ds m).rejected
      ≡ m.accepted + m.duplicates + m.rejected + length ds
unfolding count_decisions
count_decisions_total [] m = omega arith
count_decisions_total (d ∷ ds) m = omega (
  arith,
  count_status_total d.status d.failure_category m,
  count_decisions_total ds (count_status d.status d.failure_category m),
)

count_status_requested :
    (status : DecisionStatus) (category : Option FailureCategory) (m : Metrics)
    → (count_status status category m).requested_candidates ≡ m.requested_candidates
count_status_requested accepted category m = refl
count_status_requested duplicate category m = refl
count_status_requested rejected category m = refl

count_decisions_requested :
    (ds : List Decision) (m : Metrics)
    → (count_decisions ds m).requested_candidates ≡ m.requested_candidates
unfolding count_decisions
count_decisions_requested [] m = refl
count_decisions_requested (d ∷ ds) m =
    count_decisions_requested ds (count_status d.status d.failure_category m)
    ∙ count_status_requested d.status d.failure_category m

-- Whatever the repository does, every candidate of a request is decided exactly once: every candidate id
-- stands as often among the decisions as among the candidates, and there are as many decisions as
-- candidates. The metrics report the number of candidates as the requested one, and their accepted,
-- duplicate and rejected counts add up to it.
pub decisions-metrics :
    (p : Platform) (r : Repository) (service : Service r) (request : WriteRequest)
    → ((id : String)
        → count id
            (map (λ d. d.candidate_id) (write_extracted_events p r service request).1.decisions)
          ≡ count id (map (λ c. c.candidate_id) request.candidates))
      × (length (write_extracted_events p r service request).1.decisions
          ≡ length request.candidates)
      × ((write_extracted_events p r service request).1.metrics.requested_candidates
          ≡ length request.candidates)
      × ((write_extracted_events p r service request).1.metrics.accepted
            + (write_extracted_events p r service request).1.metrics.duplicates
            + (write_extracted_events p r service request).1.metrics.rejected
          ≡ (write_extracted_events p r service request).1.metrics.requested_candidates)
unfolding write_extracted_events build_write_metrics
decisions-metrics p r service request =
    let cs = request.candidates in
    let filed = prepare_all p request cs in
    let ds = (decide r request filed service.repository).1.1 in
    let once : (weight : String → ℕ) → decided weight ds ≡ requested weight cs = λ weight.
      decided-decide r request weight filed service.repository
      ∙ decided-prepare_all p request weight cs in
    let all : length ds ≡ length cs = sym (tally_one ds) ∙ once (λ _. 1) ∙ tally_one cs in
    let same : (count_decisions ds _).requested_candidates ≡ length cs =
      count_decisions_requested ds _ in
    (
      λ id.
          sym (tally-count (λ (d : Decision). d.candidate_id) id ds)
          ∙ once (λ candidate_id. if id == candidate_id then 1 else 0)
          ∙ tally-count (λ (c : Candidate). c.candidate_id) id cs,
      all,
      same,
      omega (arith, all, same, count_decisions_total ds _),
    )
