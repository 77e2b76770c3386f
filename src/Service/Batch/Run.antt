-- ===== src/Service/Batch/Run.antt =====
-- `write_extracted_events` and `list_write_decisions` of `MemoryService`.
use evoeventmem.Prelude.{
  String, Option, none, some, List, [], ◌∷◌, ◌++◌, map, ◌==◌, string_eq, select, if◌then◌else◌,
  length,
}
use evoeventmem.Result.{Result, ok, err, ◌>>=◌}
use evoeventmem.Domain.Models.{MemoryRecord, is_empty}
use evoeventmem.Platform.{Platform}
use evoeventmem.Repository.Port.{Repository, transaction}
use evoeventmem.Service.Batch.Types.{
  WriteRequest, WriteResult, Decision, Prepared, build_write_metrics,
}
use evoeventmem.Service.Batch.Prepare.{
  prepare_all, request_rejected, storage_failure, accepted_decision,
}
use evoeventmem.Service.Batch.Collisions.{
  memory_id_collision_indexes, memory_id_collision_decisions,
}
use evoeventmem.Service.Batch.Sorting.{sort_candidates, add_pending}

-- What the transaction leaves behind in the local variables.
pub record Outcome : Type 0 where
  pub collisions : List Decision
  pub persistent : List Decision
  pub batch : List Decision
  pub accepted_pairs : List (Prepared × MemoryRecord)

-- `[memory for prepared, memory in accepted_pairs]`
unfoldable pub memories : List (Prepared × MemoryRecord) → List MemoryRecord
memories [] = []
memories ((w, memory) ∷ pairs) = memory ∷ memories pairs

unfoldable pub result_of : WriteRequest → List MemoryRecord → List Decision → WriteResult
result_of request accepted decisions = record {
  request_id = request.request_id;
  accepted_memories = accepted;
  decisions = decisions;
  metrics = build_write_metrics (length request.candidates) decisions;
}

-- The decisions and the accepted memories after the transaction.
unfoldable pub settle : WriteRequest → Outcome → List MemoryRecord × List Decision
unfolding memories accepted_decision
settle request o =
    if is_empty o.collisions
    then (
      memories o.accepted_pairs,
      (o.persistent ++ o.batch) ++ map (accepted_decision request) o.accepted_pairs,
    )
    else ([], o.collisions)

module _ (r : Repository) where
  pub record Service : Type 0 where
    pub repository : r.State
    pub write_decisions : List Decision

  -- The body of the transaction.
  unfoldable pub write_batch : WriteRequest → List Prepared → r.State → Result (r.State × Outcome)
  unfolding memory_id_collision_indexes memory_id_collision_decisions sort_candidates add_pending
  write_batch request ws s = do
    indexes ← memory_id_collision_indexes r s ws
    if is_empty indexes
        then (do
          sorted ← sort_candidates r request s ws []
          (s', pairs) ← add_pending r sorted.pending s
          ok (
            s',
            record {
              collisions = [];
              persistent = sorted.persistent;
              batch = sorted.batch;
              accepted_pairs = pairs;
            },
          ))
        else ok (
          s,
          record {
            collisions = memory_id_collision_decisions request 0 ws indexes;
            persistent = [];
            batch = [];
            accepted_pairs = [];
          },
        )

  -- The valid candidates of a request with no invalid one: what is written, decided and accepted. Every
  -- exception of the repository is caught.
  unfoldable pub write_prepared :
      WriteRequest → List Prepared → r.State → r.State × (List MemoryRecord × List Decision)
  unfolding write_batch settle transaction storage_failure
  write_prepared request ws s = elim (transaction r (write_batch request ws) s) [
    | err e ↦ (s, ([], map (storage_failure request) ws))
    | ok (s', outcome) ↦ (s', settle request outcome)
  ]

  unfoldable pub decide :
      WriteRequest
      → List Decision × List Prepared
      → r.State
      → r.State × (List MemoryRecord × List Decision)
  unfolding write_prepared request_rejected
  decide request ([], ws) s = write_prepared request ws s
  decide request (d ∷ ds, ws) s = (s, ([], (d ∷ ds) ++ map (request_rejected request) ws))

  -- `list_write_decisions`
  unfoldable pub list_write_decisions : Service → Option String → List Decision
  unfolding select
  list_write_decisions service none = service.write_decisions
  list_write_decisions service (some request_id) =
      select (λ d. d.request_id == request_id) service.write_decisions

module _ (p : Platform) (r : Repository) where
  unfoldable pub write_extracted_events : Service r → WriteRequest → Service r × WriteResult
  unfolding decide prepare_all result_of
  write_extracted_events service request =
      let (s, (accepted, decisions)) =
        decide r request (prepare_all p request request.candidates) service.repository in
      (
        record { repository = s; write_decisions = service.write_decisions ++ decisions },
        result_of request accepted decisions,
      )
