-- ===== src/Service/Batch/Sorting.antt =====
-- The loops inside the transaction of `write_extracted_events`: duplicates of durable memories,
-- duplicates within the batch, and the candidates to write.
use evoeventmem.Prelude.{
  ℕ, String, Bool, Option, none, some, List, [], ◌∷◌, ◌&&◌, ◌==◌, nat_eq, string_eq, option_eq,
  pair_eq, find,
}
use evoeventmem.Prelude.Dict
use evoeventmem.Prelude.Dict.{Dict}
use evoeventmem.Result.{Result, ok, ◌>>=◌}
use evoeventmem.Domain.Models.{MemoryRecord}
use evoeventmem.Repository.Port.{Repository}
use evoeventmem.Rules.Identity.{memory_idempotency_key}
use evoeventmem.Service.Batch.Types.{WriteRequest, Decision, Prepared}
use evoeventmem.Service.Batch.Prepare.{duplicate_decision}

abbrev pub ScopedKey : Type 0
ScopedKey = Option String × (String × String)

abbrev pub scoped_key : Prepared → ScopedKey
scoped_key w = (w.memory.tenant_id, (w.memory.user_id, w.idempotency_key))

-- `existing.tenant_id == memory.tenant_id and memory_idempotency_key(existing) == idempotency_key`
abbrev pub has_key : MemoryRecord → String → MemoryRecord → Bool
has_key memory key existing =
    existing.tenant_id == memory.tenant_id && memory_idempotency_key existing == some key

-- The candidates of a batch, sorted.
pub record Sorted : Type 0 where
  pub persistent : List Decision
  pub batch : List Decision
  pub pending : List Prepared

module _ (r : Repository) where
  -- `_find_by_idempotency_key`
  unfoldable pub find_by_idempotency_key :
      r.State → MemoryRecord → String → Result (Option MemoryRecord)
  unfolding find
  find_by_idempotency_key s memory key = do
    records ← r.list_for_user s memory.user_id
    ok (find (has_key memory key) records)

  -- The loop over the prepared candidates, with the keys that were seen.
  unfoldable pub sort_candidates :
      WriteRequest → r.State → List Prepared → Dict ScopedKey ℕ → Result Sorted
  sort_candidates request s [] seen = ok (record { persistent = []; batch = []; pending = [] })
  sort_candidates request s (w ∷ ws) seen = do
    existing ← find_by_idempotency_key s w.memory w.idempotency_key
    let rest = sort_candidates request s ws seen
    let rest' = sort_candidates request s ws (Dict.put seen (scoped_key w) w.memory.memory_id)
    elim existing [
      | some durable ↦ do
        sorted ← rest
        ok (record sorted {
          persistent = duplicate_decision request w durable.memory_id ∷ sorted.persistent;
        })
      | none ↦ elim (Dict.get seen (scoped_key w)) [
        | some memory_id ↦ do
          sorted ← rest
          ok (record sorted { batch = duplicate_decision request w memory_id ∷ sorted.batch })
        | none ↦ do sorted ← rest'; ok (record sorted { pending = w ∷ sorted.pending })
      ]
    ]

  -- The loop that writes what is pending.
  unfoldable pub add_pending :
      List Prepared → r.State → Result (r.State × List (Prepared × MemoryRecord))
  add_pending [] s = ok (s, [])
  add_pending (w ∷ ws) s = do
    (s', memory) ← r.add s w.memory
    (s'', pairs) ← add_pending ws s'
    ok (s'', (w, memory) ∷ pairs)
