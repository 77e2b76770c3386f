-- ===== src/Service/Single.antt =====
-- `write`, `explain`, `feedback` and `forget` of `MemoryService`, over any repository. `now` is what
-- `datetime.now(UTC)` returned.
pub mod Write
pub mod Scoped
use evoeventmem.Prelude.{
  ℕ, String, Bool, true, false, Option, none, some, List, [], ◌∷◌, ◌++◌, ◌&&◌, not, ◌==◌, nat_eq,
  string_eq, option_eq, pair_eq, find, select, contains, if◌then◌else◌,
}
use evoeventmem.Result.{Result, ok, err, identity_collision, ◌>>=◌, ◌>>◌, raise_if}
use evoeventmem.Domain.Models.{MemoryRecord, linked_ids, is_deleted}
use evoeventmem.Platform.{Platform}
use evoeventmem.Repository.Port.{Repository, transaction}
use evoeventmem.Rules.Identity.{legacy_write_identity}
use evoeventmem.Rules.Scope.{in_scope}
use evoeventmem.Rules.Events.{apply_feedback, apply_forget}

pub record MemoryExplainResult : Type 0 where
  pub memory : MemoryRecord
  pub related : List MemoryRecord

-- The test of the loop of `write`: the same tenant and the same normalised content.
abbrev pub is_duplicate_of : MemoryRecord → MemoryRecord → Bool
is_duplicate_of memory existing =
    existing.tenant_id == memory.tenant_id
    && existing.normalized_content == memory.normalized_content

-- `memory is None or not self._in_scope(memory, user_id, tenant_id)`: nothing is visible.
unfoldable pub visible : Option MemoryRecord → Option String → Option String → Option MemoryRecord
visible none user tenant = none
visible (some memory) user tenant = if in_scope memory user tenant then some memory else none

-- The records that `explain` lists beside the record.
abbrev pub is_related : MemoryRecord → MemoryRecord → Bool
is_related memory item =
    item.tenant_id == memory.tenant_id
    && not (is_deleted item.status)
    && contains item.memory_id (linked_ids memory)

module _ (r : Repository) where
  unfoldable pub explain :
      r.State → ℕ → Option String → Option String → Result (Option MemoryExplainResult)
  explain s memory_id user tenant = do
    found ← r.get s memory_id
    elim (visible found user tenant) [
      | none ↦ ok none
      | some memory ↦ do
        records ← r.list_for_user s memory.user_id
        ok (some (record { memory = memory; related = select (is_related memory) records }))
    ]

  -- `self._repository.update(updated)` of a record that is visible
  unfoldable pub update_visible :
      r.State
      → ℕ
      → Option String
      → Option String
      → (MemoryRecord → MemoryRecord)
      → Result (r.State × Option MemoryRecord)
  update_visible s memory_id user tenant change = do
    found ← r.get s memory_id
    elim (visible found user tenant) [
      | none ↦ ok (s, none)
      | some memory ↦ do (s', stored) ← r.update s (change memory); ok (s', some stored)
    ]

module _ (p : Platform) (r : Repository) where
  -- The record that is there under the id: its identity must be that of the new record.
  unfoldable pub reuse : r.State → MemoryRecord → MemoryRecord → Result (r.State × MemoryRecord)
  reuse s memory existing =
      if legacy_write_identity p existing == legacy_write_identity p memory
      then ok (s, existing)
      else err identity_collision

  -- No record under the id: the first duplicate of the user's records, or a new record.
  unfoldable pub add_unless_duplicate : r.State → MemoryRecord → Result (r.State × MemoryRecord)
  unfolding find
  add_unless_duplicate s memory = do
    records ← r.list_for_user s memory.user_id
    elim (find (is_duplicate_of memory) records) [
      | some existing ↦ ok (s, existing)
      | none ↦ r.add s memory
    ]

  unfoldable pub write_in : MemoryRecord → r.State → Result (r.State × MemoryRecord)
  write_in memory s = do
    existing_by_id ← r.get s memory.memory_id
    elim existing_by_id [
      | some existing ↦ reuse s memory existing
      | none ↦ add_unless_duplicate s memory
    ]

  unfoldable pub write : r.State → MemoryRecord → Result (r.State × MemoryRecord)
  unfolding write_in transaction
  write s memory = transaction r (write_in memory) s

  unfoldable pub feedback :
      r.State
      → ℕ
      → String
      → Option ℕ
      → Option String
      → Option String
      → Option String
      → ℕ
      → Result (r.State × Option MemoryRecord)
  unfolding update_visible
  feedback s memory_id outcome rating user tenant request_id now =
      update_visible r s memory_id user tenant
        (λ memory. apply_feedback p memory outcome rating now request_id)

  unfoldable pub forget :
      r.State
      → ℕ
      → Option String
      → Option String
      → Option String
      → ℕ
      → Result (r.State × Option MemoryRecord)
  unfolding update_visible
  forget s memory_id user tenant request_id now =
      update_visible r s memory_id user tenant (λ memory. apply_forget p memory now request_id)
