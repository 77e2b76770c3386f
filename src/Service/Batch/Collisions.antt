-- ===== src/Service/Batch/Collisions.antt =====
-- `_memory_id_collision_indexes` and `_memory_id_collision_decisions`.
use evoeventmem.Prelude.{
  ℕ, suc, String, Bool, true, false, Option, none, some, List, [], ◌∷◌, ◌++◌, map, ◌==◌, nat_eq,
  string_eq, option_eq, pair_eq, contains, if◌then◌else◌, ltb, length,
}
use evoeventmem.Prelude.Dict
use evoeventmem.Prelude.Dict.{Dict, values}
use evoeventmem.Result.{Result, ok, ◌>>=◌}
use evoeventmem.Domain.Models.{MemoryRecord}
use evoeventmem.Repository.Port.{Repository}
use evoeventmem.Rules.Identity.{collision_identity, memory_idempotency_key}
use evoeventmem.Service.Batch.Types.{WriteRequest, Decision, Prepared}
use evoeventmem.Service.Batch.Prepare.{collision_decision}

abbrev pub Identity : Type 0
Identity = Option String × (String × Option String)

-- `batch_identities`: for each memory id the indexes and the identities of the batch.
abbrev pub BatchIdentities : Type 0
BatchIdentities = Dict ℕ (List (ℕ × Identity))

abbrev pub prepared_identity : Prepared → Identity
prepared_identity w = collision_identity w.memory (some w.idempotency_key)

abbrev pub or_nil : Option (List (ℕ × Identity)) → List (ℕ × Identity)
or_nil none = []
or_nil (some entries) = entries

-- `batch_identities.setdefault(memory_id, []).append((index, identity))`
unfoldable pub note_identity : BatchIdentities → ℕ → ℕ → Identity → BatchIdentities
note_identity batch memory_id index identity =
    Dict.put batch memory_id (or_nil (Dict.get batch memory_id) ++ (index, identity) ∷ [])

-- Whether the durable record under the id has another identity.
abbrev pub durable_collision : Option MemoryRecord → Identity → Bool
durable_collision none identity = false
durable_collision (some existing) identity =
    if collision_identity existing (memory_idempotency_key existing) == identity
    then false
    else true

-- The distinct elements, as a set.
unfoldable pub distinct : List Identity → List Identity
distinct [] = []
distinct (x ∷ xs) = let rest = distinct xs in if contains x xs then rest else x ∷ rest

abbrev pub indexes_of : List (ℕ × Identity) → List ℕ
indexes_of = map (λ e. e.0)

-- The last loop: all indexes of a memory id that has two identities in the batch.
unfoldable pub batch_collisions : List (List (ℕ × Identity)) → List ℕ
unfolding distinct
batch_collisions [] = []
batch_collisions (entries ∷ rest) =
    let collisions = batch_collisions rest in
    if ltb 1 (length (distinct (map (λ e. e.1) entries)))
    then indexes_of entries ++ collisions
    else collisions

module _ (r : Repository) where
  -- The loop over the prepared candidates, from an index on.
  unfoldable pub scan :
      r.State → ℕ → List Prepared → BatchIdentities → Result (List ℕ × BatchIdentities)
  scan s index [] batch = ok ([], batch)
  scan s index (w ∷ ws) batch = do
    existing ← r.get s w.memory.memory_id
    (collisions, batch') ←
        scan s (suc index) ws (note_identity batch w.memory.memory_id index (prepared_identity w))
    ok (
      if durable_collision existing (prepared_identity w) then index ∷ collisions else collisions,
      batch',
    )

  unfoldable pub memory_id_collision_indexes : r.State → List Prepared → Result (List ℕ)
  unfolding scan batch_collisions note_identity
  memory_id_collision_indexes s ws = do
    (durable, batch) ← scan s 0 ws []
    ok (durable ++ batch_collisions (values batch))

-- The decisions, from an index on.
unfoldable pub memory_id_collision_decisions :
    WriteRequest → ℕ → List Prepared → List ℕ → List Decision
unfolding collision_decision contains
memory_id_collision_decisions request index [] collisions = []
memory_id_collision_decisions request index (w ∷ ws) collisions =
    collision_decision request w (contains index collisions)
    ∷ memory_id_collision_decisions request (suc index) ws collisions
