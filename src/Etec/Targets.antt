-- ===== src/Etec/Targets.antt =====
-- The candidates of a consolidation, and the links of its source.
pub mod Bounded
use evoeventmem.Prelude.{
  ℕ, String, Bool, true, false, Option, none, some, List, [], ◌∷◌, ◌++◌, map, not, ◌&&◌, ◌||◌, ◌==◌,
  nat_eq, string_eq, option_eq, contains, select, find, if◌then◌else◌,
}
use evoeventmem.Result.{Result, ok, err, value_error, ◌>>=◌}
use evoeventmem.Domain.Models.{MemoryRecord, model_validate, is_active, is_superseded}
use evoeventmem.Repository.Port.{Repository}
use evoeventmem.Etec.Types.{EtecConsolidator, EtecDecision}
use evoeventmem.Etec.Math.{unique_uuids}

abbrev pub same_ids : List ℕ → List ℕ → Bool
same_ids [] [] = true
same_ids (a ∷ left) (b ∷ right) = a == b && same_ids left right
same_ids _ _ = false

-- The tests of the loop of `_sanitize_source_supersedes`.
unfoldable pub is_verified : MemoryRecord → MemoryRecord → Bool
is_verified source durable =
    durable.user_id == source.user_id
    && durable.tenant_id == source.tenant_id
    && is_superseded durable.status
    && durable.superseded_by == some source.memory_id

abbrev pub keep_verified : MemoryRecord → ℕ → Option MemoryRecord → List ℕ → List ℕ
keep_verified source id none rest = rest
keep_verified source id (some durable) rest = if is_verified source durable then id ∷ rest else rest

module _ (r : Repository) where
  unfoldable pub verified_ids : r.State → MemoryRecord → List ℕ → Result (List ℕ)
  verified_ids s source [] = ok []
  verified_ids s source (id ∷ ids) = do
    durable ← r.get s id
    rest ← verified_ids s source ids
    ok (keep_verified source id durable rest)

  unfoldable pub sanitize_source_supersedes :
      EtecConsolidator → r.State → MemoryRecord → Result MemoryRecord
  sanitize_source_supersedes self s source = do
    verified ← verified_ids s source (unique_uuids source.supersedes)
    elim (same_ids verified source.supersedes) [
      | true ↦ ok source
      | false ↦ model_validate self.platform.casefold (record source { supersedes = verified })
    ]

  -- `_resolve_explicit_candidates`: each id once, and the durable record in place of the given one.
  unfoldable pub resolve_ids : r.State → List ℕ → Result (List MemoryRecord)
  resolve_ids s [] = ok []
  resolve_ids s (id ∷ ids) = do
    durable ← r.get s id
    rest ← resolve_ids s ids
    ok (elim durable [ none ↦ rest | some memory ↦ memory ∷ rest ])

  unfoldable pub resolve_explicit_candidates :
      r.State → List MemoryRecord → Result (List MemoryRecord)
  resolve_explicit_candidates s candidates =
      resolve_ids s (unique_uuids (map (λ (c : MemoryRecord). c.memory_id) candidates))

  -- The explicit candidates, or else all the user's records.
  unfoldable pub existing_records :
      r.State → MemoryRecord → Option (List MemoryRecord) → Result (List MemoryRecord)
  existing_records s source none = r.list_for_user s source.user_id
  existing_records s source (some candidates) = resolve_explicit_candidates s candidates

unfoldable pub is_eligible : MemoryRecord → MemoryRecord → Bool
is_eligible source candidate =
    not (candidate.memory_id == source.memory_id)
    && candidate.user_id == source.user_id
    && candidate.tenant_id == source.tenant_id
    && is_active candidate.status

unfoldable pub eligible_candidates : MemoryRecord → List MemoryRecord → List MemoryRecord
eligible_candidates source candidates = select (is_eligible source) candidates

-- `d.get(id)` of the dict of the records by their ids: the last record with the id.
unfoldable pub by_id : List MemoryRecord → ℕ → Option MemoryRecord
by_id [] id = none
by_id (m ∷ ms) id = elim (by_id ms id) [
  | some later ↦ some later
  | none ↦ if m.memory_id == id then some m else none
]

-- The tests of the loop of `_bounded_target_memories`.
abbrev pub take_target :
    Option MemoryRecord → List ℕ → List MemoryRecord → List MemoryRecord → List MemoryRecord
take_target none seen skipped kept = skipped
take_target (some target) seen skipped kept =
    if contains target.memory_id seen then skipped else target ∷ kept

-- The loop, over the generated targets.
unfoldable pub bounded_from : List MemoryRecord → List ℕ → List MemoryRecord → List MemoryRecord
bounded_from eligible seen [] = []
bounded_from eligible seen (candidate ∷ candidates) =
    take_target (by_id eligible candidate.memory_id) seen (bounded_from eligible seen candidates)
      (bounded_from eligible (candidate.memory_id ∷ seen) candidates)

unfoldable pub bounded_target_memories :
    List MemoryRecord × List MemoryRecord → List MemoryRecord → List MemoryRecord
bounded_target_memories (entity_candidates, event_candidates) eligible =
    bounded_from eligible [] (entity_candidates ++ event_candidates)

abbrev pub require_found : Option MemoryRecord → Result MemoryRecord
require_found none = err (value_error "decision target is not in candidate set")
require_found (some target) = ok target

abbrev pub require_id : Option ℕ → List MemoryRecord → Result MemoryRecord
require_id none candidates = err (value_error "decision target is required")
require_id (some id) candidates = require_found (find (λ m. m.memory_id == id) candidates)

-- `_require_target`
unfoldable pub require_target : EtecDecision → List MemoryRecord → Result MemoryRecord
require_target decision candidates = require_id decision.target_memory_id candidates
