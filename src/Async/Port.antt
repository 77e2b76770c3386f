-- ===== src/Async/Port.antt =====
-- The `AsyncMemoryRepository` protocol of src/evoeventmem/core/ports.py. An operation that raises leaves
-- the state as it was. `now` is what the repository reads from the clock.
use evoeventmem.Prelude.{
  ℕ, ◌≡◌, ◌≢◌, ◌≤◌, String, Bool, true, Option, none, some, List, All, length, not, ◌||◌, nat_eq,
  if◌then◌else◌,
}
use evoeventmem.Prelude.Dict
use evoeventmem.Prelude.Dict.{Dict, values}
use evoeventmem.Result.{Result, ok}
use evoeventmem.Domain.Models.{MemoryRecord, is_active}
use evoeventmem.Rules.Scope.{RequestScope, scope_matches}
use evoeventmem.Async.Types.{
  EmbeddingVector, ListQuery, SearchVector, SearchHit, MemoryQuery, active_only, is_active_only,
}

pub record AsyncRepository : Type 1 where
  pub State : Type 0
  pub add : State → RequestScope → MemoryRecord → EmbeddingVector → Result (State × MemoryRecord)
  pub get : State → RequestScope → ℕ → Result (Option MemoryRecord)
  pub get_with_vector :
      State → RequestScope → ℕ → Result (Option MemoryRecord × Option EmbeddingVector)
  pub update :
      State → RequestScope → MemoryRecord → EmbeddingVector → ℕ → Result (State × MemoryRecord)
  pub list : State → RequestScope → ListQuery → Result (List MemoryRecord)
  pub find_by_normalized_content : State → RequestScope → String → Result (Option MemoryRecord)
  pub search_vector : State → SearchVector → Result (List SearchHit)

-- `query.status is not ACTIVE_ONLY or the record is active`
abbrev pub status_admits : MemoryQuery → MemoryRecord → Bool
status_admits status item = not (is_active_only status) || is_active item.status

-- A record that is there and in the scope.
abbrev pub visible_in : RequestScope → Option MemoryRecord → Option MemoryRecord
visible_in scope none = none
visible_in scope (some memory) = if scope_matches memory scope then some memory else none

abbrev pub Listed : RequestScope → MemoryQuery → MemoryRecord → Type 0
Listed scope status m = (scope_matches m scope ≡ true) × (status_admits status m ≡ true)

-- A record that is not an active one of the scope with the content.
abbrev pub Differs : RequestScope → String → MemoryRecord → Type 0
Differs scope content m = Listed scope active_only m → m.normalized_content ≢ some content

-- What the protocol promises: the records stand in a dict, a lookup shows what is in the scope, and a
-- list or a search returns records of the scope in the state that is asked for. A lookup by content
-- misses no record.
pub record AsyncLaws (r : AsyncRepository) : Type 0 where
  pub items : r.State → Dict ℕ MemoryRecord
  pub get_items :
      (s : r.State) (scope : RequestScope) (id : ℕ) (found : Option MemoryRecord)
      → r.get s scope id ≡ ok found
      → found ≡ visible_in scope (Dict.get (items s) id)
  pub get_with_vector_items :
      (s : r.State) (scope : RequestScope) (id : ℕ)
      (found : Option MemoryRecord × Option EmbeddingVector)
      → r.get_with_vector s scope id ≡ ok found
      → found.0 ≡ visible_in scope (Dict.get (items s) id)
  pub add_items :
      (s s' : r.State) (scope : RequestScope) (m stored : MemoryRecord) (vector : EmbeddingVector)
      → r.add s scope m vector ≡ ok (s', stored)
      → (stored ≡ m) × (items s' ≡ Dict.put (items s) m.memory_id m)
  pub update_items :
      (s s' : r.State) (scope : RequestScope) (m stored : MemoryRecord) (vector : EmbeddingVector)
      (now : ℕ)
      → r.update s scope m vector now ≡ ok (s', stored)
      → (stored ≡ record m { updated_at = now })
        × (items s' ≡ Dict.put (items s) m.memory_id stored)
  pub find_items :
      (s : r.State) (scope : RequestScope) (content : String) (found : MemoryRecord)
      → r.find_by_normalized_content s scope content ≡ ok (some found)
      → Listed scope active_only found × (found.normalized_content ≡ some content)
  pub find_none_items :
      (s : r.State) (scope : RequestScope) (content : String)
      → r.find_by_normalized_content s scope content ≡ ok none
      → All (Differs scope content) (values (items s))
  pub list_items :
      (s : r.State) (scope : RequestScope) (query : ListQuery) (found : List MemoryRecord)
      → r.list s scope query ≡ ok found
      → All (Listed scope query.status) found × (length found ≤ query.limit)
  pub search_items :
      (s : r.State) (search : SearchVector) (found : List SearchHit)
      → r.search_vector s search ≡ ok found
      → All (λ hit. Listed search.scope search.limit.state hit.memory) found
        × (length found ≤ search.limit.max_results)
