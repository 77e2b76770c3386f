-- ===== src/Async/Store.antt =====
-- `AsyncInMemoryRepository`. Every record that goes in or comes out is a deep copy, so the records are
-- values here. `cosine` is `_cosine`, whose square roots and sums of doubles are library code.
pub mod Laws
pub mod Invariant
pub mod Closed
use evoeventmem.Prelude.{
  ℕ, String, Bool, true, false, Option, none, some, List, [], ◌∷◌, map, not, ◌&&◌, ◌||◌, ltb,
  length, ◌==◌, nat_eq, string_eq, option_eq, select, find, take, if◌then◌else◌,
}
use evoeventmem.Prelude.Dict
use evoeventmem.Prelude.Dict.{Dict, values}
use evoeventmem.Prelude.Sort.{sort}
use evoeventmem.Float.{one}
use evoeventmem.Float.Signed.{Signed, plus, minus, less}
use evoeventmem.Result.{
  Result, ok, err, validation, value_error, key_error, runtime_error, ◌>>=◌, ◌>>◌, raise_if,
}
use evoeventmem.Domain.Models.{MemoryRecord, is_active}
use evoeventmem.Rules.Scope.{RequestScope, admits}
use evoeventmem.Async.Port.{status_admits}
use evoeventmem.Async.Types.{
  EmbeddingVector, is_blank, SearchVector, ListQuery, SchemaState, ready, PingResult, SearchHit,
}

pub record AsyncStore : Type 0 where
  pub model_id : String
  pub dimension : ℕ
  pub schema_version : String
  pub items : Dict ℕ MemoryRecord
  pub vectors : Dict ℕ EmbeddingVector
  pub closed : Bool

-- `__init__`
unfoldable pub create : String → ℕ → String → Result AsyncStore
create model_id dimension schema_version = do
  raise_if (is_blank model_id) (value_error "model_id must be a nonempty string")
  raise_if (not (ltb 0 dimension)) (value_error "dimension must be positive")
  ok (record {
    model_id = model_id;
    dimension = dimension;
    schema_version = schema_version;
    items = [];
    vectors = [];
    closed = false;
  })

-- `_matches_scope`
unfoldable pub matches_scope : RequestScope → MemoryRecord → Bool
matches_scope scope memory =
    if not (memory.tenant_id == some scope.tenant_id) || not (memory.user_id == scope.user_id)
    then false
    else admits scope.session_id memory.session_id

-- A record that is there and in the scope.
unfoldable pub in_scope_only : RequestScope → Option MemoryRecord → Option MemoryRecord
in_scope_only scope none = none
in_scope_only scope (some memory) = if matches_scope scope memory then some memory else none

abbrev pub check_open : AsyncStore → Result (Unit {0})
check_open s = raise_if s.closed (runtime_error "repository is closed")

unfoldable pub check_vector : AsyncStore → EmbeddingVector → Result (Unit {0})
check_vector s vector = do
  raise_if (not (vector.model_id == s.model_id))
      (value_error "vector model does not match repository model")
  raise_if (not (vector.dimension == s.dimension) || not (length vector.values == s.dimension))
      (value_error "vector dimension does not match repository dimension")

abbrev pub stored : AsyncStore → MemoryRecord → EmbeddingVector → AsyncStore
stored s memory vector = record s {
  items = Dict.put s.items memory.memory_id memory;
  vectors = Dict.put s.vectors memory.memory_id vector;
}

unfoldable pub add :
    AsyncStore → RequestScope → MemoryRecord → EmbeddingVector → Result (AsyncStore × MemoryRecord)
unfolding check_vector
add s scope memory vector = do
  check_open s
  check_vector s vector
  ok (stored s memory vector, memory)

unfoldable pub get : AsyncStore → RequestScope → ℕ → Result (Option MemoryRecord)
get s scope memory_id = do check_open s; ok (in_scope_only scope (Dict.get s.items memory_id))

-- The record with its vector, where the record is there and in the scope.
unfoldable pub with_vector :
    AsyncStore → ℕ → Option MemoryRecord → Option MemoryRecord × Option EmbeddingVector
with_vector s memory_id none = (none, none)
with_vector s memory_id (some memory) = (some memory, Dict.get s.vectors memory_id)

unfoldable pub get_with_vector :
    AsyncStore → RequestScope → ℕ → Result (Option MemoryRecord × Option EmbeddingVector)
unfolding with_vector
get_with_vector s scope memory_id = do
  check_open s
  ok (with_vector s memory_id (in_scope_only scope (Dict.get s.items memory_id)))

-- A missing record and one out of the scope both raise KeyError.
abbrev pub require_visible : Option MemoryRecord → Result MemoryRecord
require_visible none = err key_error
require_visible (some memory) = ok memory

unfoldable pub update :
    AsyncStore
    → RequestScope
    → MemoryRecord
    → EmbeddingVector
    → ℕ
    → Result (AsyncStore × MemoryRecord)
unfolding check_vector
update s scope memory vector now = do
  check_open s
  check_vector s vector
  existing ← require_visible (in_scope_only scope (Dict.get s.items memory.memory_id))
  let memory' = record memory { updated_at = now }
  ok (stored s memory' vector, memory')

-- The newest first; records of one time keep their order.
abbrev pub newer : MemoryRecord → MemoryRecord → Bool
newer a b = ltb b.created_at a.created_at

unfoldable pub list : AsyncStore → RequestScope → ListQuery → Result (List MemoryRecord)
list s scope query = do
  check_open s
  let items = select (matches_scope scope) (values s.items)
  ok (take query.limit (sort newer (select (status_admits query.status) items)))

abbrev pub has_content : RequestScope → String → MemoryRecord → Bool
has_content scope normalized item =
    matches_scope scope item && is_active item.status && item.normalized_content == some normalized

unfoldable pub find_by_normalized_content :
    AsyncStore → RequestScope → String → Result (Option MemoryRecord)
find_by_normalized_content s scope normalized = do
  check_open s
  ok (find (has_content scope normalized) (values s.items))

-- `Field(ge=-1.0)`
abbrev pub validate_hit : SearchHit → Result SearchHit
validate_hit hit =
    if less hit.score (minus one) then err (validation "field constraints") else ok hit

unfoldable pub validate_hits : List SearchHit → Result (List SearchHit)
validate_hits [] = ok []
validate_hits (hit ∷ hits) = do h ← validate_hit hit; hs ← validate_hits hits; ok (h ∷ hs)

abbrev pub cosine_hit : Signed × MemoryRecord → SearchHit
cosine_hit (score, memory) = record {
  memory = memory;
  score = score;
  reason = "cosine";
  source = "cosine";
  fallback = false;
  fallback_reason = none;
  score_detail = ("cosine_similarity", score) ∷ [];
}

abbrev pub nearer : Signed × MemoryRecord → Signed × MemoryRecord → Bool
nearer (a, _) (b, _) = less b a

module _ (cosine : List ℕ → List ℕ → Signed) where
  -- One round of the loop: a candidate without a vector is skipped.
  abbrev pub scored_pair :
      List ℕ
      → MemoryRecord
      → Option EmbeddingVector
      → List (Signed × MemoryRecord)
      → List (Signed × MemoryRecord)
  scored_pair query item none rest = rest
  scored_pair query item (some vector) rest = (cosine query vector.values, item) ∷ rest

  unfoldable pub score_items :
      AsyncStore → List ℕ → List MemoryRecord → List (Signed × MemoryRecord)
  score_items s query [] = []
  score_items s query (item ∷ items) =
      scored_pair query item (Dict.get s.vectors item.memory_id) (score_items s query items)

  abbrev pub is_candidate : SearchVector → MemoryRecord → Bool
  is_candidate search item =
      matches_scope search.scope item && status_admits search.limit.state item

  unfoldable pub search_vector : AsyncStore → SearchVector → Result (List SearchHit)
  search_vector s search = do
    check_open s
    check_vector s search.query
    let candidates = select (is_candidate search) (values s.items)
    let scored = sort nearer (score_items s search.query.values candidates)
    validate_hits (map cosine_hit (take search.limit.max_results scored))

unfoldable pub ping : AsyncStore → Result PingResult
ping s = do
  check_open s
  ok (record {
    ok = true;
    schema_state = ready;
    model_id = some s.model_id;
    dimension = some s.dimension;
    detail = some s.schema_version;
  })

unfoldable pub close : AsyncStore → AsyncStore
close s = record s { closed = true }
