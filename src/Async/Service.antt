-- ===== src/Async/Service.antt =====
-- `AsyncMemoryService`, over any asynchronous repository.
pub mod Write
pub mod Forget
pub mod Reads
use evoeventmem.Prelude.{
  ℕ, String, Bool, true, false, Option, none, some, List, [], ◌∷◌, ◌++◌, map, not, ◌&&◌, ◌||◌, ltb,
  ◌==◌, nat_eq, string_eq, option_eq, pair_eq, select, take, contains, if◌then◌else◌, ◌+++◌,
}
use evoeventmem.Prelude.Sort.{sort}
use evoeventmem.Float.Signed.{plus}
use evoeventmem.Result.{
  Result, ok, err, value_error, runtime_error, identity_collision, scope_mismatch, ◌>>=◌, ◌>>◌,
  raise_if,
}
use evoeventmem.Domain.Text.{normalize_memory_content}
use evoeventmem.Domain.Models.{MemoryRecord, linked_ids, is_deleted}
use evoeventmem.Platform.{Platform}
use evoeventmem.Rules.Identity.{legacy_write_identity}
use evoeventmem.Rules.Scope.{RequestScope, scope_matches_memory}
use evoeventmem.Rules.Events.{apply_feedback, apply_forget}
use evoeventmem.Service.Single.{MemoryExplainResult}
use evoeventmem.Service.Search
use evoeventmem.Async.Types.{
  EmbeddingVector, MemoryQuery, active_only, all, ListQuery, SearchVector, SearchHit,
}
use evoeventmem.Async.Port.{AsyncRepository}

-- The `AsyncEmbeddingModel` protocol: a model call returns a vector or raises.
pub record AsyncEmbeddingModel : Type 0 where
  pub embed_query : String → Result EmbeddingVector
  pub embed_document : String → Result EmbeddingVector

-- `__init__`, without the repository, whose state the operations pass on
pub record AsyncMemoryService : Type 0 where
  pub platform : Platform
  pub embedding : Option AsyncEmbeddingModel
  pub token_overlap_policy : Bool

abbrev pub require_embedding : String → Option AsyncEmbeddingModel → Result AsyncEmbeddingModel
require_embedding message none = err (runtime_error message)
require_embedding message (some embedding) = ok embedding

-- `_embed_document`
unfoldable pub embed_document : AsyncMemoryService → MemoryRecord → Result EmbeddingVector
embed_document self memory = do
  embedding ← require_embedding "no embedding model configured" self.embedding
  embedding.embed_document memory.content

abbrev pub has_scope_of : RequestScope → MemoryRecord → Bool
has_scope_of scope memory =
    scope_matches_memory memory (some scope.tenant_id) (some scope.user_id) scope.session_id

-- `_get_memory_with_vector` and the two updates
abbrev pub require_vector :
    Option MemoryRecord × Option EmbeddingVector → Result (Option (MemoryRecord × EmbeddingVector))
require_vector (none, vector) = ok none
require_vector (some memory, none) =
    err (runtime_error "memory has no stored embedding; cannot update it")
require_vector (some memory, some vector) = ok (some (memory, vector))

-- The linked records that are not deleted.
abbrev pub is_related : MemoryRecord → MemoryRecord → Bool
is_related memory item = not (is_deleted item.status) && contains item.memory_id (linked_ids memory)

-- A hit of the development baseline.
unfoldable pub overlap_hit : Search.SearchHit → SearchHit
overlap_hit hit = record {
  memory = hit.memory;
  score = plus hit.score;
  reason = "degraded token-overlap baseline";
  source = "token_overlap";
  fallback = true;
  fallback_reason = some "development_token_overlap_policy";
  score_detail = ("token_overlap", plus hit.score) ∷ [];
}

abbrev pub overlaps : Platform → String → MemoryRecord → Bool
overlaps p query item = ltb 0 (Search.score p query item)

module _ (self : AsyncMemoryService) (r : AsyncRepository) where
  -- Nothing is under the id and no record has the content: the record is embedded and added.
  unfoldable pub add_new : r.State → RequestScope → MemoryRecord → Result (r.State × MemoryRecord)
  add_new s scope memory = do vector ← embed_document self memory; r.add s scope memory vector

  abbrev pub unless_duplicate :
      r.State → RequestScope → MemoryRecord → Option MemoryRecord → Result (r.State × MemoryRecord)
  unless_duplicate s scope memory (some duplicate) = ok (s, duplicate)
  unless_duplicate s scope memory none = add_new s scope memory

  unfoldable pub write_unless_duplicate :
      r.State → RequestScope → MemoryRecord → Result (r.State × MemoryRecord)
  write_unless_duplicate s scope memory = do
    duplicate ←
        r.find_by_normalized_content s scope
          (normalize_memory_content self.platform.casefold memory.content)
    unless_duplicate s scope memory duplicate

  abbrev pub unless_existing :
      r.State → RequestScope → MemoryRecord → Option MemoryRecord → Result (r.State × MemoryRecord)
  unless_existing s scope memory (some existing) =
      if legacy_write_identity self.platform existing == legacy_write_identity self.platform memory
      then ok (s, existing)
      else err identity_collision
  unless_existing s scope memory none = write_unless_duplicate s scope memory

  unfoldable pub write : r.State → RequestScope → MemoryRecord → Result (r.State × MemoryRecord)
  write s scope memory = do
    raise_if (not (has_scope_of scope memory)) scope_mismatch
    existing ← r.get s scope memory.memory_id
    unless_existing s scope memory existing

  abbrev pub update_found :
      r.State
      → RequestScope
      → (MemoryRecord → MemoryRecord)
      → ℕ
      → Option (MemoryRecord × EmbeddingVector)
      → Result (r.State × Option MemoryRecord)
  update_found s scope change now none = ok (s, none)
  update_found s scope change now (some (memory, vector)) = do
    (s', updated) ← r.update s scope (change memory) vector now
    ok (s', some updated)

  unfoldable pub update_visible :
      r.State
      → RequestScope
      → ℕ
      → (MemoryRecord → MemoryRecord)
      → ℕ
      → Result (r.State × Option MemoryRecord)
  update_visible s scope memory_id change now = do
    found ← r.get_with_vector s scope memory_id
    pair ← require_vector found
    update_found s scope change now pair

  -- `now` is what the service reads from the clock, `updated_at` what the repository reads.
  unfoldable pub feedback :
      r.State
      → RequestScope
      → ℕ
      → String
      → Option ℕ
      → Option String
      → ℕ
      → ℕ
      → Result (r.State × Option MemoryRecord)
  feedback s scope memory_id outcome rating request_id now updated_at =
      update_visible s scope memory_id
        (λ memory. apply_feedback self.platform memory outcome rating now request_id) updated_at

  unfoldable pub forget :
      r.State → RequestScope → ℕ → Option String → ℕ → ℕ → Result (r.State × Option MemoryRecord)
  forget s scope memory_id request_id now updated_at =
      update_visible s scope memory_id (λ memory. apply_forget self.platform memory now request_id)
        updated_at

  abbrev pub explain_found :
      r.State → RequestScope → Option MemoryRecord → Result (Option MemoryExplainResult)
  explain_found s scope none = ok none
  explain_found s scope (some memory) = do
    scoped ← r.list s scope (record { limit = 1000; status = all })
    ok (some (record { memory = memory; related = select (is_related memory) scoped }))

  unfoldable pub explain : r.State → RequestScope → ℕ → Result (Option MemoryExplainResult)
  explain s scope memory_id = do found ← r.get s scope memory_id; explain_found s scope found

  -- `_search_token_overlap`: the score and the order are those of the synchronous search.
  unfoldable pub search_token_overlap :
      r.State → RequestScope → String → ℕ → Result (List SearchHit)
  search_token_overlap s scope query limit = do
    scoped ← r.list s scope (record { limit = 1000; status = active_only })
    let scored = map (Search.hit self.platform query) (select (overlaps self.platform query) scoped)
    ok (map overlap_hit (take limit (sort (Search.hit_lt self.platform) scored)))

  unfoldable pub search_by_vector : r.State → RequestScope → String → ℕ → Result (List SearchHit)
  search_by_vector s scope query limit = do
    embedding ← require_embedding "no embedding model configured for vector search" self.embedding
    query_vector ← embedding.embed_query query
    r.search_vector s (record {
      query = query_vector;
      scope = scope;
      limit = record { state = active_only; max_results = limit };
    })

  unfoldable pub search : r.State → RequestScope → String → ℕ → Result (List SearchHit)
  search s scope query limit = do
    raise_if (ltb limit 1) (value_error "limit must be at least 1")
    if self.token_overlap_policy
        then search_token_overlap s scope query limit
        else search_by_vector s scope query limit
