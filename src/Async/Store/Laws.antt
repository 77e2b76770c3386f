-- ===== src/Async/Store/Laws.antt =====
-- The repository in memory keeps what the protocol promises.
use evoeventmem.Prelude.{
  ℕ, ◌≡◌, ◌≤◌, refl, sym, ◌∙◌, String, true, Option, none, some, List, [], ◌∷◌, map, All, All-imp,
  All-map_of, All-both, All-take, All-select, select_passes, find_passes, find_fails, false, length,
  length-map, length-take-le, select, take, arith, ==_iff, nat_eq, string_eq, option_eq,
}
use evoeventmem.Prelude.Dict
use evoeventmem.Prelude.Dict.{Dict, values}
use evoeventmem.Prelude.Sort.{sort, All-sort}
use evoeventmem.Float.Signed.{Signed}
use evoeventmem.Result.{ok, Ensures, Ensures-bind, Ensures-of, Ensures-then, ensured}
use evoeventmem.Domain.Models.{MemoryRecord}
use evoeventmem.Rules.Scope.{RequestScope, scope_matches}
use evoeventmem.Async.Types.{
  EmbeddingVector, MemoryQuery, active_only, ListQuery, SearchVector, SearchHit,
}
use evoeventmem.Async.Port.{AsyncRepository, AsyncLaws, visible_in, Listed, Differs, status_admits}
use evoeventmem.Async.Store.{
  AsyncStore, matches_scope, in_scope_only, check_open, scored_pair, validate_hit, check_vector,
  add, get, with_vector, get_with_vector, update, list, newer, has_content,
  find_by_normalized_content, cosine_hit, nearer, score_items, is_candidate, search_vector,
  validate_hits,
}

-- The scope test of the repository is that of the rules.
pub matches_scope_eq :
    (scope : RequestScope) (m : MemoryRecord) → matches_scope scope m ≡ scope_matches m scope
unfolding matches_scope scope_matches
matches_scope_eq scope m = ground arith

pub in_scope_only_eq :
    (scope : RequestScope) (o : Option MemoryRecord) → in_scope_only scope o ≡ visible_in scope o
unfolding in_scope_only
in_scope_only_eq scope none = refl
in_scope_only_eq scope (some m) = rw (matches_scope_eq scope m)

pub get_items :
    (s : AsyncStore) (scope : RequestScope) (id : ℕ) (found : Option MemoryRecord)
    → get s scope id ≡ ok found
    → found ≡ visible_in scope (Dict.get s.items id)
unfolding get
get_items s scope id found h = ground (arith, in_scope_only_eq scope (Dict.get s.items id))

with_vector_first : (s : AsyncStore) (id : ℕ) (o : Option MemoryRecord) → (with_vector s id o).0 ≡ o
unfolding with_vector
with_vector_first s id none = refl
with_vector_first s id (some m) = refl

pub get_with_vector_items :
    (s : AsyncStore) (scope : RequestScope) (id : ℕ)
    (found : Option MemoryRecord × Option EmbeddingVector)
    → get_with_vector s scope id ≡ ok found
    → found.0 ≡ visible_in scope (Dict.get s.items id)
unfolding get_with_vector
get_with_vector_items s scope id found h = ground (
  arith,
  in_scope_only_eq scope (Dict.get s.items id),
  with_vector_first s id (in_scope_only scope (Dict.get s.items id)),
)

pub add_items :
    (s s' : AsyncStore) (scope : RequestScope) (m stored : MemoryRecord) (vector : EmbeddingVector)
    → add s scope m vector ≡ ok (s', stored)
    → (stored ≡ m) × (s'.items ≡ Dict.put s.items m.memory_id m)
unfolding add
add_items s s' scope m stored vector h = ground arith

pub update_items :
    (s s' : AsyncStore) (scope : RequestScope) (m stored : MemoryRecord) (vector : EmbeddingVector)
    (now : ℕ)
    → update s scope m vector now ≡ ok (s', stored)
    → (stored ≡ record m { updated_at = now }) × (s'.items ≡ Dict.put s.items m.memory_id stored)
unfolding update
update_items s s' scope m stored vector now h = ground arith

pub find_items :
    (s : AsyncStore) (scope : RequestScope) (content : String) (found : MemoryRecord)
    → find_by_normalized_content s scope content ≡ ok (some found)
    → Listed scope active_only found × (found.normalized_content ≡ some content)
unfolding find_by_normalized_content
find_items s scope content found h = ground (
  arith,
  matches_scope_eq scope found,
  find_passes (has_content scope content) (values s.items) found,
  ==_iff found.normalized_content (some content),
)

pub find_none_items :
    (s : AsyncStore) (scope : RequestScope) (content : String)
    → find_by_normalized_content s scope content ≡ ok none
    → All (Differs scope content) (values s.items)
unfolding find_by_normalized_content
find_none_items s scope content h =
    All-imp (λ m. has_content scope content m ≡ false) (Differs scope content) (values s.items)
      (λ m fails listed same.
        absurd
          (ground (arith, matches_scope_eq scope m, ==_iff m.normalized_content (some content))))
      (find_fails (has_content scope content) (values s.items) (ground arith))

Listed-select :
    (scope : RequestScope) (status : MemoryQuery) (ms : List MemoryRecord)
    → All (Listed scope status) (select (status_admits status) (select (matches_scope scope) ms))
Listed-select scope status ms =
    let scoped = select (matches_scope scope) ms in
    All-both (λ m. matches_scope scope m ≡ true) (λ m. status_admits status m ≡ true)
      (Listed scope status) (select (status_admits status) scoped)
      (λ m h k. (sym (matches_scope_eq scope m) ∙ h, k))
      (All-select (status_admits status) (λ m. matches_scope scope m ≡ true) scoped
        (select_passes (matches_scope scope) ms))
      (select_passes (status_admits status) scoped)

pub list_items :
    (s : AsyncStore) (scope : RequestScope) (query : ListQuery) (found : List MemoryRecord)
    → list s scope query ≡ ok found
    → All (Listed scope query.status) found × (length found ≤ query.limit)
unfolding list
list_items s scope query found h =
    let items =
      select (status_admits query.status) (select (matches_scope scope) (values s.items)) in
    ensured (λ found. All (Listed scope query.status) found × (length found ≤ query.limit)) _ found
      (Ensures-then (λ found. All (Listed scope query.status) found × (length found ≤ query.limit))
        (check_open s) _
        (
          All-take (Listed scope query.status) query.limit (sort newer items) (
              All-sort newer (Listed scope query.status) items
                (Listed-select scope query.status (values s.items))),
          length-take-le query.limit (sort newer items),
        ))
      h

module _ (cosine : List ℕ → List ℕ → Signed) where
  abbrev ListedPair : SearchVector → Signed × MemoryRecord → Type 0
  ListedPair search pair = Listed search.scope search.limit.state pair.1

  All-scored_pair :
      (P : MemoryRecord → Type 0) (query : List ℕ) (m : MemoryRecord) (o : Option EmbeddingVector)
      (rest : List (Signed × MemoryRecord))
      → P m
      → All (λ pair. P pair.1) rest
      → All (λ pair. P pair.1) (scored_pair cosine query m o rest)
  All-scored_pair P query m none rest h k = k
  All-scored_pair P query m (some vector) rest h k = (h, k)

  All-score_items :
      (P : MemoryRecord → Type 0) (s : AsyncStore) (query : List ℕ) (ms : List MemoryRecord)
      → All P ms
      → All (λ pair. P pair.1) (score_items cosine s query ms)
  unfolding score_items
  All-score_items P s query [] h = tt
  All-score_items P s query (m ∷ ms) h =
      All-scored_pair P query m (Dict.get s.vectors m.memory_id) _ h.0
        (All-score_items P s query ms h.1)

  Listed-candidates :
      (search : SearchVector) (ms : List MemoryRecord)
      → All (Listed search.scope search.limit.state) (select (is_candidate cosine search) ms)
  Listed-candidates search ms =
      All-imp (λ m. is_candidate cosine search m ≡ true) (Listed search.scope search.limit.state) _
        (λ m h. ground (arith, matches_scope_eq search.scope m))
        (select_passes (is_candidate cosine search) ms)

  validate_hits_same :
      (hits : List SearchHit) → Ensures (λ valid. valid ≡ hits) (validate_hits hits)
  unfolding validate_hits
  validate_hits_same [] = refl
  validate_hits_same (hit ∷ hits) =
      Ensures-bind (λ valid. valid ≡ hit ∷ hits) (validate_hit hit) _
        λ h valid.
          Ensures-bind (λ valid. valid ≡ hit ∷ hits) (validate_hits hits) _
            λ hs ran.
              let same : h ≡ hit = ground arith in
              let rest = ensured (λ valid. valid ≡ hits) _ hs (validate_hits_same hits) ran in cc

  abbrev pub FoundBy : SearchVector → List SearchHit → Type 0
  FoundBy search found =
      All (λ hit. Listed search.scope search.limit.state hit.memory) found
      × (length found ≤ search.limit.max_results)

  pub search_items :
      (s : AsyncStore) (search : SearchVector) (found : List SearchHit)
      → search_vector cosine s search ≡ ok found
      → FoundBy search found
  unfolding search_vector
  search_items s search found h =
      let items = select (is_candidate cosine search) (values s.items) in
      let scored = sort nearer (score_items cosine s search.query.values items) in
      let best = take search.limit.max_results scored in
      let all : All (ListedPair search) best =
        All-take (ListedPair search) search.limit.max_results scored (
          All-sort nearer (ListedPair search) (score_items cosine s search.query.values items) (
            All-score_items (Listed search.scope search.limit.state) s search.query.values items
              (Listed-candidates search (values s.items)))) in
      let bounded : length (map cosine_hit best) ≤ search.limit.max_results =
        omega (arith, length-map cosine_hit best, length-take-le search.limit.max_results scored) in
      ensured (FoundBy search) _ found
        (Ensures-then (FoundBy search) (check_open s) _ (
          Ensures-then (FoundBy search) (check_vector s search.query) _ (
            Ensures-of (FoundBy search) (validate_hits (map cosine_hit best)) λ valid ran.
              let same =
                ensured (λ v. v ≡ map cosine_hit best) _ valid (validate_hits_same _) ran in
              rw same (
                All-map_of (λ (hit : SearchHit). Listed search.scope search.limit.state hit.memory)
                    (ListedPair search) cosine_hit best (λ pair p. p) all,
                bounded,
              ))))
        h

  abbrev pub repository : AsyncRepository
  repository = record {
    State = AsyncStore;
    add = add;
    get = get;
    get_with_vector = get_with_vector;
    update = update;
    list = list;
    find_by_normalized_content = find_by_normalized_content;
    search_vector = search_vector cosine;
  }

  -- The repository in memory keeps to the protocol.
  abbrev pub laws : AsyncLaws repository
  laws = record {
    items = λ s. s.items;
    get_items = get_items;
    get_with_vector_items = get_with_vector_items;
    add_items = add_items;
    update_items = update_items;
    find_items = find_items;
    find_none_items = find_none_items;
    list_items = list_items;
    search_items = search_items;
  }
