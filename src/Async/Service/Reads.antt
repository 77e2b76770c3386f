-- ===== src/Async/Service/Reads.antt =====
-- What `search` and `explain` of `AsyncMemoryService` show.
use evoeventmem.Prelude.{
  ℕ, String, ◌≡◌, ◌≤◌, ◌<◌, refl, true, false, Option, none, some, List, All, All-both, All-map,
  All-map_of, All-take, All-select, select_passes, select, map, take, length, length-map,
  length-take-le, contains, arith, nat_eq, string_eq, option_eq, Bool-cases, inl, inr, ◌⊎◌, sym,
  length-select-le,
}
use evoeventmem.Prelude.Dict
use evoeventmem.Prelude.Sort.{sort, All-sort}
use evoeventmem.Result.{ok, Ensures, Ensures-bind, Ensures-of, ensured}
use evoeventmem.Domain.Models.{MemoryRecord, linked_ids, is_deleted}
use evoeventmem.Rules.Scope.{RequestScope, scope_matches}
use evoeventmem.Service.Single.{MemoryExplainResult}
use evoeventmem.Service.Search as TokenSearch
use evoeventmem.Async.Types.{active_only, all, SearchHit}
use evoeventmem.Async.Port.{AsyncRepository, AsyncLaws, visible_in, Listed}
use evoeventmem.Async.Service.{
  AsyncMemoryService, is_related, explain_found, explain, overlap_hit, overlaps,
  search_token_overlap, search_by_vector, search, require_embedding,
}

module _ (self : AsyncMemoryService) (r : AsyncRepository) (laws : AsyncLaws r) (s : r.State)
    (scope : RequestScope) where
  -- What a search returns: at most `limit` hits, each of an active record of the scope.
  abbrev pub Shown : ℕ → List SearchHit → Type 0
  Shown limit hits =
      All (λ (hit : SearchHit). Listed scope active_only hit.memory) hits × (length hits ≤ limit)

  -- The hits of the development baseline say that they are degraded.
  abbrev pub Degraded : List SearchHit → Type 0
  Degraded hits = All (λ (hit : SearchHit). hit.fallback ≡ true) hits

  abbrev Baseline : ℕ → List SearchHit → Type 0
  Baseline limit hits = Shown limit hits × Degraded hits

  Baseline-search_token_overlap :
      (query : String) (limit : ℕ)
      → Ensures (Baseline limit) (search_token_overlap self r s scope query limit)
  unfolding search_token_overlap overlap_hit TokenSearch.hit
  Baseline-search_token_overlap query limit =
      Ensures-bind (Baseline limit) (r.list s scope _) _ λ scoped ran.
        let P = λ (hit : TokenSearch.SearchHit). Listed scope active_only hit.memory in
        let kept = select (overlaps self.platform query) scoped in
        let hits = map (TokenSearch.hit self.platform query) kept in
        let best = take limit (sort (TokenSearch.hit_lt self.platform) hits) in
        let listed = (laws.list_items s scope _ scoped ran).0 in
        let all : All P best = All-take P limit (sort (TokenSearch.hit_lt self.platform) hits) (
          All-sort (TokenSearch.hit_lt self.platform) P hits (
            All-map_of P (Listed scope active_only) (TokenSearch.hit self.platform query) kept
              (λ m h. h)
              (All-select (overlaps self.platform query) (Listed scope active_only) scoped
                listed))) in
        let bounded : length (map overlap_hit best) ≤ limit = omega (
          arith,
          length-map overlap_hit best,
          length-take-le limit (sort (TokenSearch.hit_lt self.platform) hits),
        ) in
        (
          (
            All-map_of (λ (hit : SearchHit). Listed scope active_only hit.memory) P overlap_hit best
                (λ hit h. h) all,
            bounded,
          ),
          All-map (λ (hit : SearchHit). hit.fallback ≡ true) overlap_hit best (λ hit. refl),
        )

  Shown-search_by_vector :
      (query : String) (limit : ℕ)
      → Ensures (Shown limit) (search_by_vector self r s scope query limit)
  unfolding search_by_vector
  Shown-search_by_vector query limit =
      Ensures-bind (Shown limit)
        (require_embedding "no embedding model configured for vector search" self.embedding) _
        λ embedding _. Ensures-bind (Shown limit) (embedding.embed_query query) _ λ query_vector _.
          Ensures-of (Shown limit) (r.search_vector s _) λ hits ran. laws.search_items s _ hits ran

  -- What a search ensures of its hits.
  abbrev pub Found : ℕ → List SearchHit → Type 0
  Found limit hits =
      (0 < limit) × Shown limit hits × (self.token_overlap_policy ≡ true → Degraded hits)

  -- A search that succeeds was asked for at least one hit and returns at most as many as it was asked
  -- for, each of an active record of the scope; under the development policy each of them says that it is
  -- a fallback.
  pub search_async_lem :
      (query : String) (limit : ℕ) (hits : List SearchHit)
      → search self r s scope query limit ≡ ok hits
      → Found limit hits
  unfolding search
  search_async_lem query limit hits ran =
      let some_limit : 0 < limit = ground arith in
      elim (Bool-cases self.token_overlap_policy) [
        | inl on ↦
            let ran' : search_token_overlap self r s scope query limit ≡ ok hits = ground arith in
            let (shown, degraded) =
              ensured (Baseline limit) _ hits (Baseline-search_token_overlap query limit) ran' in
            (some_limit, shown, λ _. degraded)
        | inr off ↦
            let ran' : search_by_vector self r s scope query limit ≡ ok hits = ground arith in
            let shown = ensured (Shown limit) _ hits (Shown-search_by_vector query limit) ran' in
            (some_limit, shown, λ on. absurd (cc))
      ]

  -- A linked record that is shown: of the scope, and not deleted.
  abbrev pub Related : MemoryRecord → MemoryRecord → Type 0
  Related m x =
      (scope_matches x scope ≡ true)
      × (is_deleted x.status ≡ false)
      × (contains x.memory_id (linked_ids m) ≡ true)

  abbrev pub Explained : ℕ → Option MemoryExplainResult → Type 0
  Explained id found =
      ((found ≡ none) × (visible_in scope (Dict.get (laws.items s) id) ≡ none))
      ⊎ ((e : MemoryExplainResult) × (found ≡ some e)
          × (visible_in scope (Dict.get (laws.items s) id) ≡ some e.memory)
          × All (Related e.memory) e.related
          × (length e.related ≤ 1000))

  All-Related :
      (m : MemoryRecord) (xs : List MemoryRecord)
      → All (Listed scope all) xs
      → All (Related m) (select (is_related m) xs)
  All-Related m xs h =
      All-both (Listed scope all) (λ x. is_related m x ≡ true) (Related m)
        (select (is_related m) xs) (λ x l k. (l.0, ground arith, ground arith))
        (All-select (is_related m) (Listed scope all) xs h) (select_passes (is_related m) xs)

  Explained-found :
      (id : ℕ) (found : Option MemoryRecord)
      → found ≡ visible_in scope (Dict.get (laws.items s) id)
      → Ensures (Explained id) (explain_found self r s scope found)
  Explained-found id none h = inl (refl, sym h)
  Explained-found id (some m) h = Ensures-bind (Explained id) (r.list s scope _) _ λ scoped ran.
      let (listed, bounded) = laws.list_items s scope _ scoped ran in
      inr (
        record { memory = m; related = select (is_related m) scoped },
        refl,
        sym h,
        All-Related m scoped listed,
        omega (arith, length-select-le (is_related m) scoped, bounded),
      )

  -- An explanation that succeeds shows the record of the scope under the id, if there is one, with
  -- linked records of the scope that are not deleted, at most 1000 of them, and nothing else.
  pub explain_async_lem :
      (id : ℕ) (found : Option MemoryExplainResult)
      → explain self r s scope id ≡ ok found
      → Explained id found
  unfolding explain
  explain_async_lem id found ran =
      ensured (Explained id) _ found
        (Ensures-bind (Explained id) (r.get s scope id) _
          λ got there. Explained-found id got (laws.get_items s scope id got there))
        ran
