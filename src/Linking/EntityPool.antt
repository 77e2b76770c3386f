-- ===== src/Linking/EntityPool.antt =====
-- `_entity_comparison_pool` of src/evoeventmem/linking.py. Each return is `_finalize_entity_pool` of the
-- pool, so a phase that returns stops the later ones.
pub mod Sound
pub mod Phases
use evoeventmem.Prelude.{
  ℕ, ◌+◌, ◌-◌, String, Bool, true, false, Option, none, some, List, [], ◌∷◌, ◌&&◌, ◌||◌, not, ltb,
  leb, ◌==◌, nat_eq, string_eq, pair_eq, list_eq, length, take, min, if◌then◌else◌,
}
use evoeventmem.Prelude.Dict
use evoeventmem.Prelude.Dict.{Dict, values}
use evoeventmem.Prelude.Sort.{sort}
use evoeventmem.Domain.Models.{MemoryRecord, EntityRef, nonempty}
use evoeventmem.Domain.Order.{tuple_lt}
use evoeventmem.Etec.Math.{as_set}
use evoeventmem.Linking.Types.{
  LinkCandidateGenerator, CandidateGenerationRequest, EmbeddingCandidateIndex,
  EntityCandidateTargetRef, Reason, exact_normalized_entity_key, alias_match, lexical_token_match,
  embedding_index_candidate, stable_fallback,
}
use evoeventmem.Linking.Keys.{normalized_linking_key, entity_keys, linking_tokens, entity_identity}
use evoeventmem.Linking.Indexes.{EntityIndexEntry, RequestIndexes, posting, tokens_of_keys}
use evoeventmem.Linking.Pool.{
  for_until, add_reason, reason_priority, sorted_texts, then_by, tuple_then_by,
}

-- `_EntityPoolItem`
pub record EntityPoolItem : Type 0 where
  pub source_position : ℕ
  pub source_entity : EntityRef
  pub target : EntityIndexEntry
  pub reasons : List Reason

abbrev pub EntityPool : Type 0
EntityPool = Dict (ℕ × List String) EntityPoolItem

-- `enumerate`, from a position on
unfoldable pub enumerate : ℕ → List EntityRef → List (ℕ × EntityRef)
enumerate position [] = []
enumerate position (entity ∷ entities) = (position, entity) ∷ enumerate (position + 1) entities

abbrev pub or_new : ℕ → EntityRef → EntityIndexEntry → Option EntityPoolItem → EntityPoolItem
or_new source_position source_entity target (some item) = item
or_new source_position source_entity target none = record {
  source_position = source_position;
  source_entity = source_entity;
  target = target;
  reasons = [];
}

-- `_add_entity_pool_item`
unfoldable pub add_entity_pool_item :
    ℕ → EntityRef → EntityIndexEntry → Reason → EntityPool → EntityPool
add_entity_pool_item source_position source_entity target reason pool =
    let key : ℕ × List String = (source_position, target.stable_key) in
    let item = or_new source_position source_entity target (Dict.get pool key) in
    Dict.put pool key (record item { reasons = add_reason reason item.reasons })

-- One round of a loop over entries, and whether the pool is full then.
abbrev pub add_and_test :
    ℕ
    → ℕ × EntityRef
    → (EntityIndexEntry → Reason)
    → EntityIndexEntry
    → EntityPool
    → EntityPool × Bool
add_and_test limit (source_position, source_entity) reason entry pool =
    let pool' = add_entity_pool_item source_position source_entity entry (reason entry) pool in
    (pool', leb limit (length pool'))

-- `_fill_entity_pool`, with a reason for each entry
unfoldable pub fill_entity_pool :
    ℕ
    → ℕ × EntityRef
    → (EntityIndexEntry → Reason)
    → List EntityIndexEntry
    → EntityPool
    → EntityPool × Bool
fill_entity_pool limit source reason entries =
    for_until (add_and_test limit source reason) (take limit entries)

module _ (self : LinkCandidateGenerator) where
  -- The order of the source entities.
  abbrev pub source_lt : ℕ × EntityRef → ℕ × EntityRef → Bool
  source_lt (i, a) (j, b) =
      tuple_then_by (entity_identity self a) (entity_identity self b) (ltb i j)

  abbrev pub source_entities : MemoryRecord → List (ℕ × EntityRef)
  source_entities source = sort source_lt (enumerate 0 source.entities)

  -- The reasons of `_entity_pool_sort_key`, in their order.
  abbrev pub pool_reasons : List Reason
  pool_reasons =
      exact_normalized_entity_key ∷ alias_match ∷ lexical_token_match ∷ embedding_index_candidate
      ∷ stable_fallback ∷ []

  -- `_entity_pool_sort_key`
  unfoldable pub entity_pool_lt : EntityPoolItem → EntityPoolItem → Bool
  entity_pool_lt a b =
      let p = reason_priority a.reasons pool_reasons in
      let q = reason_priority b.reasons pool_reasons in
      then_by (ltb p q) (ltb q p) (
        tuple_then_by (entity_identity self a.source_entity) (entity_identity self b.source_entity)
          (then_by (ltb a.source_position b.source_position)
            (ltb b.source_position a.source_position)
            (tuple_lt a.target.stable_key b.target.stable_key)))

  -- `_finalize_entity_pool`
  unfoldable pub finalize_entity_pool : ℕ → EntityPool → List EntityPoolItem
  finalize_entity_pool limit pool = take limit (sort entity_pool_lt (values pool))

  module _ (source : MemoryRecord) (limit : ℕ) (indexes : RequestIndexes) where
    unfoldable pub by_name : ℕ × EntityRef → EntityPool → EntityPool × Bool
    by_name (i, entity) pool =
        let name_key = normalized_linking_key self entity.name in
        if nonempty name_key
        then fill_entity_pool limit (i, entity) (λ entry. exact_normalized_entity_key)
            (posting indexes.entity_name_index name_key) pool
        else (pool, false)

    abbrev pub key_reason : EntityRef → EntityIndexEntry → Reason
    key_reason entity entry =
        if normalized_linking_key self entity.name == entry.name_key
        then exact_normalized_entity_key
        else alias_match

    abbrev pub by_key : ℕ × EntityRef → String → EntityPool → EntityPool × Bool
    by_key (i, entity) key =
        fill_entity_pool limit (i, entity) (key_reason entity)
          (posting indexes.entity_key_index key)

    unfoldable pub by_keys : ℕ × EntityRef → EntityPool → EntityPool × Bool
    by_keys (i, entity) =
        for_until (by_key (i, entity)) (sorted_texts (entity_keys self source entity))

    -- A reference of the candidate index; one that is not in the request is skipped.
    abbrev pub add_found : ℕ × EntityRef → Option EntityIndexEntry → EntityPool → EntityPool × Bool
    add_found (i, entity) none pool = (pool, false)
    add_found (i, entity) (some entry) pool =
        add_and_test limit (i, entity) (λ entry. embedding_index_candidate) entry pool

    abbrev pub add_ref : ℕ × EntityRef → EntityCandidateTargetRef → EntityPool → EntityPool × Bool
    add_ref source_entity ref =
        add_found source_entity
          (Dict.get indexes.entity_ref_index (ref.memory_id, ref.entity_position))

    -- One query: the pool, with the results and the queries that remain; true stops the loop.
    unfoldable pub query_entity :
        EmbeddingCandidateIndex
        → ℕ × EntityRef
        → EntityPool × (ℕ × ℕ)
        → (EntityPool × (ℕ × ℕ)) × Bool
    query_entity index (i, entity) (pool, (results, queries)) =
        let query_limit = min (limit - length pool) results in
        let refs = take query_limit (index.query_entity_candidates entity.name query_limit) in
        let pool' = (for_until (add_ref (i, entity)) refs pool).0 in
        if leb limit (length pool) || results == 0 || queries == 0
        then ((pool, (results, queries)), true)
        else ((pool', (results - length refs, queries - 1)), false)

    unfoldable pub by_index : Option EmbeddingCandidateIndex → EntityPool → EntityPool × Bool
    by_index none pool = (pool, false)
    by_index (some index) pool =
        let pool' =
          (for_until (query_entity index) (source_entities source) (pool, (limit, limit))).0.0 in
        (pool', leb limit (length pool'))

    abbrev pub by_token : ℕ × EntityRef → String → EntityPool → EntityPool × Bool
    by_token source_entity token =
        fill_entity_pool limit source_entity (λ entry. lexical_token_match)
          (posting indexes.entity_token_index token)

    unfoldable pub by_tokens : ℕ × EntityRef → EntityPool → EntityPool × Bool
    by_tokens (i, entity) =
        for_until (by_token (i, entity))
          (sorted_texts (as_set (tokens_of_keys self (entity_keys self source entity))))

    abbrev pub by_fallback : ℕ × EntityRef → EntityPool → EntityPool × Bool
    by_fallback source_entity =
        fill_entity_pool limit source_entity (λ entry. stable_fallback) indexes.entity_entries

    -- The phases, each unless the pool is full.
    unfoldable pub phases : List (EntityPool → EntityPool × Bool)
    phases =
        let entities = source_entities source in
        for_until by_name entities
        ∷ for_until by_keys entities
        ∷ by_index self.candidate_index
        ∷ for_until by_tokens entities
        ∷ for_until by_fallback entities
        ∷ []

    unfoldable pub fill_phases : EntityPool
    fill_phases = (for_until (λ phase. phase) phases []).0

  -- `_entity_comparison_pool`
  unfoldable pub entity_comparison_pool :
      CandidateGenerationRequest → RequestIndexes → List EntityPoolItem
  entity_comparison_pool request indexes =
      let limit = request.max_entity_candidates in
      finalize_entity_pool limit (fill_phases request.source limit indexes)
