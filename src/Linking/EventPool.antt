-- ===== src/Linking/EventPool.antt =====
-- `_event_comparison_pool` of src/evoeventmem/linking.py. Each return is `_finalize_event_pool` of the
-- pool, so a phase that returns stops the later ones.
pub mod Sound
pub mod Phases
use evoeventmem.Prelude.{
  ℕ, ◌-◌, String, Bool, true, false, Option, none, some, List, [], ◌∷◌, ltb, leb, ◌==◌, nat_eq,
  contains, length, take, if◌then◌else◌,
}
use evoeventmem.Prelude.Dict
use evoeventmem.Prelude.Dict.{Dict, values}
use evoeventmem.Prelude.Sort.{sort}
use evoeventmem.Domain.Models.{MemoryRecord, nonempty}
use evoeventmem.Domain.Order.{tuple_lt}
use evoeventmem.Linking.Types.{
  LinkCandidateGenerator, CandidateGenerationRequest, EmbeddingCandidateIndex, Reason,
  fact_slot_match, exact_normalized_content, shared_entity_key, lexical_token_match,
  embedding_index_candidate, stable_fallback, within_time_window, time_unbounded,
}
use evoeventmem.Linking.Keys.{
  normalized_linking_key, entity_key_sets, linking_tokens, fact_slot_key, time_delta_days, is_event,
}
use evoeventmem.Linking.Indexes.{RequestIndexes, posting}
use evoeventmem.Linking.Pool.{for_until, add_reason, reason_priority, sorted_texts, then_by}

-- `_EventPoolItem`
pub record EventPoolItem : Type 0 where
  pub target : MemoryRecord
  pub reasons : List Reason

abbrev pub EventPool : Type 0
EventPool = Dict ℕ EventPoolItem

abbrev pub or_new : MemoryRecord → Option EventPoolItem → EventPoolItem
or_new target (some item) = item
or_new target none = record { target = target; reasons = [] }

abbrev pub time_reason : Option ℕ → Reason
time_reason none = time_unbounded
time_reason (some days) = within_time_window

-- The reason of the time, for an event.
abbrev pub add_time_reason : MemoryRecord → MemoryRecord → List Reason → List Reason
add_time_reason source target reasons =
    if is_event target.memory_kind
    then add_reason (time_reason (time_delta_days source target)) reasons
    else reasons

-- `_add_event_pool_item`
unfoldable pub add_event_pool_item : MemoryRecord → MemoryRecord → Reason → EventPool → EventPool
add_event_pool_item source target reason pool =
    let item = or_new target (Dict.get pool target.memory_id) in
    Dict.put pool target.memory_id
      (record item { reasons = add_time_reason source target (add_reason reason item.reasons) })

-- One round of a loop over targets, and whether the pool is full then.
abbrev pub add_and_test : ℕ → MemoryRecord → Reason → MemoryRecord → EventPool → EventPool × Bool
add_and_test limit source reason target pool =
    let pool' = add_event_pool_item source target reason pool in (pool', leb limit (length pool'))

-- `_fill_event_pool`
unfoldable pub fill_event_pool :
    ℕ → MemoryRecord → Reason → List MemoryRecord → EventPool → EventPool × Bool
fill_event_pool limit source reason targets =
    for_until (add_and_test limit source reason) (take limit targets)

-- The reasons of `_event_pool_sort_key`, in their order.
abbrev pub pool_reasons : List Reason
pool_reasons =
    fact_slot_match ∷ exact_normalized_content ∷ shared_entity_key ∷ lexical_token_match
    ∷ embedding_index_candidate ∷ stable_fallback ∷ []

module _ (self : LinkCandidateGenerator) where
  -- `_event_pool_sort_key`
  unfoldable pub event_pool_lt : EventPoolItem → EventPoolItem → Bool
  event_pool_lt a b =
      let p = reason_priority a.reasons pool_reasons in
      let q = reason_priority b.reasons pool_reasons in
      then_by (ltb p q) (ltb q p) (
        tuple_lt (self.platform.uuid_str a.target.memory_id ∷ [])
          (self.platform.uuid_str b.target.memory_id ∷ []))

  -- `_finalize_event_pool`
  unfoldable pub finalize_event_pool : ℕ → EventPool → List EventPoolItem
  finalize_event_pool limit pool = take limit (sort event_pool_lt (values pool))

  module _ (source : MemoryRecord) (limit : ℕ) (indexes : RequestIndexes) where
    -- The targets with the fact slot of the source, if it has one.
    abbrev pub by_slot : Option String → EventPool → EventPool × Bool
    by_slot none pool = (pool, false)
    by_slot (some slot) pool =
        fill_event_pool limit source fact_slot_match (posting indexes.fact_slot_index slot) pool

    abbrev pub by_content : String → EventPool → EventPool × Bool
    by_content content_key pool =
        if nonempty content_key
        then fill_event_pool limit source exact_normalized_content
            (posting indexes.event_content_index content_key) pool
        else (pool, false)

    abbrev pub by_entity_key : String → EventPool → EventPool × Bool
    by_entity_key key =
        fill_event_pool limit source shared_entity_key (posting indexes.event_entity_key_index key)

    -- A target of the candidate index; one that is not among the events of the request is skipped.
    abbrev pub add_found : Option MemoryRecord → EventPool → EventPool × Bool
    add_found none pool = (pool, false)
    add_found (some target) pool = add_and_test limit source embedding_index_candidate target pool

    abbrev pub add_target : ℕ → EventPool → EventPool × Bool
    add_target target_id pool =
        if contains target_id indexes.event_target_ids
        then add_found (Dict.get indexes.targets_by_id target_id) pool
        else (pool, false)

    unfoldable pub by_index : Option EmbeddingCandidateIndex → EventPool → EventPool × Bool
    by_index none pool = (pool, false)
    by_index (some index) pool =
        let remaining = limit - length pool in
        let targets = take remaining (index.query_event_candidates source.content remaining) in
        let pool' = (for_until add_target targets pool).0 in
        let pool'' = if ltb 0 remaining then pool' else pool in (pool'', leb limit (length pool''))

    abbrev pub by_token : String → EventPool → EventPool × Bool
    by_token token =
        fill_event_pool limit source lexical_token_match (posting indexes.event_token_index token)

    abbrev pub by_fallback : EventPool → EventPool × Bool
    by_fallback = fill_event_pool limit source stable_fallback indexes.event_targets

    -- The phases, each unless the pool is full.
    unfoldable pub phases : List (EventPool → EventPool × Bool)
    phases =
        let content_key = normalized_linking_key self source.content in
        by_slot (fact_slot_key self source)
        ∷ by_content content_key
        ∷ for_until by_entity_key (sorted_texts (entity_key_sets self source))
        ∷ by_index self.candidate_index
        ∷ for_until by_token (sorted_texts (linking_tokens self content_key))
        ∷ by_fallback
        ∷ []

    unfoldable pub fill_phases : EventPool
    fill_phases = (for_until (λ phase. phase) phases []).0

  -- `_event_comparison_pool`
  unfoldable pub event_comparison_pool :
      CandidateGenerationRequest → RequestIndexes → List EventPoolItem
  event_comparison_pool request indexes =
      let limit = request.max_event_candidates in
      finalize_event_pool limit (fill_phases request.source limit indexes)
