-- ===== src/Linking/EventPool/Phases.antt =====
-- The phases that fill the event pool of src/evoeventmem/linking.py, and what the pool holds at last.
use evoeventmem.Prelude.{
  ℕ, ◌-◌, ◌≡◌, ◌≤◌, refl, sym, ap, ◌∙◌, String, Bool, true, Option, none, some, List, [], ◌∷◌, All,
  All-imp, All-take, nat_eq, string_eq, Bool-cases, inl, inr, contains, take, ltb, length,
  length-take-le,
}
use mathlib.Core.Path.{subst}
use evoeventmem.Prelude.Dict
use evoeventmem.Prelude.Dict.{values, All-values}
use evoeventmem.Prelude.Sort.{sort, All-sort}
use evoeventmem.Domain.Models.{MemoryRecord}
use evoeventmem.Domain.Order.{tuple_lt}
use evoeventmem.Linking.Types.{
  LinkCandidateGenerator, CandidateGenerationRequest, EmbeddingCandidateIndex, shared_entity_key,
  lexical_token_match, embedding_index_candidate, stable_fallback,
}
use evoeventmem.Linking.Keys.{
  normalized_linking_key, entity_key_sets, linking_tokens, fact_slot_key,
}
use evoeventmem.Linking.Indexes.{RequestIndexes, posting, build_request_indexes}
use evoeventmem.Linking.Indexes.Filed.{All-contains}
use evoeventmem.Linking.Indexes.Sound.{Target, HasToken, HasKey, IsEventIndex}
use evoeventmem.Linking.Indexes.Admitted.{Admitted, build_request_indexes-IsSound}
use evoeventmem.Linking.Pool.{for_until, for_until-keeps, sorted_texts}
use evoeventmem.Linking.EventPool.{
  EventPool, by_entity_key, add_found, add_target, by_index, by_token, by_fallback, phases,
  fill_phases, event_pool_lt, finalize_event_pool, event_comparison_pool,
}
use evoeventmem.Linking.EventPool.Sound.{
  some-injective, Entry, IsSound, Filled, Suits, Justified, IsSound-add_event_pool_item,
  IsSound-fill_event_pool, IsSound-by_slot, IsSound-by_content,
}

-- A sorted set has the elements of the set.
pub All-sorted_texts :
    (texts : List String) → All (λ x. contains x texts ≡ true) (sorted_texts texts)
All-sorted_texts texts =
    All-sort (λ a b. tuple_lt (a ∷ []) (b ∷ [])) (λ x. contains x texts ≡ true) texts
      (All-contains texts)

All-any : (xs : List ℕ) → All (λ x. Unit {0}) xs
All-any [] = tt
All-any (x ∷ xs) = (tt, All-any xs)

module _ (self : LinkCandidateGenerator) (request : CandidateGenerationRequest) (limit : ℕ) where
  abbrev indexes : RequestIndexes
  indexes = build_request_indexes self request

  filed : IsEventIndex self request (Admitted self request) indexes
  filed = (build_request_indexes-IsSound self request).1

  IsSound-by_entity_keys :
      (pool : EventPool)
      → IsSound self request pool
      → Filled self request (
          for_until
            (by_entity_key self request.source limit indexes)
            (sorted_texts (entity_key_sets self request.source))
            pool)
  IsSound-by_entity_keys pool h =
      let keys = entity_key_sets self request.source in
      for_until-keeps (λ key. contains key keys ≡ true) (IsSound self request)
        (by_entity_key self request.source limit indexes)
        (λ key s has k.
          IsSound-fill_event_pool self request limit shared_entity_key
            (posting indexes.event_entity_key_index key) s
            (All-imp (HasKey self request (Admitted self request) key)
              (Suits self request shared_entity_key) (posting indexes.event_entity_key_index key)
              (λ m h'. (h'.0, (key, has, h'.1))) (filed.keys key))
            k)
        (sorted_texts keys) pool (All-sorted_texts keys) h

  -- The candidate index finds targets of the request only: the lookup by id never fails.
  IsSound-add_found :
      (id : ℕ) (o : Option MemoryRecord) (pool : EventPool)
      → Dict.get indexes.targets_by_id id ≡ o
      → contains id indexes.event_target_ids ≡ true
      → IsSound self request pool
      → Filled self request (add_found self request.source limit indexes o pool)
  IsSound-add_found id none pool e there h = h
  IsSound-add_found id (some t) pool e there h =
      let (m, same, target) = filed.ids id there in
      let found : some m ≡ some t = sym target.0.1 ∙ ap (Dict.get indexes.targets_by_id) same ∙ e in
      IsSound-add_event_pool_item self request t embedding_index_candidate pool
        (subst (Target self request (Admitted self request)) (some-injective m t found) target) tt h

  IsSound-add_target :
      (id : ℕ) (pool : EventPool)
      → IsSound self request pool
      → Filled self request (add_target self request.source limit indexes id pool)
  IsSound-add_target id pool h = elim (Bool-cases (contains id indexes.event_target_ids)) [
    | inl yields ↦
        rw yields (IsSound-add_found id (Dict.get indexes.targets_by_id id) pool refl yields h)
    | inr fails ↦ rw fails h
  ]

  IsSound-by_index :
      (index : Option EmbeddingCandidateIndex) (pool : EventPool)
      → IsSound self request pool
      → Filled self request (by_index self request.source limit indexes index pool)
  unfolding by_index
  IsSound-by_index none pool h = h
  IsSound-by_index (some index) pool h =
      let remaining = limit - length pool in
      let targets =
        take remaining (index.query_event_candidates request.source.content remaining) in
      elim (Bool-cases (ltb 0 remaining)) [
        | inl yields ↦ rw yields (
            for_until-keeps (λ id. Unit {0}) (IsSound self request)
              (add_target self request.source limit indexes)
              (λ id s any k. IsSound-add_target id s k) targets pool (All-any targets) h)
        | inr fails ↦ rw fails h
      ]

  IsSound-by_token :
      (pool : EventPool)
      → IsSound self request pool
      → Filled self request (
          for_until
            (by_token self request.source limit indexes)
            (sorted_texts
              (linking_tokens self (normalized_linking_key self request.source.content)))
            pool)
  IsSound-by_token pool h =
      let tokens = linking_tokens self (normalized_linking_key self request.source.content) in
      for_until-keeps (λ token. contains token tokens ≡ true) (IsSound self request)
        (by_token self request.source limit indexes)
        (λ token s has k.
          IsSound-fill_event_pool self request limit lexical_token_match
            (posting indexes.event_token_index token) s
            (All-imp (HasToken self request (Admitted self request) token)
              (Suits self request lexical_token_match) (posting indexes.event_token_index token)
              (λ m h'. (h'.0, (token, has, h'.1))) (filed.tokens token))
            k)
        (sorted_texts tokens) pool (All-sorted_texts tokens) h

  IsSound-by_fallback :
      (pool : EventPool)
      → IsSound self request pool
      → Filled self request (by_fallback self request.source limit indexes pool)
  IsSound-by_fallback pool h =
      IsSound-fill_event_pool self request limit stable_fallback indexes.event_targets pool
        (All-imp (Target self request (Admitted self request)) (Suits self request stable_fallback)
          indexes.event_targets (λ m t. (t, tt)) filed.events)
        h

  -- A phase that keeps the pool sound.
  abbrev Keeps : (EventPool → EventPool × Bool) → Type 0
  Keeps phase = (pool : EventPool) → IsSound self request pool → Filled self request (phase pool)

  IsSound-fill_phases : IsSound self request (fill_phases self request.source limit indexes)
  unfolding fill_phases phases
  IsSound-fill_phases =
      for_until-keeps Keeps (IsSound self request) (λ phase. phase) (λ phase s k h. k s h)
        (phases self request.source limit indexes) []
        (
          λ s h.
              IsSound-by_slot self request limit indexes filed (fact_slot_key self request.source) s
                refl h,
          (
            IsSound-by_content self request limit indexes filed,
            (
              IsSound-by_entity_keys,
              (
                IsSound-by_index self.candidate_index,
                (IsSound-by_token, (IsSound-by_fallback, tt)),
              ),
            ),
          ),
        )
        tt

module _ (self : LinkCandidateGenerator) (request : CandidateGenerationRequest) where
  -- What is compared: at most `max_event_candidates` targets, each with reasons that hold of it.
  pub event_comparison_pool-Justified :
      All
        (Justified self request)
        (event_comparison_pool self request (build_request_indexes self request))
      × (length (event_comparison_pool self request (build_request_indexes self request))
          ≤ request.max_event_candidates)
  unfolding event_comparison_pool finalize_event_pool
  event_comparison_pool-Justified =
      let limit = request.max_event_candidates in
      let filled = fill_phases self request.source limit (build_request_indexes self request) in
      let items = values filled in
      let J = Justified self request in
      (
        All-take J limit (sort (event_pool_lt self) items) (
            All-sort (event_pool_lt self) J items (
              All-values (Entry self request) J filled (λ k v entry. entry.1)
                (IsSound-fill_phases self request limit))),
        length-take-le limit (sort (event_pool_lt self) items),
      )
