-- ===== src/Linking/EventPool/Sound.antt =====
-- What the items of the event pool of src/evoeventmem/linking.py say of their targets.
use mathlib.Core.Path.{subst}
use evoeventmem.Prelude.{
  ℕ, ◌≡◌, refl, sym, ap, ◌∙◌, String, Bool, true, Option, none, some, List, All, All-imp, All-take,
  nat_eq, string_eq, Bool-cases, inl, inr, contains, take,
}
use evoeventmem.Prelude.Dict
use evoeventmem.Prelude.Dict.{All-put, All-get}
use evoeventmem.Domain.Models.{MemoryRecord, nonempty}
use evoeventmem.Linking.Types.{
  LinkCandidateGenerator, CandidateGenerationRequest, Reason, fact_slot_match,
  exact_normalized_content, shared_entity_key, lexical_token_match, within_time_window,
  time_unbounded, embedding_similarity, reason_eq,
}
use evoeventmem.Linking.Keys.{
  normalized_linking_key, entity_key_sets, linking_tokens, fact_slot_key, time_delta_days, is_event,
}
use evoeventmem.Linking.Indexes.{RequestIndexes, posting, build_request_indexes}
use evoeventmem.Linking.Indexes.Sound.{Target, HasSlot, HasContent, IsEventIndex}
use evoeventmem.Linking.Indexes.Admitted.{Admitted}
use evoeventmem.Linking.Pool.{for_until-keeps, add_reason}
use evoeventmem.Linking.EventPool.{
  EventPoolItem, EventPool, or_new, time_reason, add_time_reason, add_event_pool_item, add_and_test,
  fill_event_pool, by_slot, by_content,
}

module _ (self : LinkCandidateGenerator) (source : MemoryRecord) where
  -- What a reason claims of the source and a target, before their similarity is known.
  abbrev pub Explains : MemoryRecord → Reason → Type 0
  Explains m fact_slot_match =
      (slot : String) × (fact_slot_key self source ≡ some slot) × (fact_slot_key self m ≡ some slot)
  Explains m exact_normalized_content =
      normalized_linking_key self m.content ≡ normalized_linking_key self source.content
  Explains m shared_entity_key =
      (key : String) × (contains key (entity_key_sets self source) ≡ true)
      × (contains key (entity_key_sets self m) ≡ true)
  Explains m lexical_token_match =
      (token : String) × (contains token
          (linking_tokens self (normalized_linking_key self source.content))
        ≡ true)
      × (contains token (linking_tokens self (normalized_linking_key self m.content)) ≡ true)
  Explains m within_time_window = (days : ℕ) × (time_delta_days source m ≡ some days)
  Explains m time_unbounded = time_delta_days source m ≡ none
  Explains m embedding_similarity = ⊥
  Explains m _ = Unit

  abbrev pub Explained : MemoryRecord → List Reason → Type 0
  Explained m = All (Explains m)

  pub Explained-add_reason :
      (m : MemoryRecord) (reason : Reason) (reasons : List Reason)
      → Explains m reason
      → Explained m reasons
      → Explained m (add_reason reason reasons)
  unfolding add_reason
  Explained-add_reason m reason reasons p h = elim (Bool-cases (contains reason reasons)) [
    | inl there ↦ rw there h
    | inr new ↦ rw new (p, h)
  ]

  Explains-time_reason :
      (m : MemoryRecord) (delta : Option ℕ)
      → time_delta_days source m ≡ delta
      → Explains m (time_reason delta)
  Explains-time_reason m none h = h
  Explains-time_reason m (some days) h = (days, h)

  Explained-add_time_reason :
      (m : MemoryRecord) (reasons : List Reason)
      → Explained m reasons
      → Explained m (add_time_reason source m reasons)
  Explained-add_time_reason m reasons h = elim (Bool-cases (is_event m.memory_kind)) [
    | inl event ↦ rw event (
        Explained-add_reason m (time_reason (time_delta_days source m)) reasons
          (Explains-time_reason m (time_delta_days source m) refl) h)
    | inr other ↦ rw other h
  ]

pub some-injective : (a b : MemoryRecord) → some a ≡ some b → a ≡ b
some-injective a b h = cc

module _ (self : LinkCandidateGenerator) (request : CandidateGenerationRequest) where
  -- A target with reasons that hold of it.
  abbrev pub Justified : EventPoolItem → Type 0
  Justified item =
      Target self request (Admitted self request) item.target
      × Explained self request.source item.target item.reasons

  abbrev pub Entry : ℕ × EventPoolItem → Type 0
  Entry (id, item) = (item.target.memory_id ≡ id) × Justified item

  abbrev pub IsSound : EventPool → Type 0
  IsSound pool = All Entry pool

  abbrev pub Filled : EventPool × Bool → Type 0
  Filled r = IsSound r.0

  -- An item that is there already has the same target, since the targets have different ids.
  Justified-or_new :
      (m : MemoryRecord) (o : Option EventPoolItem)
      → Target self request (Admitted self request) m
      → ((item : EventPoolItem) → o ≡ some item → Entry (m.memory_id, item))
      → ((or_new m o).target ≡ m) × Explained self request.source m (or_new m o).reasons
  Justified-or_new m none t h = (refl, tt)
  Justified-or_new m (some item) t h =
      let (same_id, ((admitted, time), reasons)) = h item refl in
      let known = (build_request_indexes self request).targets_by_id in
      let same : item.target ≡ m =
        some-injective item.target m (sym admitted.1 ∙ ap (Dict.get known) same_id ∙ t.0.1) in
      (same, subst (λ x. Explained self request.source x item.reasons) same reasons)

  pub IsSound-add_event_pool_item :
      (m : MemoryRecord) (reason : Reason) (pool : EventPool)
      → Target self request (Admitted self request) m
      → Explains self request.source m reason
      → IsSound pool
      → IsSound (add_event_pool_item request.source m reason pool)
  unfolding add_event_pool_item
  IsSound-add_event_pool_item m reason pool t p h =
      let o = Dict.get pool m.memory_id in
      let (same, reasons) =
        Justified-or_new m o t (λ item found. All-get Entry pool m.memory_id item h found) in
      let item = or_new m o in
      let added = add_time_reason request.source m (add_reason reason item.reasons) in
      let justified : Explained self request.source m added =
        Explained-add_time_reason self request.source m (add_reason reason item.reasons)
          (Explained-add_reason self request.source m reason item.reasons p reasons) in
      All-put Entry pool m.memory_id (record item { reasons = added })
        (
          ap (λ (x : MemoryRecord). x.memory_id) same,
          (
            subst (Target self request (Admitted self request)) (sym same) t,
            subst (λ x. Explained self request.source x added) (sym same) justified,
          ),
        )
        h

  -- A target with a reason that holds of it.
  abbrev pub Suits : Reason → MemoryRecord → Type 0
  Suits reason m =
      Target self request (Admitted self request) m × Explains self request.source m reason

  pub IsSound-fill_event_pool :
      (limit : ℕ) (reason : Reason) (targets : List MemoryRecord) (pool : EventPool)
      → All (Suits reason) targets
      → IsSound pool
      → Filled (fill_event_pool limit request.source reason targets pool)
  unfolding fill_event_pool
  IsSound-fill_event_pool limit reason targets pool q h =
      for_until-keeps (Suits reason) IsSound (add_and_test limit request.source reason)
        (λ m s p k. IsSound-add_event_pool_item m reason s p.0 p.1 k) (take limit targets) pool
        (All-take (Suits reason) limit targets q) h

  module _ (limit : ℕ) (indexes : RequestIndexes)
      (filed : IsEventIndex self request (Admitted self request) indexes) where
    pub IsSound-by_slot :
        (slot : Option String) (pool : EventPool)
        → fact_slot_key self request.source ≡ slot
        → IsSound pool
        → Filled (by_slot self request.source limit indexes slot pool)
    IsSound-by_slot none pool e h = h
    IsSound-by_slot (some slot) pool e h =
        IsSound-fill_event_pool limit fact_slot_match (posting indexes.fact_slot_index slot) pool
          (All-imp (HasSlot self request (Admitted self request) slot) (Suits fact_slot_match)
            (posting indexes.fact_slot_index slot) (λ m has. (has.0, (slot, e, has.1)))
            (filed.slots slot))
          h

    pub IsSound-by_content :
        (pool : EventPool)
        → IsSound pool
        → Filled (
            by_content self request.source limit indexes
              (normalized_linking_key self request.source.content)
              pool)
    IsSound-by_content pool h =
        let key = normalized_linking_key self request.source.content in
        elim (Bool-cases (nonempty key)) [
          | inl yields ↦ rw yields (
              IsSound-fill_event_pool limit exact_normalized_content
                (posting indexes.event_content_index key) pool
                (All-imp (HasContent self request (Admitted self request) key)
                  (Suits exact_normalized_content) (posting indexes.event_content_index key)
                  (λ m has. has) (filed.contents key))
                h)
          | inr fails ↦ rw fails h
        ]
