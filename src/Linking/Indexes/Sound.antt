-- ===== src/Linking/Indexes/Sound.antt =====
-- What `_build_request_indexes` files where: every posting holds records that have the key.
use mathlib.Core.Path.{subst}
use evoeventmem.Prelude.{
  ℕ, ◌+◌, ◌≡◌, refl, sym, String, true, false, some, List, [], ◌∷◌, All, All-append, All-imp, ◌==◌,
  ==_iff, nat_eq, string_eq, option_eq, pair_eq, list_eq, if◌then◌else◌, arith, Bool-cases, inl,
  inr, contains,
}
use evoeventmem.Prelude.Dict
use evoeventmem.Prelude.Dict.{Dict, get-put}
use evoeventmem.Domain.Models.{MemoryRecord, EntityRef, nonempty}
use evoeventmem.Linking.Types.{LinkCandidateGenerator, CandidateGenerationRequest}
use evoeventmem.Linking.Keys.{
  normalized_linking_key, entity_key_sets, linking_tokens, fact_slot_key, is_event, in_window,
  time_delta_days,
}
use evoeventmem.Linking.Indexes.{
  EntityIndexEntry, RequestIndexes, append_to, index_entry, entry_of, index_entities, index_event,
  tokens_of_keys,
}
use evoeventmem.Linking.Indexes.Filed.{
  IsFiled, IsFiled-append_to, IsFiled-append_to_all, All-contains,
}

some-injective : (a b : EntityIndexEntry) → some a ≡ some b → a ≡ b
some-injective a b h = cc

module _ (self : LinkCandidateGenerator) (request : CandidateGenerationRequest)
    (Q : MemoryRecord → Type 0) where
  -- An event among the targets is not outside the time window.
  abbrev pub Timely : MemoryRecord → Type 0
  Timely m =
      is_event m.memory_kind ≡ true
      → in_window request.event_time_window_days (time_delta_days request.source m) ≡ true

  abbrev pub Target : MemoryRecord → Type 0
  Target m = Q m × Timely m

  abbrev pub Entry : EntityIndexEntry → Type 0
  Entry e = Q e.memory

  abbrev pub Refs : Dict (ℕ × ℕ) EntityIndexEntry → Type 0
  Refs d = (k : ℕ × ℕ) (e : EntityIndexEntry) → Dict.get d k ≡ some e → Entry e

  pub record IsEntityIndex (indexes : RequestIndexes) : Type 0 where
    pub entries : All Entry indexes.entity_entries
    pub refs : Refs indexes.entity_ref_index
    pub names : IsFiled (λ key. Entry) indexes.entity_name_index
    pub keys : IsFiled (λ key. Entry) indexes.entity_key_index
    pub tokens : IsFiled (λ key. Entry) indexes.entity_token_index

  abbrev pub HasSlot : String → MemoryRecord → Type 0
  HasSlot key m = Target m × (fact_slot_key self m ≡ some key)

  abbrev pub HasContent : String → MemoryRecord → Type 0
  HasContent key m = Target m × (normalized_linking_key self m.content ≡ key)

  abbrev pub HasToken : String → MemoryRecord → Type 0
  HasToken key m =
      Target m × (contains key (linking_tokens self (normalized_linking_key self m.content)) ≡ true)

  abbrev pub HasKey : String → MemoryRecord → Type 0
  HasKey key m = Target m × (contains key (entity_key_sets self m) ≡ true)

  pub record IsEventIndex (indexes : RequestIndexes) : Type 0 where
    pub events : All Target indexes.event_targets
    pub ids :
        (id : ℕ)
        → contains id indexes.event_target_ids ≡ true
        → (m : MemoryRecord) × (m.memory_id ≡ id) × Target m
    pub contents : IsFiled HasContent indexes.event_content_index
    pub tokens : IsFiled HasToken indexes.event_token_index
    pub keys : IsFiled HasKey indexes.event_entity_key_index
    pub slots : IsFiled HasSlot indexes.fact_slot_index

  All-all {ℓ κ} : {A : Type ℓ} (P : A → Type κ) (xs : List A) → ((x : A) → P x) → All P xs
  All-all P [] h = tt
  All-all P (x ∷ xs) h = (h x, All-all P xs h)

  put-Refs :
      (d : Dict (ℕ × ℕ) EntityIndexEntry) (key : ℕ × ℕ) (e : EntityIndexEntry)
      → Entry e
      → Refs d
      → Refs (Dict.put d key e)
  put-Refs d key e q h k x found = elim (Bool-cases (key == k)) [
    | inl same ↦
        let found' : some e ≡ some x = rw (get-put, same) at found in
        subst Entry (some-injective e x found') q
    | inr differs ↦ h k x (rw (get-put, differs) at found)
  ]

  index_entry-IsEntityIndex :
      (indexes : RequestIndexes) (e : EntityIndexEntry)
      → Entry e
      → IsEntityIndex indexes
      → IsEntityIndex (index_entry self indexes e)
  index_entry-IsEntityIndex indexes e q c = record {
    entries = All-append Entry indexes.entity_entries (e ∷ []) c.entries (q, tt);
    refs = put-Refs indexes.entity_ref_index (e.memory.memory_id, e.position) e q c.refs;
    names =
        elim (nonempty e.name_key)
          as (λ b.
            IsFiled (λ key. Entry)
              (if b
                then append_to indexes.entity_name_index e.name_key e
                else indexes.entity_name_index)) [
                  | true ↦
                      IsFiled-append_to (λ key. Entry) indexes.entity_name_index e.name_key e q
                        c.names
                  | false ↦ c.names
                ];
    keys =
        IsFiled-append_to_all (λ key. Entry) indexes.entity_key_index e.keys e
          (All-all (λ key. Entry e) e.keys (λ key. q)) c.keys;
    tokens =
        IsFiled-append_to_all (λ key. Entry) indexes.entity_token_index (tokens_of_keys self e.keys)
          e (All-all (λ key. Entry e) (tokens_of_keys self e.keys) (λ key. q)) c.tokens;
  }

  pub index_entities-IsEntityIndex :
      (m : MemoryRecord) (position : ℕ) (entities : List EntityRef) (indexes : RequestIndexes)
      → Q m
      → IsEntityIndex indexes
      → IsEntityIndex (index_entities self m position entities indexes)
  unfolding index_entities entry_of
  index_entities-IsEntityIndex m position [] indexes q c = c
  index_entities-IsEntityIndex m position (e ∷ es) indexes q c =
      index_entities-IsEntityIndex m (position + 1) es
        (index_entry self indexes (entry_of self m position e)) q
        (index_entry-IsEntityIndex indexes (entry_of self m position e) q c)

  pub index_entities-IsEventIndex :
      (m : MemoryRecord) (position : ℕ) (entities : List EntityRef) (indexes : RequestIndexes)
      → IsEventIndex indexes
      → IsEventIndex (index_entities self m position entities indexes)
  unfolding index_entities
  index_entities-IsEventIndex m position [] indexes c = c
  index_entities-IsEventIndex m position (e ∷ es) indexes c =
      index_entities-IsEventIndex m (position + 1) es
        (index_entry self indexes (entry_of self m position e))
        (record {
          events = c.events;
          ids = c.ids;
          contents = c.contents;
          tokens = c.tokens;
          keys = c.keys;
          slots = c.slots;
        })

  pub index_event-IsEventIndex :
      (m : MemoryRecord) (indexes : RequestIndexes)
      → Target m
      → IsEventIndex indexes
      → IsEventIndex (index_event self indexes m)
  unfolding contains
  index_event-IsEventIndex m indexes t c =
      let key = normalized_linking_key self m.content in
      record {
        events = All-append Target indexes.event_targets (m ∷ []) c.events (t, tt);
        ids = λ id h. elim (Bool-cases (id == m.memory_id)) [
          | inl same ↦ (m, sym ((==_iff id m.memory_id).0 same), t)
          | inr differs ↦ c.ids id (ground arith)
        ];
        contents =
            elim (nonempty key)
              as (λ b. IsFiled HasContent (
                if b
                then append_to indexes.event_content_index key m
                else indexes.event_content_index)) [
                  | true ↦
                      IsFiled-append_to HasContent indexes.event_content_index key m (t, refl)
                        c.contents
                  | false ↦ c.contents
                ];
        tokens =
            IsFiled-append_to_all HasToken indexes.event_token_index (linking_tokens self key) m
              (All-imp (λ k. contains k (linking_tokens self key) ≡ true) (λ k. HasToken k m)
                (linking_tokens self key) (λ k h. (t, h)) (All-contains (linking_tokens self key)))
              c.tokens;
        keys =
            IsFiled-append_to_all HasKey indexes.event_entity_key_index (entity_key_sets self m) m
              (All-imp (λ k. contains k (entity_key_sets self m) ≡ true) (λ k. HasKey k m)
                (entity_key_sets self m) (λ k h. (t, h)) (All-contains (entity_key_sets self m)))
              c.keys;
        slots = c.slots;
      }
