-- ===== src/Linking/Indexes/Built.antt =====
-- What one target adds to the indexes of `_build_request_indexes`, and that it stays registered.
use evoeventmem.Prelude.{
  ℕ, ◌+◌, ◌≡◌, refl, sym, ap, ◌∙◌, String, Option, none, some, List, [], ◌∷◌, ◌||◌, not, ◌==◌,
  ==_iff, nat_eq, string_eq, option_eq, arith, Bool-cases, inl, inr,
}
use evoeventmem.Prelude.Dict
use evoeventmem.Prelude.Dict.{Dict, get-put}
use evoeventmem.Domain.Models.{MemoryRecord, EntityRef}
use evoeventmem.Linking.Types.{LinkCandidateGenerator, CandidateGenerationRequest}
use evoeventmem.Linking.Keys.{fact_slot_key, time_eligible_event, is_event}
use evoeventmem.Linking.Indexes.{
  RequestIndexes, index_entry, entry_of, index_entities, index_slot, index_event_target,
  index_slot_target, register, index_target, index_unless_known, index_targets,
}
use evoeventmem.Linking.Indexes.Filed.{IsFiled-append_to}
use evoeventmem.Linking.Indexes.Sound.{
  Target, HasSlot, IsEntityIndex, IsEventIndex, index_entities-IsEntityIndex,
  index_entities-IsEventIndex, index_event-IsEventIndex,
}

module _ (self : LinkCandidateGenerator) (request : CandidateGenerationRequest) where
  -- The targets are registered before they are filed.
  index_entities_targets :
      (m : MemoryRecord) (position : ℕ) (entities : List EntityRef) (indexes : RequestIndexes)
      → (index_entities self m position entities indexes).targets_by_id ≡ indexes.targets_by_id
  unfolding index_entities
  index_entities_targets m position [] indexes = refl
  index_entities_targets m position (e ∷ es) indexes =
      index_entities_targets m (position + 1) es
        (index_entry self indexes (entry_of self m position e))

  index_event_target_targets :
      (m : MemoryRecord) (indexes : RequestIndexes)
      → (index_event_target self request indexes m).targets_by_id ≡ indexes.targets_by_id
  index_event_target_targets m indexes = elim (Bool-cases (time_eligible_event request m)) [
    | inl yields ↦ rw yields refl
    | inr fails ↦ rw fails refl
  ]

  index_slot_targets :
      (m : MemoryRecord) (indexes : RequestIndexes) (slot : Option String)
      → (index_slot self indexes m slot).targets_by_id ≡ indexes.targets_by_id
  index_slot_targets m indexes none = refl
  index_slot_targets m indexes (some slot) = refl

  index_slot_target_targets :
      (m : MemoryRecord) (indexes : RequestIndexes)
      → (index_slot_target self request indexes m).targets_by_id ≡ indexes.targets_by_id
  index_slot_target_targets m indexes =
      elim (Bool-cases (not (is_event m.memory_kind) || time_eligible_event request m)) [
        | inl yields ↦ rw yields (index_slot_targets m indexes (fact_slot_key self m))
        | inr fails ↦ rw fails refl
      ]

  pub index_target_targets :
      (m : MemoryRecord) (indexes : RequestIndexes)
      → (index_target self request indexes m).targets_by_id
        ≡ Dict.put indexes.targets_by_id m.memory_id m
  unfolding index_target
  index_target_targets m indexes =
      let entities = index_entities self m 0 m.entities (register self request indexes m) in
      index_slot_target_targets m (index_event_target self request entities m)
      ∙ index_event_target_targets m entities
      ∙ index_entities_targets m 0 m.entities (register self request indexes m)

  pub index_unless_known_targets :
      (indexes : RequestIndexes) (t m : MemoryRecord) (id : ℕ) (o : Option MemoryRecord)
      → Dict.get indexes.targets_by_id t.memory_id ≡ o
      → Dict.get indexes.targets_by_id id ≡ some m
      → Dict.get (index_unless_known self request indexes t o).targets_by_id id ≡ some m
  index_unless_known_targets indexes t m id (some known) there h = h
  index_unless_known_targets indexes t m id none new h =
      rw (index_target_targets, get-put)
        (elim (Bool-cases (t.memory_id == id)) [
          | inl same ↦
              let e : t.memory_id ≡ id = (==_iff t.memory_id id).0 same in
              absurd (cc (sym (ap (Dict.get indexes.targets_by_id) e) ∙ new, h))
          | inr differs ↦ rw differs h
        ])

  -- A registered target stays.
  pub index_targets_targets :
      (targets : List MemoryRecord) (indexes : RequestIndexes) (m : MemoryRecord) (id : ℕ)
      → Dict.get indexes.targets_by_id id ≡ some m
      → Dict.get (index_targets self request indexes targets).targets_by_id id ≡ some m
  unfolding index_targets
  index_targets_targets [] indexes m id h = h
  index_targets_targets (t ∷ ts) indexes m id h =
      let known = Dict.get indexes.targets_by_id t.memory_id in
      index_targets_targets ts (index_unless_known self request indexes t known) m id
        (index_unless_known_targets indexes t m id known refl h)

  module _ (Q : MemoryRecord → Type 0) where
    abbrev pub IsSound : RequestIndexes → Type 0
    IsSound indexes = IsEntityIndex self request Q indexes × IsEventIndex self request Q indexes

    index_event_target-IsEventIndex :
        (m : MemoryRecord) (indexes : RequestIndexes)
        → Q m
        → IsEventIndex self request Q indexes
        → IsEventIndex self request Q (index_event_target self request indexes m)
    index_event_target-IsEventIndex m indexes q c =
        elim (Bool-cases (time_eligible_event request m)) [
          | inl yields ↦
              rw yields
                (index_event-IsEventIndex self request Q m indexes (q, λ event. ground arith) c)
          | inr fails ↦ rw fails c
        ]

    index_event_target-IsEntityIndex :
        (m : MemoryRecord) (indexes : RequestIndexes)
        → IsEntityIndex self request Q indexes
        → IsEntityIndex self request Q (index_event_target self request indexes m)
    index_event_target-IsEntityIndex m indexes c =
        elim (Bool-cases (time_eligible_event request m)) [
          | inl yields ↦ rw yields (record {
            entries = c.entries;
            refs = c.refs;
            names = c.names;
            keys = c.keys;
            tokens = c.tokens;
          })
          | inr fails ↦ rw fails c
        ]

    IsSound-index_slot :
        (m : MemoryRecord) (indexes : RequestIndexes) (slot : Option String)
        → fact_slot_key self m ≡ slot
        → Target self request Q m
        → IsSound indexes
        → IsSound (index_slot self indexes m slot)
    IsSound-index_slot m indexes none e t c = c
    IsSound-index_slot m indexes (some slot) e t (a, c) = (
      record {
        entries = a.entries;
        refs = a.refs;
        names = a.names;
        keys = a.keys;
        tokens = a.tokens;
      },
      record {
        events = c.events;
        ids = c.ids;
        contents = c.contents;
        tokens = c.tokens;
        keys = c.keys;
        slots =
            IsFiled-append_to (HasSlot self request Q) indexes.fact_slot_index slot m (t, e)
              c.slots;
      },
    )

    IsSound-index_slot_target :
        (m : MemoryRecord) (indexes : RequestIndexes)
        → Q m
        → IsSound indexes
        → IsSound (index_slot_target self request indexes m)
    IsSound-index_slot_target m indexes q c =
        elim (Bool-cases (not (is_event m.memory_kind) || time_eligible_event request m)) [
          | inl yields ↦ rw yields (
              IsSound-index_slot m indexes (fact_slot_key self m) refl (q, λ event. ground arith) c)
          | inr fails ↦ rw fails c
        ]

    pub IsSound-index_target :
        (m : MemoryRecord) (indexes : RequestIndexes)
        → Q m
        → IsSound indexes
        → IsSound (index_target self request indexes m)
    unfolding index_target
    IsSound-index_target m indexes q (a, c) =
        let registered = register self request indexes m in
        let entities = index_entities self m 0 m.entities registered in
        IsSound-index_slot_target m (index_event_target self request entities m) q (
          index_event_target-IsEntityIndex m entities (
              index_entities-IsEntityIndex self request Q m 0 m.entities registered q (record {
                entries = a.entries;
                refs = a.refs;
                names = a.names;
                keys = a.keys;
                tokens = a.tokens;
              })),
          index_event_target-IsEventIndex m entities q (
              index_entities-IsEventIndex self request Q m 0 m.entities registered (record {
                events = c.events;
                ids = c.ids;
                contents = c.contents;
                tokens = c.tokens;
                keys = c.keys;
                slots = c.slots;
              })),
        )
