-- ===== src/Linking/Indexes/Admitted.antt =====
-- The targets of the indexes that `_build_request_indexes` returns: each is an eligible record of the
-- request, and the only one that is indexed under its id.
use evoeventmem.Prelude.{
  ◌≡◌, refl, true, Option, none, some, List, [], ◌∷◌, All, All-imp, All-select, All-of_mem,
  select_passes, All-both, ==_refl, arith, ==_iff, ◌≢◌, string_eq, option_eq, nat_eq, contains,
  select, Bool-cases, inl, inr,
}
use mathlib.Core.List.{Memᴰ}
use evoeventmem.Prelude.Dict
use evoeventmem.Prelude.Dict.{Dict, get-put}
use evoeventmem.Prelude.Sort.{All-sort}
use evoeventmem.Domain.Models.{
  MemoryRecord, MemoryStatus, active, superseded, rejected, deleted, is_active,
}
use evoeventmem.Linking.Types.{LinkCandidateGenerator, CandidateGenerationRequest}
use evoeventmem.Linking.Indexes.{
  RequestIndexes, no_indexes, posting, index_unless_known, index_targets, sorted_indexes,
  build_request_indexes, eligible_existing, stable_lt, memory_lt, is_eligible,
}
use evoeventmem.Linking.Indexes.Filed.{IsFiled-sort_postings}
use evoeventmem.Linking.Indexes.Sound.{Target, Entry, HasSlot, HasContent, HasToken, HasKey}
use evoeventmem.Linking.Indexes.Built.{
  IsSound, IsSound-index_target, index_targets_targets, index_target_targets,
}

active_of : (status : MemoryStatus) → is_active status ≡ true → status ≡ active
active_of active h = refl
active_of superseded h = absurd (cc)
active_of rejected h = absurd (cc)
active_of deleted h = absurd (cc)

module _ (self : LinkCandidateGenerator) (request : CandidateGenerationRequest) where
  module _ (Q : MemoryRecord → Type 0) where
    IsSound-index_unless_known :
        (indexes : RequestIndexes) (t : MemoryRecord) (o : Option MemoryRecord)
        → (o ≡ none → Q t)
        → IsSound self request Q indexes
        → IsSound self request Q (index_unless_known self request indexes t o)
    IsSound-index_unless_known indexes t none q c =
        IsSound-index_target self request Q t indexes (q refl) c
    IsSound-index_unless_known indexes t (some known) q c = c

    registered :
        (indexes : RequestIndexes) (t : MemoryRecord) (o : Option MemoryRecord)
        → o ≡ none
        → Dict.get (index_unless_known self request indexes t o).targets_by_id t.memory_id ≡ some t
    registered indexes t none e = rw (index_target_targets, get-put, ==_refl) refl
    registered indexes t (some known) e = absurd (cc)

    IsSound-index_targets :
        (targets : List MemoryRecord) (indexes : RequestIndexes)
        → All
            (λ t.
              Dict.get (index_targets self request indexes targets).targets_by_id t.memory_id
                ≡ some t
              → Q t)
            targets
        → IsSound self request Q indexes
        → IsSound self request Q (index_targets self request indexes targets)
    unfolding index_targets
    IsSound-index_targets [] indexes q c = c
    IsSound-index_targets (t ∷ ts) indexes q c =
        let known = Dict.get indexes.targets_by_id t.memory_id in
        let next = index_unless_known self request indexes t known in
        IsSound-index_targets ts next q.1 (
          IsSound-index_unless_known indexes t known
            (λ new. q.0 (
              index_targets_targets self request ts next t t.memory_id
                (registered indexes t known new)))
            c)

    sorted_indexes-IsSound :
        (indexes : RequestIndexes)
        → IsSound self request Q indexes
        → IsSound self request Q (sorted_indexes self request indexes)
    sorted_indexes-IsSound indexes (a, c) =
        let by_key = stable_lt in
        let by_memory = memory_lt self in
        (
          record {
            entries = All-sort by_key (Entry self request Q) indexes.entity_entries a.entries;
            refs = a.refs;
            names =
                IsFiled-sort_postings (λ key. Entry self request Q) by_key indexes.entity_name_index
                  a.names;
            keys =
                IsFiled-sort_postings (λ key. Entry self request Q) by_key indexes.entity_key_index
                  a.keys;
            tokens =
                IsFiled-sort_postings (λ key. Entry self request Q) by_key
                  indexes.entity_token_index a.tokens;
          },
          record {
            events = All-sort by_memory (Target self request Q) indexes.event_targets c.events;
            ids = c.ids;
            contents =
                IsFiled-sort_postings (HasContent self request Q) by_memory
                  indexes.event_content_index c.contents;
            tokens =
                IsFiled-sort_postings (HasToken self request Q) by_memory indexes.event_token_index
                  c.tokens;
            keys =
                IsFiled-sort_postings (HasKey self request Q) by_memory
                  indexes.event_entity_key_index c.keys;
            slots =
                IsFiled-sort_postings (HasSlot self request Q) by_memory indexes.fact_slot_index
                  c.slots;
          },
        )

    IsSound-no_indexes : IsSound self request Q no_indexes
    unfolding posting Dict.get contains
    IsSound-no_indexes = (
      record {
        entries = tt;
        refs = λ k e h. absurd (cc);
        names = λ key. tt;
        keys = λ key. tt;
        tokens = λ key. tt;
      },
      record {
        events = tt;
        ids = λ id h. absurd (cc);
        contents = λ key. tt;
        tokens = λ key. tt;
        keys = λ key. tt;
        slots = λ key. tt;
      },
    )

  -- A record of the request that may be linked: another active record of the same user and tenant.
  abbrev pub Eligible : MemoryRecord → Type 0
  Eligible m =
      Memᴰ m request.existing
      × (m.memory_id ≢ request.source.memory_id)
      × (m.user_id ≡ request.source.user_id)
      × (m.tenant_id ≡ request.source.tenant_id)
      × (m.status ≡ active)

  Eligible-is_eligible :
      (m : MemoryRecord)
      → Memᴰ m request.existing
      → is_eligible request.source m ≡ true
      → Eligible m
  unfolding is_eligible
  Eligible-is_eligible m there h =
      let source = request.source in
      (
        there,
        λ same. absurd (ground (arith, ==_iff m.memory_id source.memory_id)),
        ground (arith, ==_iff m.user_id source.user_id),
        ground (arith, ==_iff m.tenant_id source.tenant_id),
        active_of m.status (ground arith),
      )

  -- An eligible record that is the one indexed under its id.
  abbrev pub Admitted : MemoryRecord → Type 0
  Admitted m =
      Eligible m
      × (Dict.get (build_request_indexes self request).targets_by_id m.memory_id ≡ some m)

  All-eligible_existing : All Eligible (eligible_existing request.source request.existing)
  unfolding eligible_existing
  All-eligible_existing = elim (Bool-cases (is_active request.source.status)) [
    | inl yields ↦ rw yields (
        All-both (λ m. Memᴰ m request.existing) (λ m. is_eligible request.source m ≡ true) Eligible
          (select (is_eligible request.source) request.existing) Eligible-is_eligible
          (All-select (is_eligible request.source) (λ m. Memᴰ m request.existing) request.existing
            (All-of_mem (λ m. Memᴰ m request.existing) request.existing (λ m h. h)))
          (select_passes (is_eligible request.source) request.existing))
    | inr fails ↦ rw fails tt
  ]

  -- The indexes of a request hold admitted targets, each filed under a key that it has.
  pub build_request_indexes-IsSound :
      IsSound self request Admitted (build_request_indexes self request)
  unfolding build_request_indexes
  build_request_indexes-IsSound =
      let targets = eligible_existing request.source request.existing in
      sorted_indexes-IsSound Admitted (index_targets self request no_indexes targets) (
        IsSound-index_targets Admitted targets no_indexes
          (All-imp Eligible _ targets (λ m e there. (e, there)) All-eligible_existing)
          (IsSound-no_indexes Admitted))
