-- ===== src/Linking/Indexes.antt =====
-- `_build_request_indexes` of src/evoeventmem/linking.py: the postings of a request. The order in which
-- Python runs through a set does not show, since the postings are looked up by key and sorted.
pub mod Filed
pub mod Sound
pub mod Built
pub mod Admitted
use evoeventmem.Prelude.{
  ℕ, String, Bool, true, false, Option, none, some, List, [], ◌∷◌, ◌++◌, not, ◌&&◌, ◌||◌, ◌+◌, ◌==◌,
  nat_eq, string_eq, option_eq, pair_eq, select, contains, if◌then◌else◌,
}
use evoeventmem.Prelude.Dict
use evoeventmem.Prelude.Dict.{Dict}
use evoeventmem.Prelude.Sort.{sort}
use evoeventmem.Domain.Models.{MemoryRecord, EntityRef, is_active, nonempty}
use evoeventmem.Domain.Order.{memory_order_key, tuple_lt}
use evoeventmem.Linking.Types.{LinkCandidateGenerator, CandidateGenerationRequest}
use evoeventmem.Linking.Keys.{
  normalized_linking_key, entity_keys, entity_key_sets, linking_tokens, fact_slot_key,
  entity_target_identity, time_eligible_event, is_event,
}

-- `_EntityIndexEntry`
pub record EntityIndexEntry : Type 0 where
  pub memory : MemoryRecord
  pub entity : EntityRef
  pub position : ℕ
  pub name_key : String
  pub keys : List String
  pub stable_key : List String

-- `_RequestIndexes`
pub record RequestIndexes : Type 0 where
  pub targets_by_id : Dict ℕ MemoryRecord
  pub entity_entries : List EntityIndexEntry
  pub entity_ref_index : Dict (ℕ × ℕ) EntityIndexEntry
  pub entity_name_index : Dict String (List EntityIndexEntry)
  pub entity_key_index : Dict String (List EntityIndexEntry)
  pub entity_token_index : Dict String (List EntityIndexEntry)
  pub event_targets : List MemoryRecord
  pub event_target_ids : List ℕ
  pub event_content_index : Dict String (List MemoryRecord)
  pub event_token_index : Dict String (List MemoryRecord)
  pub event_entity_key_index : Dict String (List MemoryRecord)
  pub fact_slot_index : Dict String (List MemoryRecord)

abbrev pub no_indexes : RequestIndexes
no_indexes = record {
  targets_by_id = [];
  entity_entries = [];
  entity_ref_index = [];
  entity_name_index = [];
  entity_key_index = [];
  entity_token_index = [];
  event_targets = [];
  event_target_ids = [];
  event_content_index = [];
  event_token_index = [];
  event_entity_key_index = [];
  fact_slot_index = [];
}

abbrev pub or_nothing {ℓ} : {A : Type ℓ} → Option (List A) → List A
or_nothing none = []
or_nothing (some posting) = posting

-- `index.get(key, ())`
unfoldable pub posting {ℓ} : {A : Type ℓ} → Dict String (List A) → String → List A
posting index key = or_nothing (Dict.get index key)

-- `index.setdefault(key, []).append(item)`
unfoldable pub append_to {ℓ} :
    {A : Type ℓ} → Dict String (List A) → String → A → Dict String (List A)
unfolding posting
append_to index key item = Dict.put index key (posting index key ++ item ∷ [])

-- The same item under each of the keys.
unfoldable pub append_to_all {ℓ} :
    {A : Type ℓ} → Dict String (List A) → List String → A → Dict String (List A)
unfolding append_to
append_to_all index [] item = index
append_to_all index (key ∷ keys) item = append_to_all (append_to index key item) keys item

-- `posting.sort(key=...)` for each posting
unfoldable pub sort_postings {ℓ} :
    {A : Type ℓ} → (A → A → Bool) → Dict String (List A) → Dict String (List A)
sort_postings lt [] = []
sort_postings lt ((key, items) ∷ index) = (key, sort lt items) ∷ sort_postings lt index

-- The tests of `_eligible_existing`.
unfoldable pub is_eligible : MemoryRecord → MemoryRecord → Bool
is_eligible source target =
    not (target.memory_id == source.memory_id)
    && target.user_id == source.user_id
    && target.tenant_id == source.tenant_id
    && is_active target.status

-- `_eligible_existing`
unfoldable pub eligible_existing : MemoryRecord → List MemoryRecord → List MemoryRecord
eligible_existing source existing =
    if is_active source.status then select (is_eligible source) existing else []

abbrev pub stable_lt : EntityIndexEntry → EntityIndexEntry → Bool
stable_lt a b = tuple_lt a.stable_key b.stable_key

module _ (self : LinkCandidateGenerator) where
  abbrev pub memory_lt : MemoryRecord → MemoryRecord → Bool
  memory_lt a b =
      tuple_lt (memory_order_key self.platform.casefold a)
        (memory_order_key self.platform.casefold b)

  unfoldable pub entry_of : MemoryRecord → ℕ → EntityRef → EntityIndexEntry
  entry_of target position entity = record {
    memory = target;
    entity = entity;
    position = position;
    name_key = normalized_linking_key self entity.name;
    keys = entity_keys self target entity;
    stable_key = entity_target_identity self target entity position;
  }

  -- The tokens of all keys, as often as they occur.
  unfoldable pub tokens_of_keys : List String → List String
  tokens_of_keys [] = []
  tokens_of_keys (key ∷ keys) = linking_tokens self key ++ tokens_of_keys keys

  abbrev pub index_entry : RequestIndexes → EntityIndexEntry → RequestIndexes
  index_entry indexes entry = record indexes {
    entity_entries = indexes.entity_entries ++ entry ∷ [];
    entity_ref_index =
        Dict.put indexes.entity_ref_index (entry.memory.memory_id, entry.position) entry;
    entity_name_index =
        if nonempty entry.name_key
        then append_to indexes.entity_name_index entry.name_key entry
        else indexes.entity_name_index;
    entity_key_index = append_to_all indexes.entity_key_index entry.keys entry;
    entity_token_index = append_to_all indexes.entity_token_index (tokens_of_keys entry.keys) entry;
  }

  -- The loop over the entities of a target, from a position on.
  unfoldable pub index_entities :
      MemoryRecord → ℕ → List EntityRef → RequestIndexes → RequestIndexes
  index_entities target position [] indexes = indexes
  index_entities target position (entity ∷ entities) indexes =
      index_entities target (position + 1) entities
        (index_entry indexes (entry_of target position entity))

  -- `memory_entity_keys` collects the keys of all entities, as `entity_key_sets` does.
  abbrev pub index_event : RequestIndexes → MemoryRecord → RequestIndexes
  index_event indexes target =
      let content_key = normalized_linking_key self target.content in
      record indexes {
        event_targets = indexes.event_targets ++ target ∷ [];
        event_target_ids = target.memory_id ∷ indexes.event_target_ids;
        event_content_index =
            if nonempty content_key
            then append_to indexes.event_content_index content_key target
            else indexes.event_content_index;
        event_token_index =
            append_to_all indexes.event_token_index (linking_tokens self content_key) target;
        event_entity_key_index =
            append_to_all indexes.event_entity_key_index (entity_key_sets self target) target;
      }

  abbrev pub index_slot : RequestIndexes → MemoryRecord → Option String → RequestIndexes
  index_slot indexes target none = indexes
  index_slot indexes target (some slot) = record indexes {
    fact_slot_index = append_to indexes.fact_slot_index slot target;
  }

  module _ (request : CandidateGenerationRequest) where
    abbrev pub index_event_target : RequestIndexes → MemoryRecord → RequestIndexes
    index_event_target indexes target =
        if time_eligible_event request target then index_event indexes target else indexes

    abbrev pub index_slot_target : RequestIndexes → MemoryRecord → RequestIndexes
    index_slot_target indexes target =
        if not (is_event target.memory_kind) || time_eligible_event request target
        then index_slot indexes target (fact_slot_key self target)
        else indexes

    abbrev pub register : RequestIndexes → MemoryRecord → RequestIndexes
    register indexes target = record indexes {
      targets_by_id = Dict.put indexes.targets_by_id target.memory_id target;
    }

    -- What one target adds.
    unfoldable pub index_target : RequestIndexes → MemoryRecord → RequestIndexes
    index_target indexes target =
        index_slot_target
          (index_event_target (index_entities target 0 target.entities (register indexes target))
            target)
          target

    -- A target whose id is there is skipped.
    abbrev pub index_unless_known :
        RequestIndexes → MemoryRecord → Option MemoryRecord → RequestIndexes
    index_unless_known indexes target (some known) = indexes
    index_unless_known indexes target none = index_target indexes target

    unfoldable pub index_targets : RequestIndexes → List MemoryRecord → RequestIndexes
    index_targets indexes [] = indexes
    index_targets indexes (target ∷ targets) =
        index_targets
          (index_unless_known indexes target (Dict.get indexes.targets_by_id target.memory_id))
          targets

    abbrev pub sorted_indexes : RequestIndexes → RequestIndexes
    sorted_indexes indexes = record indexes {
      entity_entries = sort stable_lt indexes.entity_entries;
      entity_name_index = sort_postings stable_lt indexes.entity_name_index;
      entity_key_index = sort_postings stable_lt indexes.entity_key_index;
      entity_token_index = sort_postings stable_lt indexes.entity_token_index;
      event_targets = sort memory_lt indexes.event_targets;
      event_content_index = sort_postings memory_lt indexes.event_content_index;
      event_token_index = sort_postings memory_lt indexes.event_token_index;
      event_entity_key_index = sort_postings memory_lt indexes.event_entity_key_index;
      fact_slot_index = sort_postings memory_lt indexes.fact_slot_index;
    }

    unfoldable pub build_request_indexes : RequestIndexes
    build_request_indexes =
        sorted_indexes
          (index_targets no_indexes (eligible_existing request.source request.existing))
