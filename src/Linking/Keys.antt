-- ===== src/Linking/Keys.antt =====
-- The keys of src/evoeventmem/linking.py: of names, aliases, fact slots, identities and times.
use evoeventmem.Prelude.{
  ℕ, ◌-◌, ◌*◌, String, Bool, true, false, Option, none, some, List, [], ◌∷◌, ◌++◌, ◌&&◌, ◌==◌,
  nat_eq, string_eq, if◌then◌else◌, min, max, leb,
}
use evoeventmem.Prelude.Dict.{get}
use evoeventmem.Float
use evoeventmem.Domain.Text.{join, casefold}
use evoeventmem.Domain.Value.{Value, Metadata, str, arr, null, as_obj, elements}
use evoeventmem.Domain.Models.{MemoryRecord, MemoryKind, EntityRef, nonempty}
use evoeventmem.Domain.Order.{or_empty}
use evoeventmem.Etec.Math.{as_set}
use evoeventmem.Etec.Keys.{or_none}
use evoeventmem.Linking.Types.{LinkCandidateGenerator, CandidateGenerationRequest}

-- `memory_kind is MemoryKind.EVENT`
abbrev pub is_event : MemoryKind → Bool
is_event MemoryKind.event = true
is_event _ = false

-- `_anchor_time`
unfoldable pub anchor_time : MemoryRecord → Option ℕ
anchor_time memory = elim memory.event_time [ none ↦ memory.valid_from | some t ↦ some t ]

-- The days between two times: `(source_time - target_time).total_seconds() / 86_400.0`.
unfoldable pub days_between : ℕ → ℕ → ℕ
unfolding Float.div
days_between source target =
    let seconds = Float.div (max source target - min source target) 1000000 in
    Float.div seconds (86400 * Float.one)

-- `_time_delta_days`
unfoldable pub time_delta_days : MemoryRecord → MemoryRecord → Option ℕ
time_delta_days source target = elim (anchor_time source) [
  | none ↦ none
  | some source_time ↦ elim (anchor_time target) [
    | none ↦ none
    | some target_time ↦ some (days_between source_time target_time)
  ]
]

-- `time_delta_days is None or time_delta_days <= event_time_window_days`
abbrev pub in_window : ℕ → Option ℕ → Bool
in_window window none = true
in_window window (some days) = leb days (window * Float.one)

abbrev pub time_eligible_event : CandidateGenerationRequest → MemoryRecord → Bool
time_eligible_event request target =
    is_event target.memory_kind
    && in_window request.event_time_window_days (time_delta_days request.source target)

-- `_iter_alias_values`
unfoldable pub iter_alias_values : Value → List Value
iter_alias_values (str s) = str s ∷ []
iter_alias_values (arr vs) = elements vs
iter_alias_values _ = []

module _ (self : LinkCandidateGenerator) where
  unfoldable pub normalized_linking_key : String → String
  normalized_linking_key value =
      join (self.key_tokens (casefold self.platform.casefold (self.nfkc value)))

  -- `_linking_tokens`
  unfoldable pub linking_tokens : String → List String
  linking_tokens value = as_set (self.key_tokens (casefold self.platform.casefold value))

  -- `str(value)`
  unfoldable pub text_of : Value → String
  text_of (str s) = s
  text_of value = self.value_str value

  abbrev pub slot_of : Option Value → Option String
  slot_of none = none
  slot_of (some null) = none
  slot_of (some value) = or_none (normalized_linking_key (text_of value))

  -- `_fact_slot_key`
  unfoldable pub fact_slot_key : MemoryRecord → Option String
  fact_slot_key memory = slot_of (get memory.metadata "fact_slot")

  -- The keys of the aliases of one entry that are not empty.
  unfoldable pub alias_keys : List Value → List String
  alias_keys [] = []
  alias_keys (alias ∷ aliases) =
      let rest = alias_keys aliases in
      let key = normalized_linking_key (text_of alias) in if nonempty key then key ∷ rest else rest

  -- The loop over the entries of the aliases.
  unfoldable pub declared_aliases : String → Metadata → List String
  declared_aliases entity_key [] = []
  declared_aliases entity_key ((raw_name, raw_aliases) ∷ aliases) =
      let rest = declared_aliases entity_key aliases in
      if normalized_linking_key raw_name == entity_key
      then alias_keys (iter_alias_values raw_aliases) ++ rest
      else rest

  abbrev pub aliases_of : String → Option Metadata → List String
  aliases_of entity_key none = []
  aliases_of entity_key (some aliases) = declared_aliases entity_key aliases

  -- `_entity_keys`, a set
  unfoldable pub entity_keys : MemoryRecord → EntityRef → List String
  entity_keys memory entity =
      let entity_key = normalized_linking_key entity.name in
      let aliases = aliases_of entity_key (as_obj (get memory.metadata "entity_aliases")) in
      if nonempty entity_key then as_set (entity_key ∷ aliases) else []

  unfoldable pub keys_of_entities : MemoryRecord → List EntityRef → List String
  keys_of_entities memory [] = []
  keys_of_entities memory (entity ∷ entities) =
      entity_keys memory entity ++ keys_of_entities memory entities

  -- `_entity_key_sets`
  unfoldable pub entity_key_sets : MemoryRecord → List String
  entity_key_sets memory = as_set (keys_of_entities memory memory.entities)

  -- `_entity_identity`
  unfoldable pub entity_identity : EntityRef → List String
  entity_identity entity =
      or_empty entity.entity_id
      ∷ normalized_linking_key entity.name
      ∷ or_empty entity.kind
      ∷ or_empty entity.role
      ∷ []

  -- `_entity_target_identity`
  unfoldable pub entity_target_identity : MemoryRecord → EntityRef → ℕ → List String
  entity_target_identity memory entity position =
      self.platform.uuid_str memory.memory_id ∷ entity_identity entity ++ self.int_str position ∷ []
