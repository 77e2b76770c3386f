-- ===== src/Etec/Keys.antt =====
-- Fact slots and values, and the keys of entities and roles.
use evoeventmem.Prelude.{
  String, Bool, true, false, Option, none, some, List, [], ◌∷◌, ◌++◌, not, ◌&&◌, ◌||◌, ◌==◌,
  string_eq, option_eq, pair_eq, if◌then◌else◌, ◌+++◌, nat_eq,
}
use evoeventmem.Prelude.Dict.{Dict, get}
use evoeventmem.Domain.Text.{join, casefold, normalize_memory_content}
use evoeventmem.Domain.Value.{Value, bool, as_str}
use evoeventmem.Domain.Models.{MemoryRecord, EntityRef, nonempty}
use evoeventmem.Etec.Types.{EtecConsolidator}
use evoeventmem.Etec.Math.{unique_by}

-- `text or None`
abbrev pub or_none : String → Option String
or_none text = if nonempty text then some text else none

abbrev is_true : Option Value → Bool
is_true (some (bool true)) = true
is_true _ = false

unfoldable pub memory_is_multi_valued : MemoryRecord → Bool
memory_is_multi_valued memory = is_true (get memory.metadata "multi_valued")

unfoldable pub is_multi_valued : MemoryRecord → MemoryRecord → Bool
is_multi_valued source target = memory_is_multi_valued source || memory_is_multi_valued target

-- `left is not None and left == right`, and `left` and `right` are both there and differ.
abbrev pub same_key : Option String → Option String → Bool
same_key none right = false
same_key (some left) right = some left == right

abbrev pub distinct_keys : Option String → Option String → Bool
distinct_keys (some left) (some right) = not (left == right)
distinct_keys _ _ = false

module _ (self : EtecConsolidator) where
  -- `normalized_linking_key` of src/evoeventmem/linking.py
  unfoldable pub normalized_linking_key : String → String
  normalized_linking_key value =
      join (self.key_tokens (casefold self.platform.casefold (self.nfkc value)))

  -- The key of a text of the metadata, if it is not empty.
  unfoldable pub declared_key : MemoryRecord → String → Option String
  declared_key memory name = elim (as_str (get memory.metadata name)) [
    | none ↦ none
    | some value ↦ or_none (normalized_linking_key value)
  ]

  unfoldable pub fact_slot_key : MemoryRecord → Option String
  fact_slot_key memory = declared_key memory "fact_slot"

  unfoldable pub same_fact_slot : MemoryRecord → MemoryRecord → Bool
  same_fact_slot source target = same_key (fact_slot_key source) (fact_slot_key target)

  -- `_explicit_fact_value`
  unfoldable pub explicit_fact_value : MemoryRecord → Option String
  explicit_fact_value memory = declared_key memory "fact_value"

  unfoldable pub fact_value_key : MemoryRecord → String
  fact_value_key memory = elim (explicit_fact_value memory) [
    | some value ↦ value
    | none ↦ normalize_memory_content self.platform.casefold memory.content
  ]

  unfoldable pub same_fact_value : MemoryRecord → MemoryRecord → Bool
  same_fact_value source target = fact_value_key source == fact_value_key target

  unfoldable pub distinct_fact_value : MemoryRecord → MemoryRecord → Bool
  distinct_fact_value source target =
      distinct_keys (explicit_fact_value source) (explicit_fact_value target)

  -- `entity.entity_id or normalized_linking_key(entity.name)`
  unfoldable pub entity_key : EntityRef → String
  entity_key entity =
      let name = normalized_linking_key entity.name in
      elim entity.entity_id [ none ↦ name | some id ↦ if nonempty id then id else name ]

  -- `if entity.role: keys.add(...)`
  unfoldable pub role_key : String → Option String → List String
  role_key key none = []
  role_key key (some role) =
      if nonempty role
      then ("role:" +++ (key +++ (":" +++ normalized_linking_key role))) ∷ []
      else []

  unfoldable pub keys_of_entities : List EntityRef → List String
  keys_of_entities [] = []
  keys_of_entities (entity ∷ entities) =
      let rest = keys_of_entities entities in
      let key = entity_key entity in
      if nonempty key then ("entity:" +++ key) ∷ role_key key entity.role ++ rest else rest

  unfoldable pub keys_of_roles : Dict String String → List String
  keys_of_roles [] = []
  keys_of_roles ((raw_name, raw_role) ∷ roles) =
      let rest = keys_of_roles roles in
      let name = normalized_linking_key raw_name in
      let role = normalized_linking_key raw_role in
      if nonempty name && nonempty role
      then ("role:" +++ (name +++ (":" +++ role))) ∷ rest
      else rest

  -- `_entity_role_keys`
  unfoldable pub entity_role_keys : MemoryRecord → List String
  entity_role_keys memory =
      keys_of_entities memory.entities
      ++ keys_of_roles memory.roles
      ++ elim (fact_slot_key memory) [ none ↦ [] | some slot ↦ ("slot:" +++ slot) ∷ [] ]

  -- The key of `_unique_entities`.
  abbrev pub entity_identity :
      EntityRef → (Option String × String) × (Option String × Option String)
  entity_identity item =
      ((item.entity_id, normalized_linking_key item.name), (item.kind, item.role))

  unfoldable pub unique_entities : List EntityRef → List EntityRef
  unique_entities items = unique_by entity_identity items
