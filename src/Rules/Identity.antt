-- ===== src/Rules/Identity.antt =====
-- The identities of src/evoeventmem/services/memory_rules.py: the write key of a candidate, the
-- identities of collisions, and the canonical form of JSON values that the key is made from.
use evoeventmem.Prelude.{
  ℕ, String, Bool, true, false, Option, none, some, List, [], ◌∷◌, map, ◌+++◌, string_eq,
}
use Prim.Native.Nat.{Ordering}
use Prim.Native.String.{compare}
use evoeventmem.Prelude.Dict.{get}
use evoeventmem.Prelude.Sort.{sort}
use evoeventmem.Domain.Text.{normalize_memory_content}
use evoeventmem.Domain.Value.{
  Value, null, bool, float, str, arr, obj, Items, nil, cons, Fields, end, field, Metadata, items,
  fields, str_or_null, as_str, as_obj,
}
use evoeventmem.Domain.Models.{
  MemoryRecord, EvidenceRef, EntityRef, RelationRef, MemoryKind, fact, event, episode, procedure,
}
use evoeventmem.Platform.{Platform}

abbrev pub str_lt : String → String → Bool
str_lt s t = elim (compare s t) [ Ordering.lt ↦ true | _ ↦ false ]

-- An entry among entries that are sorted by their keys.
unfoldable pub insert_field : String → Value → Fields → Fields
insert_field k v end = field k v end
insert_field k v (field j w fs) =
    let rest = insert_field k v fs in
    elim (str_lt j k) [ true ↦ field j w rest | false ↦ field k v (field j w fs) ]

-- `_canonical_json_value`: the keys of every dict are sorted.
unfoldable mutual
  pub canonical : Value → Value
  canonical null = null
  canonical (bool b) = bool b
  canonical (float x) = float x
  canonical (str s) = str s
  canonical (arr vs) = arr (canonical_items vs)
  canonical (obj fs) = obj (canonical_fields fs)

  pub canonical_items : Items → Items
  canonical_items nil = nil
  canonical_items (cons v vs) = cons (canonical v) (canonical_items vs)

  pub canonical_fields : Fields → Fields
  canonical_fields end = end
  canonical_fields (field k v fs) = insert_field k (canonical v) (canonical_fields fs)

abbrev pub kind_value : MemoryKind → String
kind_value fact = "fact"
kind_value event = "event"
kind_value episode = "episode"
kind_value procedure = "procedure"

abbrev pub value_or_null : Option Value → Value
value_or_null none = null
value_or_null (some v) = v

abbrev pub is_present : Option Value → Bool
is_present none = false
is_present (some v) = true

module _ (p : Platform) where
  -- `sorted(values, key=_canonical_sort_key)`
  abbrev pub sorted_values : List Value → Value
  sorted_values vs = arr (items (sort (λ a b. str_lt (p.dumps a) (p.dumps b)) vs))

  unfoldable pub evidence_payload : EvidenceRef → Value
  evidence_payload ref = obj (
      fields (
        ("source_type", str ref.source_type)
        ∷ ("source_id", str ref.source_id)
        ∷ ("locator", str_or_null ref.locator)
        ∷ ("quote", str_or_null ref.quote)
        ∷ ("metadata", canonical (obj (fields ref.metadata)))
        ∷ []))

  unfoldable pub entity_payload : EntityRef → Value
  entity_payload entity = obj (
      fields (
        ("entity_id", str_or_null entity.entity_id)
        ∷ ("name", str (normalize_memory_content p.casefold entity.name))
        ∷ ("kind", str_or_null entity.kind)
        ∷ ("role", str_or_null entity.role)
        ∷ []))

  unfoldable pub role_payload : String × String → Value
  role_payload (key, value) = arr (cons (str key) (cons (str value) nil))

  unfoldable pub relation_payload : RelationRef → Value
  relation_payload relation = obj (
      fields (
        ("source", str relation.source)
        ∷ ("predicate", str relation.predicate)
        ∷ ("target", str relation.target)
        ∷ ("confidence", float relation.confidence)
        ∷ []))

  abbrev pub time_payload : Option ℕ → Value
  time_payload none = null
  time_payload (some t) = str (p.dump_time t)

  -- One of the fields of `fact_metadata`.
  unfoldable pub fact_payload : Metadata → String → String × Value
  fact_payload metadata name = (
    name,
    obj (
        fields (
          ("present", bool (is_present (get metadata name)))
          ∷ ("value", canonical (value_or_null (get metadata name)))
          ∷ [])),
  )

  -- `_candidate_identity`
  unfoldable pub candidate_identity : MemoryRecord → Value
  candidate_identity memory = obj (
      fields (
        ("memory_kind", str (kind_value memory.memory_kind))
        ∷ ("normalized_content", str (normalize_memory_content p.casefold memory.content))
        ∷ ("event_time", time_payload memory.event_time)
        ∷ ("valid_from", time_payload memory.valid_from)
        ∷ ("valid_to", time_payload memory.valid_to)
        ∷ ("entities", sorted_values (map entity_payload memory.entities))
        ∷ ("roles", sorted_values (map role_payload memory.roles))
        ∷ ("relations", sorted_values (map relation_payload memory.relations))
        ∷ (
          "fact_metadata",
          obj (
              fields (
                map (fact_payload memory.metadata)
                  ("fact_slot" ∷ "fact_value" ∷ "multi_valued" ∷ []))),
        )
        ∷ []))

  unfoldable pub idempotency_payload : MemoryRecord → String → Value
  idempotency_payload memory extractor_version = obj (
      fields (
        ("extractor_version", str extractor_version)
        ∷ ("evidence_refs", sorted_values (map evidence_payload memory.evidence_refs))
        ∷ ("candidate_identity", candidate_identity memory)
        ∷ []))

  -- `idempotency_key`
  unfoldable pub idempotency_key : MemoryRecord → String → String
  idempotency_key memory extractor_version =
      "memory-write.v1:" +++ p.sha256 (p.dumps (idempotency_payload memory extractor_version))

  -- `legacy_write_identity`
  unfoldable pub legacy_write_identity : MemoryRecord → Option String × (String × String)
  legacy_write_identity memory =
      (memory.tenant_id, (memory.user_id, normalize_memory_content p.casefold memory.content))

-- `collision_identity`
unfoldable pub collision_identity :
    MemoryRecord → Option String → Option String × (String × Option String)
collision_identity memory key = (memory.tenant_id, (memory.user_id, key))

-- `memory_idempotency_key`: the key of the metadata, or else that of its write pipeline.
unfoldable pub memory_idempotency_key : MemoryRecord → Option String
unfolding as_str as_obj
memory_idempotency_key memory = elim (as_str (get memory.metadata "write_idempotency_key")) [
  | some key ↦ some key
  | none ↦ elim (as_obj (get memory.metadata "write_pipeline")) [
    | some pipeline ↦ as_str (get pipeline "idempotency_key")
    | none ↦ none
  ]
]
