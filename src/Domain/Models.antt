-- ===== src/Domain/Models.antt =====
-- The records of src/evoeventmem/domain/models.py and the validation of `MemoryRecord`. UUIDs are
-- their 128-bit numbers, times the microseconds of an instant in UTC, and a confidence or utility is a
-- non-negative double as the number of units of 2 ^ -1074 that it is. `schema_version` is a constant.
pub mod Contract
use evoeventmem.Prelude.{
  ℕ, ◌^◌, String, Bool, true, false, Option, none, some, List, [], ◌∷◌, ◌++◌, ◌&&◌, not, ltb, leb,
  contains, nat_eq, string_eq, ◌==◌, if◌then◌else◌,
}
use evoeventmem.Float.{one}
use evoeventmem.Prelude.Dict.{Dict}
use evoeventmem.Result.{Result, ok, err, validation, raise_first}
use evoeventmem.Domain.Text.{normalize_memory_content}
use evoeventmem.Domain.Value.{Metadata}
use Prim.Native.Char.{Char}

pub data MemoryKind : Type 0 where
  fact event episode procedure : MemoryKind

pub data MemoryStatus : Type 0 where
  active superseded rejected deleted : MemoryStatus

pub record EntityRef : Type 0 where
  pub entity_id : Option String
  pub name : String
  pub kind : Option String
  pub role : Option String

pub record RelationRef : Type 0 where
  pub source : String
  pub predicate : String
  pub target : String
  pub confidence : ℕ

pub record EvidenceRef : Type 0 where
  pub source_type : String
  pub source_id : String
  pub locator : Option String
  pub quote : Option String
  pub metadata : Metadata

pub record MemoryRecord : Type 0 where
  pub memory_id : ℕ
  pub tenant_id : Option String
  pub user_id : String
  pub session_id : Option String
  pub memory_kind : MemoryKind
  pub content : String
  pub normalized_content : Option String
  pub entities : List EntityRef
  pub roles : Dict String String
  pub relations : List RelationRef
  pub evidence_refs : List EvidenceRef
  pub event_time : Option ℕ
  pub valid_from : Option ℕ
  pub valid_to : Option ℕ
  pub status : MemoryStatus
  pub supersedes : List ℕ
  pub superseded_by : Option ℕ
  pub derived_from : List ℕ
  pub derivation : Option String
  pub synthetic : Bool
  pub confidence : ℕ
  pub utility : ℕ
  pub embedding_version : Option String
  pub metadata : Metadata
  pub created_at : ℕ
  pub updated_at : ℕ

-- `x is MemoryStatus.SUPERSEDED` and the like.
abbrev pub is_superseded : MemoryStatus → Bool
is_superseded superseded = true
is_superseded _ = false

abbrev pub is_active : MemoryStatus → Bool
is_active active = true
is_active _ = false

abbrev pub is_deleted : MemoryStatus → Bool
is_deleted deleted = true
is_deleted _ = false

-- `x is not None`
abbrev pub is_some : Option ℕ → Bool
is_some none = false
is_some (some x) = true

-- `Field(min_length=1)`
abbrev pub nonempty : String → Bool
nonempty s = not (s == "")

unfoldable pub entity_fields : EntityRef → Bool
entity_fields e = nonempty e.name

unfoldable pub relation_fields : RelationRef → Bool
relation_fields r =
    nonempty r.source && nonempty r.predicate && nonempty r.target && leb r.confidence one

unfoldable pub evidence_fields : EvidenceRef → Bool
evidence_fields r = nonempty r.source_type && nonempty r.source_id

unfoldable pub all_fields {ℓ} : {A : Type ℓ} → (A → Bool) → List A → Bool
all_fields p [] = true
all_fields p (x ∷ xs) = p x && all_fields p xs

-- The `Field` constraints of `MemoryRecord` and of the models that it holds.
unfoldable pub memory_fields : MemoryRecord → Bool
unfolding entity_fields relation_fields evidence_fields all_fields
memory_fields m =
    nonempty m.user_id
    && nonempty m.content
    && all_fields entity_fields m.entities
    && all_fields relation_fields m.relations
    && all_fields evidence_fields m.evidence_refs
    && leb m.confidence one
    && leb m.utility one

-- `self.valid_from and self.valid_to and self.valid_to < self.valid_from`
abbrev pub inverted : Option ℕ → Option ℕ → Bool
inverted (some from) (some to) = ltb to from
inverted _ _ = false

abbrev pub is_empty {ℓ} : {A : Type ℓ} → List A → Bool
is_empty [] = true
is_empty (x ∷ xs) = false

-- `[*self.supersedes, *self.derived_from]`, and `superseded_by` if there is one
unfoldable pub linked_ids : MemoryRecord → List ℕ
linked_ids m =
    m.supersedes ++ m.derived_from ++ elim m.superseded_by [ none ↦ [] | some by ↦ by ∷ [] ]

-- The tests of `validate_contract` in their order, with their messages.
unfoldable pub contract_checks : MemoryRecord → List (Bool × String)
contract_checks m =
    (inverted m.valid_from m.valid_to, "valid_to must not be earlier than valid_from")
    ∷ (ltb m.updated_at m.created_at, "updated_at must not be earlier than created_at")
    ∷ (
      not m.synthetic && is_empty m.evidence_refs,
      "durable memories require at least one evidence reference",
    )
    ∷ (
      is_superseded m.status && not (is_some m.superseded_by),
      "superseded memories must identify superseded_by",
    )
    ∷ (
      not (is_superseded m.status) && is_some m.superseded_by,
      "only superseded memories may identify superseded_by",
    )
    ∷ (contains m.memory_id (linked_ids m), "memory links must not reference the memory itself")
    ∷ []

-- `self.normalized_content = normalize_memory_content(self.content)`
abbrev pub normalized : (Char → String) → MemoryRecord → MemoryRecord
normalized fold m = record m { normalized_content = some (normalize_memory_content fold m.content) }

unfoldable pub validate_contract : (Char → String) → MemoryRecord → Result MemoryRecord
unfolding raise_first contract_checks
validate_contract fold m = raise_first (contract_checks m) (normalized fold m)

-- `MemoryRecord.model_validate`: the fields, then the contract.
unfoldable pub model_validate : (Char → String) → MemoryRecord → Result MemoryRecord
unfolding validate_contract
model_validate fold m =
    if memory_fields m then validate_contract fold m else err (validation "field constraints")
