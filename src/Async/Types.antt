-- ===== src/Async/Types.antt =====
-- The types of the asynchronous contracts of src/evoeventmem/core/ports.py. A component of a vector is the
-- 64-bit pattern of a double.
use Prim.Native.Nat.{◌/◌, ◌%◌}
use evoeventmem.Prelude.{
  ℕ, ◌^◌, String, Bool, true, false, Option, List, [], ◌∷◌, length, not, ltb, ◌==◌, nat_eq,
}
use evoeventmem.Prelude.Dict.{Dict}
use evoeventmem.Result.{Result, raise_first}
use evoeventmem.Float.Signed.{Signed}
use evoeventmem.Domain.Text.{split}
use evoeventmem.Domain.Models.{MemoryRecord, is_empty, nonempty, all_fields}
use evoeventmem.Rules.Scope.{RequestScope}

pub record EmbeddingVector : Type 0 where
  pub values : List ℕ
  pub model_id : String
  pub dimension : ℕ

-- `math.isfinite` of a bit pattern: the exponent is not all ones.
unfoldable pub isfinite : ℕ → Bool
isfinite bits = not (bits / 2 ^ 52 % 2048 == 2047)

-- `not text.strip()`
unfoldable pub is_blank : String → Bool
is_blank text = is_empty (split text)

-- The validators of `EmbeddingVector`: those of the fields, in their order, and that of the model.
unfoldable pub vector_checks : EmbeddingVector → List (Bool × String)
vector_checks vector =
    (not (all_fields isfinite vector.values), "embedding values must be finite")
    ∷ (is_blank vector.model_id, "model_id must be a nonempty string")
    ∷ (not (ltb 0 vector.dimension), "dimension must be positive")
    ∷ (
      not (vector.dimension == length vector.values),
      "dimension must equal the number of embedding values",
    )
    ∷ []

unfoldable pub validate_vector : EmbeddingVector → Result EmbeddingVector
validate_vector vector = raise_first (vector_checks vector) vector

-- The constraints and the validator of `RequestScope`, field by field.
unfoldable pub scope_checks : RequestScope → List (Bool × String)
scope_checks scope =
    (not (nonempty scope.tenant_id), "field constraints")
    ∷ (is_blank scope.tenant_id, "tenant_id must be a nonempty string")
    ∷ (not (nonempty scope.user_id), "field constraints")
    ∷ (is_blank scope.user_id, "user_id must be a nonempty string")
    ∷ []

unfoldable pub validate_scope : RequestScope → Result RequestScope
validate_scope scope = raise_first (scope_checks scope) scope

pub data MemoryQuery : Type 0 where
  active_only all : MemoryQuery

abbrev pub is_active_only : MemoryQuery → Bool
is_active_only active_only = true
is_active_only all = false

pub record SearchLimit : Type 0 where
  pub state : MemoryQuery
  pub max_results : ℕ

-- `Field(ge=1)`
unfoldable pub validate_search_limit : SearchLimit → Result SearchLimit
validate_search_limit limit =
    raise_first ((ltb limit.max_results 1, "field constraints") ∷ []) limit

pub record SearchVector : Type 0 where
  pub query : EmbeddingVector
  pub scope : RequestScope
  pub limit : SearchLimit

pub record ListQuery : Type 0 where
  pub limit : ℕ
  pub status : MemoryQuery

-- `Field(ge=1)`
unfoldable pub validate_list_query : ListQuery → Result ListQuery
validate_list_query query = raise_first ((ltb query.limit 1, "field constraints") ∷ []) query

pub data SchemaState : Type 0 where
  ready missing mismatch : SchemaState

pub record PingResult : Type 0 where
  pub ok : Bool
  pub schema_state : SchemaState
  pub model_id : Option String
  pub dimension : Option ℕ
  pub detail : Option String

pub record SearchHit : Type 0 where
  pub memory : MemoryRecord
  pub score : Signed
  pub reason : String
  pub source : String
  pub fallback : Bool
  pub fallback_reason : Option String
  pub score_detail : Dict String Signed
