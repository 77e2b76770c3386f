-- ===== src/Failures.antt =====
-- src/evoeventmem/infra/failures.py: the reason codes of failures. A `detail` that is no text is none.
pub mod Known
use evoeventmem.Prelude.{
  ℕ, String, Bool, true, false, Option, none, some, List, [], ◌∷◌, contains, ◌==◌, nat_eq,
  string_eq, if◌then◌else◌,
}
use evoeventmem.Prelude.Dict
use evoeventmem.Prelude.Dict.{Dict}

abbrev pub reason_store_unavailable : String
reason_store_unavailable = "store_unavailable"

abbrev pub reason_store_timeout : String
reason_store_timeout = "store_timeout"

abbrev pub reason_embedding_unavailable : String
reason_embedding_unavailable = "embedding_unavailable"

abbrev pub reason_embedding_dimension_mismatch : String
reason_embedding_dimension_mismatch = "embedding_dimension_mismatch"

abbrev pub reason_scope_mismatch : String
reason_scope_mismatch = "scope_mismatch"

abbrev pub reason_memory_id_collision : String
reason_memory_id_collision = "memory_id_collision"

abbrev pub reason_not_found_or_out_of_scope : String
reason_not_found_or_out_of_scope = "not_found_or_out_of_scope"

abbrev pub reason_invalid_request : String
reason_invalid_request = "invalid_request"

abbrev pub reason_internal : String
reason_internal = "internal_error"

-- `KNOWN_REASONS`
abbrev pub known_reasons : List String
known_reasons =
    reason_store_unavailable ∷ reason_store_timeout ∷ reason_embedding_unavailable
    ∷ reason_embedding_dimension_mismatch ∷ reason_scope_mismatch ∷ reason_memory_id_collision
    ∷ reason_not_found_or_out_of_scope ∷ reason_invalid_request ∷ reason_internal ∷ []

-- `REASON_SOURCES`
abbrev pub reason_sources : Dict String String
reason_sources =
    (reason_store_unavailable, "postgres")
    ∷ (reason_store_timeout, "postgres")
    ∷ (reason_embedding_unavailable, "embedding")
    ∷ (reason_embedding_dimension_mismatch, "embedding")
    ∷ []

abbrev pub or_api : Option String → String
or_api none = "api"
or_api (some source) = source

unfoldable pub reason_source : String → String
reason_source reason = or_api (Dict.get reason_sources reason)

-- The mapping of the status code.
unfoldable pub reason_of_code : ℕ → String
reason_of_code status =
    if status == 400
    then reason_invalid_request
    else if status == 404
    then reason_not_found_or_out_of_scope
    else if status == 409
    then reason_memory_id_collision
    else if status == 422
    then reason_invalid_request
    else if status == 502
    then reason_embedding_unavailable
    else if status == 503
    then reason_store_unavailable
    else reason_internal

unfoldable pub reason_for_status : ℕ → Option String → String
reason_for_status status none = reason_of_code status
reason_for_status status (some detail) =
    if contains detail known_reasons then detail else reason_of_code status
