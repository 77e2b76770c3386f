-- ===== src/Tests/Records.antt =====
-- The theorems on records, scopes and feedback at concrete inputs.
use evoeventmem.Prelude.{
  ◌≡◌, refl, ◌↔◌, none, some, ◌≢◌, [], ◌∷◌, String, ◌++◌, contains, string_eq,
}
use evoeventmem.Prelude.Dict.{get}
use evoeventmem.Result.{ok}
use evoeventmem.Float.{one}
use evoeventmem.Domain.Models.{model_validate, normalized, memory_fields, linked_ids}
use evoeventmem.Domain.Models.Contract.{IsValid, model_validate_iff, model_validate_again}
use evoeventmem.Domain.Text.{normalize_memory_content}
use evoeventmem.Rules.Scope.{RequestScope, mismatch, scope_matches, scope_matches_memory}
use evoeventmem.Rules.Scope.Laws
use evoeventmem.Rules.Events.{existing_events, feedback_event, apply_feedback}
use evoeventmem.Rules.Events.Feedback.{existing_events-apply_feedback}
use evoeventmem.Tests.Samples.{platform, tea}

abbrev acme : RequestScope
acme = record { tenant_id = "acme"; user_id = "ada"; session_id = none }

tea_validates : model_validate platform.casefold tea ≡ ok tea
unfolding model_validate normalize_memory_content memory_fields one contains linked_ids
tea_validates = refl

model_validate_iff_example :
    (model_validate platform.casefold tea ≡ ok tea)
    ↔ (IsValid platform.casefold tea × (tea ≡ normalized platform.casefold tea))
model_validate_iff_example = model_validate_iff platform.casefold tea tea

model_validate_again_example : model_validate platform.casefold tea ≡ ok tea
model_validate_again_example = model_validate_again platform.casefold tea tea tea_validates

scope_matches_memory_eq_example :
    scope_matches_memory tea (some "acme") (some "ada") none ≡ scope_matches tea acme
scope_matches_memory_eq_example = Laws.scope_matches_memory_eq acme tea

mismatch_lem_example : (mismatch acme (some "acme") none (some "s1") ≡ none) ↔ (
    Laws.Agrees (some "acme") (some "acme")
    × Laws.Agrees none (some "ada")
    × Laws.Agrees (some "s1") acme.session_id)
mismatch_lem_example = Laws.mismatch_lem acme (some "acme") none (some "s1")

existing_events-apply_feedback_example :
    (existing_events (apply_feedback platform tea "good" none 20 none).metadata
      ≡ existing_events [] ++ feedback_event platform "good" none 20 none ∷ [])
    × ((key : String)
        → key ≢ "feedback_events"
        → get (apply_feedback platform tea "good" none 20 none).metadata key ≡ get [] key)
existing_events-apply_feedback_example =
    existing_events-apply_feedback platform tea "good" none 20 none
