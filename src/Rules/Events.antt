-- ===== src/Rules/Events.antt =====
-- `apply_feedback` and `apply_forget` of src/evoeventmem/services/memory_rules.py, with the
-- `model_copy` that applies the update.
pub mod Feedback
pub mod Forgotten
use evoeventmem.Prelude.{ℕ, String, Option, none, some, List, [], ◌∷◌, ◌++◌, select}
use evoeventmem.Prelude.Dict.{get, put}
use evoeventmem.Prelude.{string_eq}
use evoeventmem.Domain.Value.{
  Value, str, arr, obj, Metadata, items, fields, str_or_null, float_or_null, as_arr, is_obj,
}
use evoeventmem.Domain.Models.{MemoryRecord, deleted}
use evoeventmem.Platform.{Platform}

-- The dicts among the events, if there is a list of them.
unfoldable pub dicts_among : Option (List Value) → List Value
unfolding is_obj select
dicts_among none = []
dicts_among (some events) = select is_obj events

unfoldable pub existing_events : Metadata → List Value
existing_events metadata = dicts_among (as_arr (get metadata "feedback_events"))

unfoldable pub feedback_event : Platform → String → Option ℕ → ℕ → Option String → Value
feedback_event p outcome rating recorded_at request_id = obj (
    fields (
      ("outcome", str outcome)
      ∷ ("rating", float_or_null rating)
      ∷ ("recorded_at", str (p.isoformat recorded_at))
      ∷ ("request_id", str_or_null request_id)
      ∷ []))

unfoldable pub apply_feedback :
    Platform → MemoryRecord → String → Option ℕ → ℕ → Option String → MemoryRecord
apply_feedback p memory outcome rating recorded_at request_id = record memory {
  metadata = put memory.metadata "feedback_events" (
      arr (
        items (
          existing_events memory.metadata
          ++ feedback_event p outcome rating recorded_at request_id ∷ [])));
  updated_at = recorded_at;
}

abbrev pub note_request : Option String → Metadata → Metadata
note_request none metadata = metadata
note_request (some request_id) metadata = put metadata "forget_request_id" (str request_id)

unfoldable pub apply_forget : Platform → MemoryRecord → ℕ → Option String → MemoryRecord
apply_forget p memory forgotten_at request_id = record memory {
  status = deleted;
  metadata =
      note_request request_id (put memory.metadata "forgotten_at" (str (p.isoformat forgotten_at)));
  updated_at = forgotten_at;
}
