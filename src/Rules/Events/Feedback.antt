-- ===== src/Rules/Events/Feedback.antt =====
-- Feedback events accumulate.
use evoeventmem.Prelude.{
  ℕ, String, ◌≡◌, refl, ap, ◌∙◌, Option, none, some, List, [], ◌∷◌, ◌++◌, arith, select, string_eq,
  Bool, ◌≢◌, ==_iff,
}
use evoeventmem.Prelude.Dict.{get, put, get-put}
use evoeventmem.Domain.Value.{Value, Fields, obj, arr, Metadata, items, elements, is_obj, as_arr}
use evoeventmem.Domain.Models.{MemoryRecord}
use evoeventmem.Platform.{Platform}
use evoeventmem.Rules.Events.{dicts_among, existing_events, feedback_event, apply_feedback}

elements-items : (vs : List Value) → elements (items vs) ≡ vs
unfolding elements items
elements-items [] = refl
elements-items (v ∷ vs) = ap (◌∷◌ v) (elements-items vs)

select_append :
    (p : Value → Bool) (xs ys : List Value) → select p (xs ++ ys) ≡ select p xs ++ select p ys
unfolding select
select_append p [] ys = refl
select_append p (x ∷ xs) ys = ground (arith, select_append p xs ys)

select_again : (p : Value → Bool) (xs : List Value) → select p (select p xs) ≡ select p xs
unfolding select
select_again p [] = refl
select_again p (x ∷ xs) = ground (arith, select_again p xs)

dicts_among-again :
    (events : Option (List Value)) → select is_obj (dicts_among events) ≡ dicts_among events
unfolding dicts_among
dicts_among-again none = refl
dicts_among-again (some events) = select_again is_obj events

existing_events-again :
    (metadata : Metadata) → select is_obj (existing_events metadata) ≡ existing_events metadata
unfolding existing_events
existing_events-again metadata = dicts_among-again (as_arr (get metadata "feedback_events"))

dicts_among-items :
    (vs : List Value) → dicts_among (as_arr (some (arr (items vs)))) ≡ select is_obj vs
unfolding dicts_among as_arr
dicts_among-items vs = ap (select is_obj) (elements-items vs)

events-put :
    (metadata : Metadata) (vs : List Value)
    → existing_events (put metadata "feedback_events" (arr (items vs))) ≡ select is_obj vs
unfolding existing_events
events-put metadata vs =
    ap (λ v. dicts_among (as_arr v))
      (get-put metadata "feedback_events" "feedback_events" (arr (items vs)))
    ∙ dicts_among-items vs

events-append :
    (metadata : Metadata) (fs : Fields)
    → select is_obj (existing_events metadata ++ obj fs ∷ [])
      ≡ existing_events metadata ++ obj fs ∷ []
events-append metadata fs = rw (select_append, existing_events-again) (unfold select is_obj in refl)

-- Feedback appends its event to the recorded events, which it keeps in their order, and changes no other
-- metadata.
pub existing_events-apply_feedback :
    (p : Platform) (m : MemoryRecord) (outcome : String) (rating : Option ℕ) (now : ℕ)
    (request_id : Option String)
    → (existing_events (apply_feedback p m outcome rating now request_id).metadata
        ≡ existing_events m.metadata ++ feedback_event p outcome rating now request_id ∷ [])
      × ((key : String)
          → key ≢ "feedback_events"
          → get (apply_feedback p m outcome rating now request_id).metadata key
            ≡ get m.metadata key)
unfolding apply_feedback
existing_events-apply_feedback p m outcome rating now request_id = (
  events-put m.metadata _ ∙ unfold feedback_event in events-append m.metadata _,
  λ key other. rw get-put (ground (arith, ==_iff "feedback_events" key)),
)
