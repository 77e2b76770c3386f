-- ===== src/Failures/Known.antt =====
-- The reason codes that `reason_for_status` of src/evoeventmem/infra/failures.py gives.
use evoeventmem.Prelude.{
  ℕ, ◌≡◌, refl, String, Bool, true, false, Option, none, some, contains, ◌==◌, nat_eq, string_eq,
  Bool-cases, inl, inr, if◌then◌else◌,
}
use evoeventmem.Failures.{known_reasons, reason_of_code, reason_for_status}

abbrev IsKnown : String → Type 0
IsKnown reason = contains reason known_reasons ≡ true

IsKnown-if :
    (b : Bool) (left right : String)
    → IsKnown left
    → IsKnown right
    → IsKnown (if b then left else right)
IsKnown-if true left right h k = h
IsKnown-if false left right h k = k

IsKnown-reason_of_code : (status : ℕ) → IsKnown (reason_of_code status)
unfolding reason_of_code contains
IsKnown-reason_of_code status = IsKnown-if (status == 400) _ _ refl (
    IsKnown-if (status == 404) _ _ refl (
      IsKnown-if (status == 409) _ _ refl (
        IsKnown-if (status == 422) _ _ refl
          (IsKnown-if (status == 502) _ _ refl (IsKnown-if (status == 503) _ _ refl refl)))))

reason_for_status-IsKnown :
    (status : ℕ) (detail : Option String) → IsKnown (reason_for_status status detail)
unfolding reason_for_status
reason_for_status-IsKnown status none = IsKnown-reason_of_code status
reason_for_status-IsKnown status (some detail) = elim (Bool-cases (contains detail known_reasons)) [
  | inl known ↦ rw known known
  | inr other ↦ rw other (IsKnown-reason_of_code status)
]

known_reason_stays :
    (outer : ℕ) (reason : String) → IsKnown reason → reason_for_status outer (some reason) ≡ reason
unfolding reason_for_status
known_reason_stays outer reason known = rw known refl

-- A reason is a known one, whatever the status and the detail are, and it survives the way through another
-- layer: where it is the detail of a response with any status, it is the reason of that response.
pub reason_for_status_again :
    (status outer : ℕ) (detail : Option String)
    → (contains (reason_for_status status detail) known_reasons ≡ true)
      × (reason_for_status outer (some (reason_for_status status detail))
          ≡ reason_for_status status detail)
reason_for_status_again status outer detail =
    let known = reason_for_status-IsKnown status detail in
    (known, known_reason_stays outer (reason_for_status status detail) known)
