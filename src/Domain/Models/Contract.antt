-- ===== src/Domain/Models/Contract.antt =====
-- What the validation of `MemoryRecord` accepts, and what it returns.
use Prim.Native.Char.{Char}
use evoeventmem.Prelude.{
  ℕ, ◌≤◌, String, ◌≡◌, refl, ◌≢◌, ◌↔◌, Bool, true, false, Option, none, some, List, [], ◌∷◌, arith,
  contains, nat_eq, not, ◌&&◌, inl, inr, Bool-cases,
}
use evoeventmem.Result.{ok, NoneFires, raise_first-eq-ok, raise_first_ok}
use evoeventmem.Domain.Text.{normalize_memory_content}
use evoeventmem.Domain.Models.{
  MemoryRecord, MemoryStatus, active, superseded, memory_fields, linked_ids, model_validate,
  normalized, contract_checks, is_superseded, is_some, inverted, is_empty,
}

-- The contract of a durable memory.
pub record IsValid (fold : Char → String) (m : MemoryRecord) : Type 0 where
  pub fields : memory_fields m ≡ true
  pub normalized : m.normalized_content ≡ some (normalize_memory_content fold m.content)
  pub interval : (from to : ℕ) → m.valid_from ≡ some from → m.valid_to ≡ some to → from ≤ to
  pub ordered : m.created_at ≤ m.updated_at
  pub evidence : m.synthetic ≡ false → m.evidence_refs ≢ []
  pub has_superseder : m.status ≡ superseded → (by : ℕ) × (m.superseded_by ≡ some by)
  pub is_superseded_by : (by : ℕ) → m.superseded_by ≡ some by → m.status ≡ superseded
  pub no_self_link : contains m.memory_id (linked_ids m) ≡ false

superseder_of :
    (status : MemoryStatus) (by : Option ℕ)
    → (is_superseded status && not (is_some by)) ≡ false
    → status ≡ superseded
    → (id : ℕ) × (by ≡ some id)
superseder_of status (some id) h e = (id, refl)
superseder_of status none h e = absurd (ground arith)

IsValid-of_checks :
    (fold : Char → String) (m : MemoryRecord)
    → memory_fields m ≡ true
    → NoneFires (contract_checks m)
    → IsValid fold (normalized fold m)
unfolding contract_checks linked_ids memory_fields
IsValid-of_checks fold m f (c, (o, (e, (s, (u, (l, _)))))) = record {
  fields = f;
  normalized = refl;
  interval = λ from to p q. ground arith;
  ordered = ground arith;
  evidence = λ p q. ground arith;
  has_superseder = superseder_of m.status m.superseded_by s;
  is_superseded_by = λ by p. ground arith;
  no_self_link = l;
}

not_inverted :
    (from to : Option ℕ)
    → ((a b : ℕ) → from ≡ some a → to ≡ some b → a ≤ b)
    → inverted from to ≡ false
not_inverted none to h = refl
not_inverted (some a) none h = refl
not_inverted (some a) (some b) h = ground (arith, h a b refl refl)

has_evidence :
    {A : Type 0} (synthetic : Bool) (refs : List A)
    → (synthetic ≡ false → refs ≢ [])
    → (not synthetic && is_empty refs) ≡ false
has_evidence true refs h = refl
has_evidence false [] h = absurd (h refl refl)
has_evidence false (x ∷ refs) h = refl

status_matches :
    (status : MemoryStatus) (by : Option ℕ)
    → (status ≡ superseded → (id : ℕ) × (by ≡ some id))
    → ((id : ℕ) → by ≡ some id → status ≡ superseded)
    → ((is_superseded status && not (is_some by)) ≡ false)
      × ((not (is_superseded status) && is_some by) ≡ false)
status_matches superseded none h k = absurd (let (id, e) = h refl in cc)
status_matches superseded (some id) h k = (refl, refl)
status_matches active none h k = (refl, refl)
status_matches _ none h k = (refl, refl)
status_matches _ (some id) h k = absurd (ground (arith, k id refl))

checks_of_valid :
    (fold : Char → String) (m : MemoryRecord)
    → IsValid fold (normalized fold m)
    → NoneFires (contract_checks m)
unfolding contract_checks linked_ids
checks_of_valid fold m v =
    let (s, u) = status_matches m.status m.superseded_by v.has_superseder v.is_superseded_by in
    (
      not_inverted m.valid_from m.valid_to v.interval,
      (
        ground arith,
        (has_evidence m.synthetic m.evidence_refs v.evidence, (s, (u, (v.no_self_link, tt)))),
      ),
    )

fields-normalized :
    (fold : Char → String) (m : MemoryRecord) → memory_fields (normalized fold m) ≡ memory_fields m
unfolding memory_fields
fields-normalized fold m = refl

-- Validation accepts a record exactly when the record with its normalised content satisfies the
-- contract, and returns that record: the fields are sound, the interval and the timestamps are
-- ordered, evidence is present unless the record is synthetic, `superseded_by` is there exactly in
-- the superseded state, and no link names the record itself.
pub model_validate_iff :
    (fold : Char → String) (m m' : MemoryRecord)
    → (model_validate fold m ≡ ok m') ↔ (IsValid fold m' × (m' ≡ normalized fold m))
unfolding model_validate
model_validate_iff fold m m' = elim (Bool-cases (memory_fields m)) [
  | inl f ↦ (
    λ h.
        let (none_fires, e) =
          raise_first-eq-ok (contract_checks m) (normalized fold m) m' (rw f at h) in
        (rw e (IsValid-of_checks fold m f none_fires), e),
    λ v. rw f (
        rw v.1 (
          raise_first_ok (contract_checks m) (normalized fold m)
            (checks_of_valid fold m (rw v.1 at v.0)))),
  )
  | inr f ↦ (
    λ h. absurd (cc (rw f at h)),
    λ v. absurd (cc (f, fields-normalized fold m, (rw v.1 at v.0).fields)),
  )
]

-- Validating a record that validation returned returns it unchanged.
pub model_validate_again :
    (fold : Char → String) (m m' : MemoryRecord)
    → model_validate fold m ≡ ok m'
    → model_validate fold m' ≡ ok m'
model_validate_again fold m m' h =
    let (v, e) = (model_validate_iff fold m m').0 h in
    (model_validate_iff fold m' m').1 (v, rw e refl)
