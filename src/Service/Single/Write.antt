-- ===== src/Service/Single/Write.antt =====
-- What `write` of `MemoryService` keeps and returns.
use evoeventmem.Prelude.{
  ℕ, String, ◌≡◌, refl, ◌∙◌, ap, sym, select, All, All-select, select_passes, find_passes, All-find,
  ◌⊎◌, inl, inr, true, none, some, List, arith, nat_eq, string_eq, option_eq, pair_eq, ◌==◌, ==_iff,
  find, Option-cases, Bool-cases,
}
use evoeventmem.Prelude.Dict
use evoeventmem.Prelude.Dict.{Dict, values, get-put}
use mathlib.Core.Path.{subst₂}
use evoeventmem.Result.{ok, Ensures, Ensures-bind, ensured, Ensures-of}
use evoeventmem.Domain.Text.{normalize_memory_content}
use evoeventmem.Domain.Models.{MemoryRecord}
use evoeventmem.Platform.{Platform}
use evoeventmem.Repository.Port.{Repository, RepositoryLaws}
use evoeventmem.Rules.Identity.{legacy_write_identity}
use evoeventmem.Service.Single.{reuse, add_unless_duplicate, write_in, write, is_duplicate_of}

-- The records of a user, in the order of the dict.
abbrev pub records_of : String → Dict ℕ MemoryRecord → List MemoryRecord
records_of user d = select (λ x. x.user_id == user) (values d)

-- What a write does: it returns the record under the id, which has the identity of the new one; or, with
-- no record under the id, the first duplicate among the user's records; or, with no duplicate either, it
-- adds the record.
abbrev pub Written :
    Platform → MemoryRecord → Dict ℕ MemoryRecord → Dict ℕ MemoryRecord → MemoryRecord → Type 0
Written p m before after stored =
    ((after ≡ before)
      × (Dict.get before m.memory_id ≡ some stored)
      × (legacy_write_identity p stored ≡ legacy_write_identity p m))
    ⊎ ((after ≡ before)
        × (Dict.get before m.memory_id ≡ none)
        × (find (is_duplicate_of m) (records_of m.user_id before) ≡ some stored))
    ⊎ ((after ≡ Dict.put before m.memory_id m)
        × (stored ≡ m)
        × (Dict.get before m.memory_id ≡ none)
        × (find (is_duplicate_of m) (records_of m.user_id before) ≡ none))

-- What is in the dict stays there.
Written-keeps :
    (p : Platform) (m : MemoryRecord) (before after : Dict ℕ MemoryRecord)
    (stored old : MemoryRecord) (id : ℕ)
    → Written p m before after stored
    → Dict.get before id ≡ some old
    → Dict.get after id ≡ some old
Written-keeps p m before after stored old id (inl (same, _, _)) there = rw same there
Written-keeps p m before after stored old id (inr (inl (same, _, _))) there = rw same there
Written-keeps p m before after stored old id (inr (inr (put, _, absent, _))) there =
    rw (put, get-put) (ground (arith, ==_iff m.memory_id id))

-- Under the id there is the record, or nothing new.
Written-again :
    (p : Platform) (m : MemoryRecord) (before mid after : Dict ℕ MemoryRecord)
    (stored stored' : MemoryRecord)
    → Written p m before mid stored
    → Written p m mid after stored'
    → (stored' ≡ stored) × (after ≡ mid)
Written-again p m before mid after stored stored' (inl (same, there, _)) w = ground arith
Written-again p m before mid after stored stored' (inr (inl (same, absent, found))) w = ground arith
Written-again p m before mid after stored stored' (inr (inr (put, new, absent, _))) w =
    ground (arith, get-put before m.memory_id m.memory_id m)

-- The normalised content that a validated record carries.
abbrev pub IsNormalized : Platform → MemoryRecord → Type 0
IsNormalized p x = x.normalized_content ≡ some (normalize_memory_content p.casefold x.content)

identity_of_duplicate :
    (p : Platform) (m x : MemoryRecord)
    → IsNormalized p m
    → IsNormalized p x
    → is_duplicate_of m x ≡ true
    → (x.user_id == m.user_id) ≡ true
    → legacy_write_identity p x ≡ legacy_write_identity p m
unfolding legacy_write_identity
identity_of_duplicate p m x hm hx d u = ground (
  arith,
  ==_iff x.tenant_id m.tenant_id,
  ==_iff x.normalized_content m.normalized_content,
  ==_iff x.user_id m.user_id,
)

identity-Written :
    (p : Platform) (m : MemoryRecord) (before after : Dict ℕ MemoryRecord) (stored : MemoryRecord)
    → IsNormalized p m
    → All (IsNormalized p) (values before)
    → Written p m before after stored
    → legacy_write_identity p stored ≡ legacy_write_identity p m
identity-Written p m before after stored hm hs (inl (_, _, same)) = same
identity-Written p m before after stored hm hs (inr (inl (_, _, found))) =
    let user = λ (x : MemoryRecord). x.user_id == m.user_id in
    identity_of_duplicate p m stored hm
      (All-find (is_duplicate_of m) (IsNormalized p) (records_of m.user_id before) stored
        (All-select user (IsNormalized p) (values before) hs) found)
      (find_passes (is_duplicate_of m) (records_of m.user_id before) stored found)
      (All-find (is_duplicate_of m) (λ x. user x ≡ true) (records_of m.user_id before) stored
        (select_passes user (values before)) found)
identity-Written p m before after stored hm hs (inr (inr (_, new, _, _))) =
    ap (legacy_write_identity p) new

module _ (p : Platform) (r : Repository) (laws : RepositoryLaws r) (m : MemoryRecord) where
  open laws use {contents}

  abbrev WrittenFrom : r.State → r.State × MemoryRecord → Type 0
  WrittenFrom s e = Written p m (contents s) (contents e.0) e.1

  Written-reuse :
      (s : r.State) (existing : MemoryRecord)
      → Dict.get (contents s) m.memory_id ≡ some existing
      → Ensures (WrittenFrom s) (reuse p r s m existing)
  unfolding reuse
  Written-reuse s existing h =
      elim (Bool-cases (legacy_write_identity p existing == legacy_write_identity p m)) [
        | inl same ↦ rw same (inl (refl, h, (==_iff _ _).0 same))
        | inr differs ↦ rw differs tt
      ]

  Written-add :
      (s : r.State)
      → Dict.get (contents s) m.memory_id ≡ none
      → Ensures (WrittenFrom s) (add_unless_duplicate p r s m)
  unfolding add_unless_duplicate
  Written-add s h = Ensures-bind (WrittenFrom s) (r.list_for_user s m.user_id) _ λ records listed.
      rw (laws.list_contents s m.user_id records listed)
        (elim (Option-cases (find (is_duplicate_of m) (records_of m.user_id (contents s)))) [
          | inl none_found ↦ rw none_found (
              Ensures-of (WrittenFrom s) (r.add s m) λ e done.
                let (same, put) = laws.add_contents s e.0 m e.1 done in
                inr (inr (put, same, h, none_found)))
          | inr (existing, found) ↦ rw found (inr (inl (refl, h, found)))
        ])

  Written-write_in : (s : r.State) → Ensures (WrittenFrom s) (write_in p r m s)
  unfolding write_in
  Written-write_in s = Ensures-bind (WrittenFrom s) (r.get s m.memory_id) _ λ found got.
      elim (Option-cases found) [
        | inl absent ↦
            rw absent (Written-add s (sym (laws.get_contents s m.memory_id found got) ∙ absent))
        | inr (existing, there) ↦
            rw there
              (Written-reuse s existing (sym (laws.get_contents s m.memory_id found got) ∙ there))
      ]

  Written-transaction : (s : r.State) → Ensures (WrittenFrom s) (write p r s m)
  unfolding write
  Written-transaction s = Ensures-bind (WrittenFrom s) (r.begin s) _ λ w begun.
      Ensures-bind (WrittenFrom s) (write_in p r m w) _ λ e ran.
        Ensures-bind (WrittenFrom s) (r.commit s e.0) _ λ s' committed.
          subst₂ (λ before after. Written p m before after e.1) (laws.begin_contents s w begun)
            (sym (laws.commit_contents s e.0 s' committed))
            (ensured (WrittenFrom w) _ e (Written-write_in w) ran)

  -- A write that succeeds does one of three things. It returns the record that is there under the id, which
  -- has the tenant, the user and the normalised content of the new one, and changes nothing. With no
  -- record under the id it returns the first record of the user with the same tenant and normalised content,
  -- and changes nothing. With no such record either it adds the record under its id and returns it.
  pub write_lem :
      (s s' : r.State) (stored : MemoryRecord)
      → write p r s m ≡ ok (s', stored)
      → Written p m (contents s) (contents s') stored
  write_lem s s' stored h = ensured (WrittenFrom s) _ (s', stored) (Written-transaction s) h

  -- A write loses and changes no record: whatever was in the repository under an id is still there.
  pub get-write :
      (s s' : r.State) (stored old : MemoryRecord) (id : ℕ)
      → write p r s m ≡ ok (s', stored)
      → Dict.get (contents s) id ≡ some old
      → Dict.get (contents s') id ≡ some old
  get-write s s' stored old id h there =
      Written-keeps p m (contents s) (contents s') stored old id (write_lem s s' stored h) there

  -- Writing the same record again returns the same memory and changes nothing.
  pub write_again :
      (s s' s'' : r.State) (stored stored' : MemoryRecord)
      → write p r s m ≡ ok (s', stored)
      → write p r s' m ≡ ok (s'', stored')
      → (stored' ≡ stored) × (contents s'' ≡ contents s')
  write_again s s' s'' stored stored' h k =
      Written-again p m (contents s) (contents s') (contents s'') stored stored'
        (write_lem s s' stored h) (write_lem s' s'' stored' k)

  -- Over normalised records, what a write of a normalised record returns has the tenant, the user and the
  -- normalised content of that record.
  pub identity-write :
      (s s' : r.State) (stored : MemoryRecord)
      → IsNormalized p m
      → All (IsNormalized p) (values (contents s))
      → write p r s m ≡ ok (s', stored)
      → legacy_write_identity p stored ≡ legacy_write_identity p m
  identity-write s s' stored hm hs h =
      identity-Written p m (contents s) (contents s') stored hm hs (write_lem s s' stored h)
