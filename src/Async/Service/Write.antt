-- ===== src/Async/Service/Write.antt =====
-- What `write` of `AsyncMemoryService` returns and changes.
use evoeventmem.Prelude.{
  ℕ, String, ◌≡◌, refl, sym, ◌⊎◌, inl, inr, false, Option, none, some, nat_eq, string_eq, option_eq,
  pair_eq, ◌==◌, ==_iff, not, Bool-cases, All,
}
use evoeventmem.Prelude.Dict
use evoeventmem.Prelude.Dict.{Dict, get-put, values}
use evoeventmem.Result.{
  ok, err, scope_mismatch, Ensures, Ensures-bind, Ensures-of, Ensures-then, ensured, raise_if,
}
use evoeventmem.Domain.Text.{normalize_memory_content}
use evoeventmem.Domain.Models.{MemoryRecord}
use evoeventmem.Rules.Identity.{legacy_write_identity}
use evoeventmem.Rules.Scope.{RequestScope}
use evoeventmem.Async.Types.{active_only}
use evoeventmem.Async.Port.{AsyncRepository, AsyncLaws, visible_in, Listed, Differs}
use evoeventmem.Async.Service.{
  AsyncMemoryService, embed_document, add_new, unless_duplicate, write_unless_duplicate,
  unless_existing, has_scope_of, write,
}

-- The content by which duplicates are looked up.
abbrev pub content_key : AsyncMemoryService → MemoryRecord → String
content_key self m = normalize_memory_content self.platform.casefold m.content

-- A write returns the visible record under the id, which has the identity of the new one; or, with
-- nothing visible under the id, an active record of the scope with the same content; or, with neither,
-- it adds the record.
abbrev pub Written :
    AsyncMemoryService
    → RequestScope
    → MemoryRecord
    → Dict ℕ MemoryRecord
    → Dict ℕ MemoryRecord
    → MemoryRecord
    → Type 0
Written self scope m before after saved =
    ((after ≡ before)
      × (visible_in scope (Dict.get before m.memory_id) ≡ some saved)
      × (legacy_write_identity self.platform saved ≡ legacy_write_identity self.platform m))
    ⊎ ((after ≡ before)
        × (visible_in scope (Dict.get before m.memory_id) ≡ none)
        × Listed scope active_only saved
        × (saved.normalized_content ≡ some (content_key self m)))
    ⊎ ((after ≡ Dict.put before m.memory_id m)
        × (saved ≡ m)
        × (visible_in scope (Dict.get before m.memory_id) ≡ none)
        × All (Differs scope (content_key self m)) (values before))

module _ (self : AsyncMemoryService) (r : AsyncRepository) (laws : AsyncLaws r)
    (scope : RequestScope) (m : MemoryRecord) where
  open laws use {items}

  abbrev WrittenFrom : r.State → r.State × MemoryRecord → Type 0
  WrittenFrom s e = Written self scope m (items s) (items e.0) e.1

  abbrev Hidden : r.State → Type 0
  Hidden s = visible_in scope (Dict.get (items s) m.memory_id) ≡ none

  Written-add_new :
      (s : r.State)
      → Hidden s
      → All (Differs scope (content_key self m)) (values (items s))
      → Ensures (WrittenFrom s) (add_new self r s scope m)
  unfolding add_new
  Written-add_new s hidden differ =
      Ensures-bind (WrittenFrom s) (embed_document self m) _ λ vector _.
        Ensures-of (WrittenFrom s) (r.add s scope m vector) λ e done.
          let (same, put) = laws.add_items s e.0 scope m e.1 vector done in
          inr (inr (put, same, hidden, differ))

  Written-unless_duplicate :
      (s : r.State) (duplicate : Option MemoryRecord)
      → Hidden s
      → r.find_by_normalized_content s scope (content_key self m) ≡ ok duplicate
      → Ensures (WrittenFrom s) (unless_duplicate self r s scope m duplicate)
  Written-unless_duplicate s none hidden found =
      Written-add_new s hidden (laws.find_none_items s scope (content_key self m) found)
  Written-unless_duplicate s (some duplicate) hidden found =
      let (listed, same) = laws.find_items s scope (content_key self m) duplicate found in
      inr (inl (refl, hidden, listed, same))

  Written-unless_existing :
      (s : r.State) (existing : Option MemoryRecord)
      → existing ≡ visible_in scope (Dict.get (items s) m.memory_id)
      → Ensures (WrittenFrom s) (unless_existing self r s scope m existing)
  unfolding write_unless_duplicate
  Written-unless_existing s none h =
      Ensures-bind (WrittenFrom s) (r.find_by_normalized_content s scope (content_key self m)) _
        λ duplicate found. Written-unless_duplicate s duplicate (sym h) found
  Written-unless_existing s (some existing) h =
      elim (Bool-cases
        (legacy_write_identity self.platform existing == legacy_write_identity self.platform m)) [
          | inl same ↦ rw same (inl (refl, sym h, (==_iff _ _).0 same))
          | inr differs ↦ rw differs tt
        ]

  Written-write : (s : r.State) → Ensures (WrittenFrom s) (write self r s scope m)
  unfolding write
  Written-write s =
      Ensures-then (WrittenFrom s) (raise_if (not (has_scope_of scope m)) scope_mismatch) _ (
        Ensures-bind (WrittenFrom s) (r.get s scope m.memory_id) _ λ existing got.
          Written-unless_existing s existing (laws.get_items s scope m.memory_id existing got))

  -- A write that succeeds does one of three things. It returns the record of the scope that is under the
  -- id, which has the write identity of the new one, and changes nothing. With no record of the scope
  -- under the id it returns an active record of the scope with the same normalised content, and changes
  -- nothing. Or, again with no record of the scope
  -- under the id and with no active record of the scope that has its content, it puts the record there.
  pub write_async_lem :
      (s s' : r.State) (saved : MemoryRecord)
      → write self r s scope m ≡ ok (s', saved)
      → Written self scope m (items s) (items s') saved
  write_async_lem s s' saved ran = ensured (WrittenFrom s) _ (s', saved) (Written-write s) ran

  -- A record that disagrees with the scope of the request is refused.
  pub write-mismatch :
      (s : r.State) → has_scope_of scope m ≡ false → write self r s scope m ≡ err scope_mismatch
  unfolding write
  write-mismatch s h = rw h refl
