-- ===== src/Rules/Events/Forgotten.antt =====
-- What `apply_forget` of src/evoeventmem/services/memory_rules.py changes of a record.
use evoeventmem.Prelude.{ℕ, String, ◌≡◌, ◌≢◌, refl, Option, none, some, arith, string_eq, ==_iff}
use evoeventmem.Prelude.Dict.{get, get-put}
use evoeventmem.Domain.Value.{str, Metadata}
use evoeventmem.Domain.Models.{MemoryRecord, deleted}
use evoeventmem.Platform.{Platform}
use evoeventmem.Rules.Events.{apply_forget}

-- The request that is noted, where there is one.
abbrev pub Noted : Option String → Metadata → Metadata → Type 0
Noted none before after = get after "forget_request_id" ≡ get before "forget_request_id"
Noted (some request_id) before after = get after "forget_request_id" ≡ some (str request_id)

-- The record with the deletion marked at a time, and all else as it was. `updated_at` is the time of
-- the store.
pub record Forgotten (p : Platform) (now updated_at : ℕ) (request_id : Option String)
    (m m' : MemoryRecord) : Type 0 where
  pub changed : m' ≡ record m { status = deleted; metadata = m'.metadata; updated_at = updated_at }
  pub marked : get m'.metadata "forgotten_at" ≡ some (str (p.isoformat now))
  pub noted : Noted request_id m.metadata m'.metadata
  pub others :
      (key : String)
      → key ≢ "forgotten_at"
      → key ≢ "forget_request_id"
      → get m'.metadata key ≡ get m.metadata key

pub Forgotten-apply_forget :
    (p : Platform) (m : MemoryRecord) (now updated_at : ℕ) (request_id : Option String)
    → Forgotten p now updated_at request_id m
        (record (apply_forget p m now request_id) { updated_at = updated_at })
unfolding apply_forget
Forgotten-apply_forget p m now updated_at none = record {
  changed = refl;
  marked = rw get-put refl;
  noted = rw get-put refl;
  others = λ key h k. rw get-put (ground (arith, ==_iff "forgotten_at" key));
}
Forgotten-apply_forget p m now updated_at (some request_id) = record {
  changed = refl;
  marked = rw (get-put, get-put) refl;
  noted = rw get-put refl;
  others = λ key h k.
      rw (get-put, get-put)
        (ground (arith, ==_iff "forgotten_at" key, ==_iff "forget_request_id" key));
}
