-- ===== src/Repository/InMemory.antt =====
-- `InMemoryMemoryRepository` of src/evoeventmem/infra/in_memory_repository.py. Every record that goes in or
-- comes out is a deep copy, so the records are values here and the lock is not modelled. The flag is
-- that of the repository that opened the transaction; the working copy is a new repository.
use evoeventmem.Prelude.{
  ℕ, String, Bool, false, Option, none, some, List, [], ◌≡◌, inl, inr, Option-cases, ◌==◌,
  string_eq, nat_eq, select, arith, if◌then◌else◌,
}
use evoeventmem.Prelude.Dict
use evoeventmem.Prelude.Dict.{Dict, values}
use evoeventmem.Result.{Result, ok, err, key_error, runtime_error}
use evoeventmem.Domain.Models.{MemoryRecord}
use evoeventmem.Repository.Port.{Repository, RepositoryLaws}

pub record Store : Type 0 where
  pub items : Dict ℕ MemoryRecord
  pub transaction_active : Bool

abbrev pub empty : Store
empty = record { items = []; transaction_active = false }

unfoldable pub add : Store → MemoryRecord → Result (Store × MemoryRecord)
add s m = ok (record s { items = Dict.put s.items m.memory_id m }, m)

unfoldable pub get : Store → ℕ → Result (Option MemoryRecord)
get s id = ok (Dict.get s.items id)

unfoldable pub update : Store → MemoryRecord → Result (Store × MemoryRecord)
update s m = elim (Dict.get s.items m.memory_id) [
  | none ↦ err key_error
  | some existing ↦ ok (record s { items = Dict.put s.items m.memory_id m }, m)
]

unfoldable pub list_for_user : Store → String → Result (List MemoryRecord)
list_for_user s user = ok (select (λ m. m.user_id == user) (values s.items))

-- The entry of `transaction`: the working repository, a copy of the items.
unfoldable pub begin : Store → Result Store
begin s =
    if s.transaction_active
    then err (runtime_error "nested transactions are not supported")
    else ok (record { items = s.items; transaction_active = false })

-- Its exit without an exception: the working items replace those of the repository.
unfoldable pub commit : Store → Store → Result Store
commit s working = ok (record { items = working.items; transaction_active = false })

abbrev pub repository : Repository
repository = record {
  State = Store;
  add = add;
  get = get;
  update = update;
  list_for_user = list_for_user;
  begin = begin;
  commit = commit;
}

pub update_contents :
    (s s' : Store) (m stored : MemoryRecord)
    → update s m ≡ ok (s', stored)
    → (stored ≡ m)
      × (s'.items ≡ Dict.put s.items m.memory_id m)
      × ((old : MemoryRecord) × (Dict.get s.items m.memory_id ≡ some old))
unfolding update
update_contents s s' m stored h = elim (Option-cases (Dict.get s.items m.memory_id)) [
  | inl missing ↦ absurd (ground arith)
  | inr (old, found) ↦ (ground arith, ground arith, (old, found))
]

pub get_contents :
    (s : Store) (id : ℕ) (found : Option MemoryRecord)
    → get s id ≡ ok found
    → found ≡ Dict.get s.items id
unfolding get
get_contents s id found h = ground arith

pub list_contents :
    (s : Store) (user : String) (found : List MemoryRecord)
    → list_for_user s user ≡ ok found
    → found ≡ select (λ m. m.user_id == user) (values s.items)
unfolding list_for_user
list_contents s user found h = ground arith

pub add_contents :
    (s s' : Store) (m stored : MemoryRecord)
    → add s m ≡ ok (s', stored)
    → (stored ≡ m) × (s'.items ≡ Dict.put s.items m.memory_id m)
unfolding add
add_contents s s' m stored h = ground arith

pub begin_contents : (s w : Store) → begin s ≡ ok w → w.items ≡ s.items
unfolding begin
begin_contents s w h = ground arith

pub commit_contents : (s w s' : Store) → commit s w ≡ ok s' → s'.items ≡ w.items
unfolding commit
commit_contents s w s' h = ground arith

-- The repository in memory is a dict of records, and its operations keep to the interface.
abbrev pub laws : RepositoryLaws repository
laws = record {
  contents = λ s. s.items;
  get_contents = get_contents;
  list_contents = list_contents;
  add_contents = add_contents;
  update_contents = update_contents;
  begin_contents = begin_contents;
  commit_contents = commit_contents;
}
