-- ===== src/Repository/Port.antt =====
-- The `MemoryRepository` protocol of src/evoeventmem/core/ports.py. An operation returns its result
-- with the new state, or raises and leaves the state as it was. `transaction` is a context manager: it
-- opens a working copy, whose contents its end publishes.
use evoeventmem.Prelude.{ℕ, String, Option, List, ◌≡◌, ◌==◌, string_eq, nat_eq, select}
use evoeventmem.Prelude.Dict
use evoeventmem.Prelude.Dict.{Dict, values}
use evoeventmem.Result.{Result, ok, ◌>>=◌, Ensures, Ensures-bind, ensured}
use evoeventmem.Domain.Models.{MemoryRecord}

pub record Repository : Type 1 where
  pub State : Type 0
  pub add : State → MemoryRecord → Result (State × MemoryRecord)
  pub get : State → ℕ → Result (Option MemoryRecord)
  pub update : State → MemoryRecord → Result (State × MemoryRecord)
  pub list_for_user : State → String → Result (List MemoryRecord)
  pub begin : State → Result State
  pub commit : State → State → Result State

-- `with repository.transaction() as transaction: body`. What the body raises leaves through the
-- context manager, and nothing of the working copy is published.
unfoldable pub transaction :
    (r : Repository) {A : Type 0}
    → (r.State → Result (r.State × A))
    → r.State
    → Result (r.State × A)
transaction r body s = do
  working ← r.begin s
  (working', a) ← body working
  s' ← r.commit s working'
  ok (s', a)

-- What a repository promises: it is a dict of records by their ids. An operation may still raise.
pub record RepositoryLaws (r : Repository) : Type 0 where
  pub contents : r.State → Dict ℕ MemoryRecord
  pub get_contents :
      (s : r.State) (id : ℕ) (found : Option MemoryRecord)
      → r.get s id ≡ ok found
      → found ≡ Dict.get (contents s) id
  pub list_contents :
      (s : r.State) (user : String) (found : List MemoryRecord)
      → r.list_for_user s user ≡ ok found
      → found ≡ select (λ m. m.user_id == user) (values (contents s))
  pub add_contents :
      (s s' : r.State) (m stored : MemoryRecord)
      → r.add s m ≡ ok (s', stored)
      → (stored ≡ m) × (contents s' ≡ Dict.put (contents s) m.memory_id m)
  pub update_contents :
      (s s' : r.State) (m stored : MemoryRecord)
      → r.update s m ≡ ok (s', stored)
      → (stored ≡ m)
        × (contents s' ≡ Dict.put (contents s) m.memory_id m)
        × ((old : MemoryRecord) × (Dict.get (contents s) m.memory_id ≡ Option.some old))
  pub begin_contents : (s w : r.State) → r.begin s ≡ ok w → contents w ≡ contents s
  pub commit_contents : (s w s' : r.State) → r.commit s w ≡ ok s' → contents s' ≡ contents w

-- What the body ensures of its result holds after the transaction.
pub Ensures-transaction :
    (r : Repository) {A : Type 0} (Q : A → Type 0) (body : r.State → Result (r.State × A))
    (s : r.State)
    → ((w : r.State) → Ensures (λ e. Q e.1) (body w))
    → Ensures (λ e. Q e.1) (transaction r body s)
unfolding transaction
Ensures-transaction r Q body s h =
    Ensures-bind (λ e. Q e.1) (r.begin s) _
      λ w _.
        Ensures-bind (λ e. Q e.1) (body w) _
          λ e ran.
            Ensures-bind (λ e. Q e.1) (r.commit s e.0) _
              λ s' _. ensured (λ e. Q e.1) (body w) e (h w) ran
