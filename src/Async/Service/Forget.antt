-- ===== src/Async/Service/Forget.antt =====
-- What `feedback` and `forget` of `AsyncMemoryService` change, and that `forget` never fails on a
-- repository in memory that is open.
use evoeventmem.Prelude.{
  ℕ, String, ◌≡◌, refl, ◌∙◌, sym, ap, ◌⊎◌, inl, inr, false, Option, none, some, List, arith, nat_eq,
  string_eq, option_eq, ==_iff, Option-cases, length,
}
use evoeventmem.Prelude.Dict
use evoeventmem.Prelude.Dict.{Dict, get-put}
use evoeventmem.Result.{ok, Ensures, Ensures-bind, ensured, ◌>>=◌}
use evoeventmem.Float.Signed.{Signed}
use evoeventmem.Domain.Models.{MemoryRecord}
use evoeventmem.Rules.Events.{apply_forget}
use evoeventmem.Rules.Events.Forgotten.{Forgotten, Forgotten-apply_forget}
use evoeventmem.Rules.Scope.{RequestScope}
use evoeventmem.Async.Types.{EmbeddingVector}
use evoeventmem.Async.Port.{AsyncRepository, AsyncLaws, visible_in}
use evoeventmem.Async.Store.{
  AsyncStore, stored, check_vector, update, get_with_vector, with_vector, in_scope_only,
}
use evoeventmem.Async.Store.Laws.{repository}
use evoeventmem.Async.Store.Invariant.{Reached, Reached-IsConsistent, Fits}
use evoeventmem.Async.Service.{
  AsyncMemoryService, require_vector, update_found, update_visible, forget,
}

-- Nothing visible and no change, or the visible record in its changed form under its id.
abbrev pub Updated :
    RequestScope
    → ℕ
    → (MemoryRecord → MemoryRecord)
    → ℕ
    → Dict ℕ MemoryRecord
    → Dict ℕ MemoryRecord
    → Option MemoryRecord
    → Type 0
Updated scope id change updated_at before after saved =
    ((saved ≡ none) × (after ≡ before) × (visible_in scope (Dict.get before id) ≡ none))
    ⊎ ((m : MemoryRecord) × (visible_in scope (Dict.get before id) ≡ some m)
        × (saved ≡ some (record (change m) { updated_at = updated_at }))
        × (after
            ≡ Dict.put before (change m).memory_id (record (change m) { updated_at = updated_at })))

module _ (self : AsyncMemoryService) (r : AsyncRepository) (laws : AsyncLaws r)
    (scope : RequestScope) (id : ℕ) where
  open laws use {items}

  module _ (change : MemoryRecord → MemoryRecord) (updated_at : ℕ) where
    abbrev UpdatedFrom : r.State → r.State × Option MemoryRecord → Type 0
    UpdatedFrom s e = Updated scope id change updated_at (items s) (items e.0) e.1

    Updated-found :
        (s : r.State) (found : Option MemoryRecord × Option EmbeddingVector)
        → found.0 ≡ visible_in scope (Dict.get (items s) id)
        → Ensures
            (UpdatedFrom s)
            (require_vector found >>= update_found self r s scope change updated_at)
    Updated-found s (none, vector) h = inl (refl, refl, sym h)
    Updated-found s (some m, none) h = tt
    Updated-found s (some m, some vector) h =
        Ensures-bind (UpdatedFrom s) (r.update s scope (change m) vector updated_at) _ λ e done.
          let (same, put) = laws.update_items s e.0 scope (change m) e.1 vector updated_at done in
          inr (m, sym h, ap some same, put ∙ ap (Dict.put (items s) (change m).memory_id) same)

    Updated-update_visible :
        (s : r.State) → Ensures (UpdatedFrom s) (update_visible self r s scope id change updated_at)
    unfolding update_visible
    Updated-update_visible s =
        Ensures-bind (UpdatedFrom s) (r.get_with_vector s scope id) _
          λ found got. Updated-found s found (laws.get_with_vector_items s scope id found got)

  -- Nothing visible and no change, or the visible record marked as deleted.
  abbrev pub Forgets :
      Option String
      → ℕ
      → ℕ
      → Dict ℕ MemoryRecord
      → Dict ℕ MemoryRecord
      → Option MemoryRecord
      → Type 0
  Forgets request_id now updated_at before after saved =
      ((saved ≡ none) × (after ≡ before) × (visible_in scope (Dict.get before id) ≡ none))
      ⊎ ((m : MemoryRecord) × (m' : MemoryRecord) × (visible_in scope (Dict.get before id) ≡ some m)
          × (saved ≡ some m')
          × (after ≡ Dict.put before m.memory_id m')
          × Forgotten self.platform now updated_at request_id m m')

  Forgets-of_update :
      (before after : Dict ℕ MemoryRecord) (saved : Option MemoryRecord)
      (request_id : Option String) (now updated_at : ℕ)
      → Updated scope id
          (λ m. apply_forget self.platform m now request_id)
          updated_at
          before
          after
          saved
      → Forgets request_id now updated_at before after saved
  unfolding apply_forget
  Forgets-of_update before after saved request_id now updated_at (inl nothing) = inl nothing
  Forgets-of_update before after saved request_id now updated_at (inr (m, there, same, put)) =
      let m' = record (apply_forget self.platform m now request_id) { updated_at = updated_at } in
      let f = Forgotten-apply_forget self.platform m now updated_at request_id in
      inr (m, m', there, same, put, f)

  -- A forget that succeeds either finds no record of the scope under the id, returns none and changes
  -- nothing; or it returns the record marked as deleted, and puts it in the place of the record: its
  -- state, the time of its last change and the metadata entries for the time and the request of the
  -- deletion are set, and every other field and metadata entry is as it was.
  pub forget_async_lem :
      (s s' : r.State) (request_id : Option String) (now updated_at : ℕ)
      (saved : Option MemoryRecord)
      → forget self r s scope id request_id now updated_at ≡ ok (s', saved)
      → Forgets request_id now updated_at (items s) (items s') saved
  unfolding forget
  forget_async_lem s s' request_id now updated_at saved ran =
      let change = λ (m : MemoryRecord). apply_forget self.platform m now request_id in
      Forgets-of_update (items s) (items s') saved request_id now updated_at (
        ensured (UpdatedFrom change updated_at s) _ (s', saved)
          (Updated-update_visible change updated_at s) ran)

in_scope_only_found :
    (scope : RequestScope) (o : Option MemoryRecord) (m : MemoryRecord)
    → in_scope_only scope o ≡ some m
    → o ≡ some m
unfolding in_scope_only
in_scope_only_found scope none m h = absurd (cc)
in_scope_only_found scope (some x) m h = ground arith

-- A stored vector is accepted again.
check_vector-Fits : (s : AsyncStore) (v : EmbeddingVector) → Fits s v → check_vector s v ≡ ok tt
unfolding check_vector
check_vector-Fits s v fits = ground (
  arith,
  ==_iff v.model_id s.model_id,
  ==_iff v.dimension s.dimension,
  ==_iff (length v.values) s.dimension,
)

module _ (self : AsyncMemoryService) (cosine : List ℕ → List ℕ → Signed) (scope : RequestScope)
    (id : ℕ) (request_id : Option String) (now updated_at : ℕ) where
  abbrev pub Succeeds : AsyncStore → Type 0
  Succeeds s =
      (s' : AsyncStore) × (saved : Option MemoryRecord) × (forget self (repository cosine) s scope
          id request_id now updated_at
        ≡ ok (s', saved))

  Succeeds-hidden :
      (s : AsyncStore)
      → s.closed ≡ false
      → in_scope_only scope (Dict.get s.items id) ≡ none
      → Succeeds s
  unfolding forget update_visible get_with_vector with_vector
  Succeeds-hidden s open_ hidden = (s, none, rw (open_, hidden) refl)

  Succeeds-visible :
      (s : AsyncStore) (m : MemoryRecord) (v : EmbeddingVector)
      → s.closed ≡ false
      → m.memory_id ≡ id
      → in_scope_only scope (Dict.get s.items id) ≡ some m
      → Dict.get s.vectors id ≡ some v
      → Fits s v
      → Succeeds s
  unfolding forget update_visible get_with_vector with_vector update apply_forget
  Succeeds-visible s m v open_ same there vector fits =
      let there' : in_scope_only scope (Dict.get s.items m.memory_id) ≡ some m =
        ap (λ k. in_scope_only scope (Dict.get s.items k)) same ∙ there in
      let m' = record (apply_forget self.platform m now request_id) { updated_at = updated_at } in
      (stored s m' v, some m', rw (open_, there, vector, check_vector-Fits s v fits, there') refl)

  -- On a repository in memory that is open, in any state that calls reach, a forget succeeds: it never
  -- finds a record without a vector, and the repository accepts the vector again.
  pub forget-Succeeds : (s : AsyncStore) → Reached s → s.closed ≡ false → Succeeds s
  forget-Succeeds s reached open_ =
      let c = Reached-IsConsistent reached in
      elim (Option-cases (in_scope_only scope (Dict.get s.items id))) [
        | inl hidden ↦ Succeeds-hidden s open_ hidden
        | inr (m, there) ↦
            let in_items : Dict.get s.items id ≡ some m = in_scope_only_found scope _ m there in
            elim (Option-cases (Dict.get s.vectors id)) [
              | inl missing ↦ absurd (cc ((c.paired id).1 missing, in_items))
              | inr (v, found) ↦
                  Succeeds-visible s m v open_ (c.keyed id m in_items) there found
                    (c.fitting id v found)
            ]
      ]
