-- ===== src/Service/Batch/Atomic.antt =====
-- A request is written as a whole or not at all.
use evoeventmem.Prelude.{
  ℕ, suc, ◌≡◌, ◌≢◌, refl, ◌∙◌, ap, sym, ◌⊎◌, List, [], ◌∷◌, ◌++◌, map, arith, All, All-append,
  All-map, nat_eq, string_eq, option_eq, pair_eq, Bool-cases, false, inl, inr,
}
use mathlib.Core.Path.{subst₂}
use evoeventmem.Prelude.Dict
use evoeventmem.Prelude.Dict.{Dict}
use evoeventmem.Result.{Ensures, Ensures-bind, ensured, Result-cases}
use evoeventmem.Domain.Models.{MemoryRecord, is_empty}
use evoeventmem.Platform.{Platform}
use evoeventmem.Repository.Port.{Repository, RepositoryLaws, transaction}
use evoeventmem.Service.Batch.Types.{
  WriteRequest, Decision, Prepared, Candidate, accepted, duplicate, rejected,
}
use evoeventmem.Service.Batch.Prepare.{
  accepted_decision, request_rejected, storage_failure, duplicate_decision, prepare_all,
  prepare_write_candidate,
}
use evoeventmem.Service.Batch.Collisions.{
  memory_id_collision_indexes, memory_id_collision_decisions,
}
use evoeventmem.Service.Batch.Sorting.{ScopedKey, scoped_key, Sorted, sort_candidates, add_pending}
use evoeventmem.Service.Batch.Run.{
  Outcome, Service, memories, write_batch, settle, write_prepared, decide, write_extracted_events,
}

abbrev pub Rejected : Decision → Type 0
Rejected d = d.status ≡ rejected

abbrev pub Kept : Decision → Type 0
Kept d = d.status ≢ rejected

-- The dict after the records were added one after the other.
unfoldable pub put_all : Dict ℕ MemoryRecord → List MemoryRecord → Dict ℕ MemoryRecord
put_all d [] = d
put_all d (m ∷ ms) = put_all (Dict.put d m.memory_id m) ms

-- What a request did: everything is rejected, nothing is accepted and the contents are as before, or
-- nothing is rejected and the contents are those before with the accepted memories added.
abbrev pub Atomic :
    Dict ℕ MemoryRecord → Dict ℕ MemoryRecord → List MemoryRecord → List Decision → Type 0
Atomic before after memories decisions =
    (All Rejected decisions × (memories ≡ []) × (after ≡ before))
    ⊎ (All Kept decisions × (after ≡ put_all before memories))

kept_duplicate : duplicate ≢ rejected
kept_duplicate e = absurd (cc)

kept_accepted : accepted ≢ rejected
kept_accepted e = absurd (cc)

Rejected-collisions :
    (request : WriteRequest) (index : ℕ) (ws : List Prepared) (collisions : List ℕ)
    → All Rejected (memory_id_collision_decisions request index ws collisions)
unfolding memory_id_collision_decisions
Rejected-collisions request index [] collisions = tt
Rejected-collisions request index (w ∷ ws) collisions =
    (refl, Rejected-collisions request (suc index) ws collisions)

Rejected-prepare_all :
    (p : Platform) (request : WriteRequest) (cs : List Candidate)
    → All Rejected (prepare_all p request cs).0
unfolding prepare_all prepare_write_candidate
Rejected-prepare_all p request [] = tt
Rejected-prepare_all p request (c ∷ cs) = ground (arith, Rejected-prepare_all p request cs)

module _ (r : Repository) (request : WriteRequest) where
  abbrev KeptSorted : Sorted → Type 0
  KeptSorted sorted = All Kept sorted.persistent × All Kept sorted.batch

  Kept-sort_candidates :
      (s : r.State) (ws : List Prepared) (seen : Dict ScopedKey ℕ)
      → Ensures KeptSorted (sort_candidates r request s ws seen)
  unfolding sort_candidates duplicate_decision
  Kept-sort_candidates s [] seen = (tt, tt)
  Kept-sort_candidates s (w ∷ ws) seen = ground (
    arith,
    Kept-sort_candidates s ws seen,
    Kept-sort_candidates s ws (Dict.put seen (scoped_key w) w.memory.memory_id),
  )

Kept-accepted_decision :
    (request : WriteRequest) (e : Prepared × MemoryRecord) → Kept (accepted_decision request e)
unfolding accepted_decision
Kept-accepted_decision request (w, m) = kept_accepted

Rejected-storage_failure :
    (request : WriteRequest) (w : Prepared) → Rejected (storage_failure request w)
unfolding storage_failure
Rejected-storage_failure request w = refl

Rejected-request_rejected :
    (request : WriteRequest) (w : Prepared) → Rejected (request_rejected request w)
unfolding request_rejected
Rejected-request_rejected request w = refl

module _ (r : Repository) (laws : RepositoryLaws r) where
  abbrev Added : r.State → r.State × List (Prepared × MemoryRecord) → Type 0
  Added s e = laws.contents e.0 ≡ put_all (laws.contents s) (memories e.1)

  contents-add_pending : (ws : List Prepared) (s : r.State) → Ensures (Added s) (add_pending r ws s)
  unfolding add_pending memories put_all
  contents-add_pending [] s = refl
  contents-add_pending (w ∷ ws) s = Ensures-bind (Added s) (r.add s w.memory) _ λ e added.
      Ensures-bind (Added s) (add_pending r ws e.0) _ λ t ran.
        let (same, put) = laws.add_contents s e.0 w.memory e.1 added in
        let rest = ensured (Added e.0) _ t (contents-add_pending ws e.0) ran in
        rest
        ∙ ap (λ d. put_all d (memories t.1))
            (put ∙ ap (λ m. Dict.put (laws.contents s) m.memory_id m) (sym same))

  module _ (request : WriteRequest) where
    -- What the body of the transaction did to the contents.
    abbrev Settled : r.State → r.State × Outcome → Type 0
    Settled w e =
        Atomic (laws.contents w) (laws.contents e.0) (settle request e.1).0 (settle request e.1).1

    Settled-collisions :
        (w : r.State) (ds : List Decision)
        → All Rejected ds
        → is_empty ds ≡ false
        → Settled w
            (w, record { collisions = ds; persistent = []; batch = []; accepted_pairs = [] })
    unfolding settle
    Settled-collisions w ds h e = rw e (inl (h, refl, refl))

    Settled-collision_decisions :
        (ws : List Prepared) (w : r.State) (indexes : List ℕ)
        → Settled w (
          w,
          record {
            collisions = memory_id_collision_decisions request 0 ws indexes;
            persistent = [];
            batch = [];
            accepted_pairs = [];
          },
        )
    unfolding settle memory_id_collision_decisions
    Settled-collision_decisions [] w indexes = inl (tt, refl, refl)
    Settled-collision_decisions (x ∷ ws) w indexes =
        Settled-collisions w (memory_id_collision_decisions request 0 (x ∷ ws) indexes)
          (Rejected-collisions request 0 (x ∷ ws) indexes) refl

    Settled-sorted :
        (w : r.State) (sorted : Sorted) (e : r.State × List (Prepared × MemoryRecord))
        → KeptSorted r request sorted
        → laws.contents e.0 ≡ put_all (laws.contents w) (memories e.1)
        → Settled w (
          e.0,
          record {
            collisions = [];
            persistent = sorted.persistent;
            batch = sorted.batch;
            accepted_pairs = e.1;
          },
        )
    unfolding settle
    Settled-sorted w sorted e (h, k) c = inr (
      All-append Kept (sorted.persistent ++ sorted.batch) (map (accepted_decision request) e.1)
          (All-append Kept sorted.persistent sorted.batch h k)
          (All-map Kept (accepted_decision request) e.1 (Kept-accepted_decision request)),
      c,
    )

    abbrev Settled' : r.State → r.State × (List MemoryRecord × List Decision) → Type 0
    Settled' s e = Atomic (laws.contents s) (laws.contents e.0) e.1.0 e.1.1

    Settled-write_batch :
        (ws : List Prepared) (w : r.State) → Ensures (Settled w) (write_batch r request ws w)
    unfolding write_batch
    Settled-write_batch ws w =
        Ensures-bind (Settled w) (memory_id_collision_indexes r w ws) _ λ indexes found.
          elim (Bool-cases (is_empty indexes)) [
            | inl none_collides ↦ rw none_collides (
                Ensures-bind (Settled w) (sort_candidates r request w ws []) _ λ sorted hs.
                  Ensures-bind (Settled w) (add_pending r sorted.pending w) _ λ e he.
                    Settled-sorted w sorted e
                      (ensured (KeptSorted r request) _ sorted
                        (Kept-sort_candidates r request w ws []) hs)
                      (ensured (Added w) _ e (contents-add_pending sorted.pending w) he))
            | inr collide ↦ rw collide (Settled-collision_decisions ws w indexes)
          ]

    Settled-transaction :
        (ws : List Prepared) (s : r.State)
        → Ensures (Settled s) (transaction r (write_batch r request ws) s)
    unfolding transaction
    Settled-transaction ws s = Ensures-bind (Settled s) (r.begin s) _ λ w begun.
        Ensures-bind (Settled s) (write_batch r request ws w) _ λ e ran.
          Ensures-bind (Settled s) (r.commit s e.0) _ λ s' committed.
            subst₂
              (λ before after. Atomic before after (settle request e.1).0 (settle request e.1).1)
              (laws.begin_contents s w begun) (sym (laws.commit_contents s e.0 s' committed))
              (ensured (Settled w) _ e (Settled-write_batch ws w) ran)

    Settled-write_prepared :
        (ws : List Prepared) (s : r.State) → Settled' s (write_prepared r request ws s)
    unfolding write_prepared
    Settled-write_prepared ws s = elim (Result-cases (transaction r (write_batch r request ws) s)) [
      | inl (e, ran) ↦
          rw (ran, write_prepared) (ensured (Settled s) _ e (Settled-transaction ws s) ran)
      | inr (e, failed) ↦
          rw (failed, write_prepared)
            (inl (
              All-map Rejected (storage_failure request) ws (Rejected-storage_failure request),
              refl,
              refl,
            ))
    ]

    Settled-decide :
        (ds : List Decision) (ws : List Prepared) (s : r.State)
        → All Rejected ds
        → Settled' s (decide r request (ds, ws) s)
    unfolding decide
    Settled-decide [] ws s h = Settled-write_prepared ws s
    Settled-decide (d ∷ ds) ws s h = inl (
      All-append Rejected (d ∷ ds) (map (request_rejected request) ws) h
          (All-map Rejected (request_rejected request) ws (Rejected-request_rejected request)),
      refl,
      refl,
    )

-- A request is written as a whole or not at all, over any repository that is a dict of records, also
-- where the repository raises. Either every decision is a rejection, no memory is accepted and the
-- contents of the repository are what they were, or no decision is a rejection and the contents are
-- those before with exactly the accepted memories added, in their order.
pub write_extracted_events-Atomic :
    (p : Platform) (r : Repository) (laws : RepositoryLaws r) (service : Service r)
    (request : WriteRequest)
    → Atomic
        (laws.contents service.repository)
        (laws.contents (write_extracted_events p r service request).0.repository)
        (write_extracted_events p r service request).1.accepted_memories
        (write_extracted_events p r service request).1.decisions
unfolding write_extracted_events
write_extracted_events-Atomic p r laws service request =
    let (ds, ws) = prepare_all p request request.candidates in
    Settled-decide r laws request ds ws service.repository
      (Rejected-prepare_all p request request.candidates)
