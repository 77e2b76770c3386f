-- ===== src/Service/Batch/Counts/Decided.antt =====
-- The decisions of a batch write are one for each candidate, under any weights of the candidate ids.
use evoeventmem.Prelude.{
  String, tally, tally-append, ap, ℕ, suc, ◌+◌, ◌≡◌, refl, List, [], ◌∷◌, ◌++◌, map, arith, nat_eq,
  string_eq, option_eq, pair_eq, Bool-cases, inl, inr, if◌then◌else◌,
}
use evoeventmem.Prelude.Dict
use evoeventmem.Prelude.Dict.{Dict}
use evoeventmem.Result.{Ensures, Ensures-bind, ensured, Result-cases}
use evoeventmem.Domain.Models.{MemoryRecord, is_empty, model_validate}
use evoeventmem.Platform.{Platform}
use evoeventmem.Repository.Port.{Repository, transaction, Ensures-transaction}
use evoeventmem.Service.Batch.Types.{WriteRequest, Decision, Prepared, Candidate}
use evoeventmem.Service.Batch.Prepare.{
  accepted_decision, request_rejected, storage_failure, prepare_all, validate_candidate,
  prepare_write_candidate, prepared_decision, invalid_decision, prepared_write, Preparation,
  invalid, prepared, duplicate_decision, collision_decision, file,
}
use evoeventmem.Service.Batch.Collisions.{
  memory_id_collision_indexes, memory_id_collision_decisions,
}
use evoeventmem.Service.Batch.Sorting.{ScopedKey, scoped_key, Sorted, sort_candidates, add_pending}
use evoeventmem.Service.Batch.Run.{Outcome, write_batch, settle, write_prepared, decide}

-- The sum of the weights of the ids of the decisions, and of the prepared and the given candidates.
abbrev pub decided : (String → ℕ) → List Decision → ℕ
decided weight ds = tally (λ d. weight d.candidate_id) ds

abbrev pub waiting : (String → ℕ) → List Prepared → ℕ
waiting weight ws = tally (λ w. weight w.candidate.candidate_id) ws

abbrev pub requested : (String → ℕ) → List Candidate → ℕ
requested weight cs = tally (λ c. weight c.candidate_id) cs

abbrev stored : (String → ℕ) → List (Prepared × MemoryRecord) → ℕ
stored weight pairs = tally (λ pair. weight pair.0.candidate.candidate_id) pairs

-- The validation of a candidate keeps its id.
candidate_id-validate_candidate :
    (p : Platform) (c : Candidate)
    → Ensures (λ v. v.candidate_id ≡ c.candidate_id) (validate_candidate p c)
unfolding validate_candidate
candidate_id-validate_candidate p c =
    Ensures-bind (λ v. v.candidate_id ≡ c.candidate_id) (model_validate p.casefold c.memory) _
      λ memory _. ground arith

module _ (p : Platform) (request : WriteRequest) where
  abbrev prepared_id : Preparation p → String
  prepared_id (invalid d) = d.candidate_id
  prepared_id (prepared w) = w.candidate.candidate_id

  candidate_id-prepare_write_candidate :
      (c : Candidate) → prepared_id (prepare_write_candidate p request c) ≡ c.candidate_id
  unfolding prepare_write_candidate invalid_decision prepared_write
  candidate_id-prepare_write_candidate c = elim (Result-cases (validate_candidate p c)) [
    | inl (v, ran) ↦
        rw (ran, prepared_id)
          (ensured (λ v. v.candidate_id ≡ c.candidate_id) _ v (candidate_id-validate_candidate p c)
            ran)
    | inr (e, failed) ↦ rw (failed, prepared_id) refl
  ]

  -- A preparation is filed on one side.
  decided-file :
      (weight : String → ℕ) (preparation : Preparation p) (rest : List Decision × List Prepared)
      → decided weight (file p preparation rest).0 + waiting weight (file p preparation rest).1
        ≡ weight (prepared_id preparation) + (decided weight rest.0 + waiting weight rest.1)
  decided-file weight (invalid d) (ds, ws) = omega arith
  decided-file weight (prepared w) (ds, ws) = omega arith

pub decided-prepare_all :
    (p : Platform) (request : WriteRequest) (weight : String → ℕ) (cs : List Candidate)
    → decided weight (prepare_all p request cs).0 + waiting weight (prepare_all p request cs).1
      ≡ requested weight cs
unfolding prepare_all
decided-prepare_all p request weight [] = refl
decided-prepare_all p request weight (c ∷ cs) =
    let rest = decided-prepare_all p request weight cs in
    let filed =
      decided-file p request weight (prepare_write_candidate p request c)
        (prepare_all p request cs) in
    let same = ap weight (candidate_id-prepare_write_candidate p request c) in
    omega (arith, rest, filed, same)

module _ (r : Repository) (request : WriteRequest) (weight : String → ℕ) where
  decided-sort_candidates :
      (s : r.State) (ws : List Prepared) (seen : Dict ScopedKey ℕ)
      → Ensures
          (λ sorted.
            decided weight sorted.persistent
              + decided weight sorted.batch
              + waiting weight sorted.pending
            ≡ waiting weight ws)
          (sort_candidates r request s ws seen)
  unfolding sort_candidates duplicate_decision prepared_decision
  decided-sort_candidates s [] seen = refl
  decided-sort_candidates s (w ∷ ws) seen = ground (
    arith,
    decided-sort_candidates s ws seen,
    decided-sort_candidates s ws (Dict.put seen (scoped_key w) w.memory.memory_id),
  )

  stored-add_pending :
      (ws : List Prepared) (s : r.State)
      → Ensures (λ e. stored weight e.1 ≡ waiting weight ws) (add_pending r ws s)
  unfolding add_pending
  stored-add_pending [] s = refl
  stored-add_pending (w ∷ ws) s =
      Ensures-bind (λ e. stored weight e.1 ≡ waiting weight (w ∷ ws)) (r.add s w.memory) _
        λ added h. ground (arith, stored-add_pending ws added.0)

module _ (request : WriteRequest) (weight : String → ℕ) where
  decided-memory_id_collision_decisions :
      (index : ℕ) (ws : List Prepared) (collisions : List ℕ)
      → decided weight (memory_id_collision_decisions request index ws collisions)
        ≡ waiting weight ws
  unfolding memory_id_collision_decisions collision_decision prepared_decision
  decided-memory_id_collision_decisions index [] collisions = refl
  decided-memory_id_collision_decisions index (w ∷ ws) collisions =
      ground (arith, decided-memory_id_collision_decisions (suc index) ws collisions)

  decided-accepted :
      (pairs : List (Prepared × MemoryRecord))
      → decided weight (map (accepted_decision request) pairs) ≡ stored weight pairs
  unfolding accepted_decision prepared_decision
  decided-accepted [] = refl
  decided-accepted ((w, m) ∷ pairs) = ground (arith, decided-accepted pairs)

  decided-map :
      (decide_on : Prepared → Decision) (ws : List Prepared)
      → ((w : Prepared) → (decide_on w).candidate_id ≡ w.candidate.candidate_id)
      → decided weight (map decide_on ws) ≡ waiting weight ws
  decided-map decide_on [] h = refl
  decided-map decide_on (w ∷ ws) h = ground (arith, decided-map decide_on ws h, h w)

  decided-settle :
      (o : Outcome)
      → decided weight (settle request o).1 ≡ (
          if is_empty o.collisions
          then decided weight o.persistent + decided weight o.batch + stored weight o.accepted_pairs
          else decided weight o.collisions)
  unfolding settle
  decided-settle o = elim (Bool-cases (is_empty o.collisions)) [
    | inl e ↦
        rw (e, settle)
          (omega (
            arith,
            tally-append (λ (d : Decision). weight d.candidate_id) (o.persistent ++ o.batch)
                (map (accepted_decision request) o.accepted_pairs),
            tally-append (λ (d : Decision). weight d.candidate_id) o.persistent o.batch,
            decided-accepted o.accepted_pairs,
          ))
    | inr e ↦ rw (e, settle) refl
  ]

  decided-collisions :
      (ws : List Prepared) (indexes : List ℕ)
      → (if is_empty (memory_id_collision_decisions request 0 ws indexes)
          then 0
          else decided weight (memory_id_collision_decisions request 0 ws indexes))
        ≡ waiting weight ws
  unfolding memory_id_collision_decisions
  decided-collisions [] indexes = refl
  decided-collisions (w ∷ ws) indexes =
      let all = decided-memory_id_collision_decisions 0 (w ∷ ws) indexes in ground (arith, all)

module _ (r : Repository) (request : WriteRequest) (ws : List Prepared) (weight : String → ℕ) where
  abbrev Decided : Outcome → Type 0
  Decided o = decided weight (settle request o).1 ≡ waiting weight ws

  abbrev Balanced : r.State × Outcome → Type 0
  Balanced e = Decided e.1

  Decided-collisions :
      (indexes : List ℕ)
      → Decided (record {
        collisions = memory_id_collision_decisions request 0 ws indexes;
        persistent = [];
        batch = [];
        accepted_pairs = [];
      })
  Decided-collisions indexes = rw decided-settle (decided-collisions request weight ws indexes)

  Decided-sorted :
      (sorted : Sorted) (e : r.State × List (Prepared × MemoryRecord))
      → decided weight sorted.persistent
          + decided weight sorted.batch
          + waiting weight sorted.pending
        ≡ waiting weight ws
      → stored weight e.1 ≡ waiting weight sorted.pending
      → Decided (record {
        collisions = [];
        persistent = sorted.persistent;
        batch = sorted.batch;
        accepted_pairs = e.1;
      })
  Decided-sorted sorted e h k = rw decided-settle (omega arith)

  Decided-write_batch : (s : r.State) → Ensures Balanced (write_batch r request ws s)
  unfolding write_batch
  Decided-write_batch s =
      Ensures-bind Balanced (memory_id_collision_indexes r s ws) _ λ indexes found.
        elim (Bool-cases (is_empty indexes)) [
          | inl none_collides ↦ rw none_collides (
              Ensures-bind Balanced (sort_candidates r request s ws []) _ λ sorted hs.
                Ensures-bind Balanced (add_pending r sorted.pending s) _ λ e he.
                  Decided-sorted sorted e
                    (ensured _ _ sorted (decided-sort_candidates r request weight s ws []) hs)
                    (ensured _ _ e (stored-add_pending r request weight sorted.pending s) he))
          | inr collide ↦ rw collide (Decided-collisions indexes)
        ]

  decided-write_prepared :
      (s : r.State) → decided weight (write_prepared r request ws s).1.1 ≡ waiting weight ws
  unfolding write_prepared storage_failure prepared_decision
  decided-write_prepared s = elim (Result-cases (transaction r (write_batch r request ws) s)) [
    | inl (e, ran) ↦
        rw (ran, write_prepared)
          (ensured Balanced _ e
            (Ensures-transaction r Decided (write_batch r request ws) s Decided-write_batch) ran)
    | inr (e, failed) ↦
        rw (failed, write_prepared)
          (decided-map request weight (storage_failure request) ws (λ w. refl))
  ]

pub decided-decide :
    (r : Repository) (request : WriteRequest) (weight : String → ℕ)
    (filed : List Decision × List Prepared) (s : r.State)
    → decided weight (decide r request filed s).1.1
      ≡ decided weight filed.0 + waiting weight filed.1
unfolding decide request_rejected prepared_decision
decided-decide r request weight ([], ws) s =
    omega (arith, decided-write_prepared r request ws weight s)
decided-decide r request weight (d ∷ ds, ws) s =
    let rest = decided-map request weight (request_rejected request) ws (λ w. refl) in
    omega (
      arith,
      tally-append (λ (d : Decision). weight d.candidate_id) (d ∷ ds)
          (map (request_rejected request) ws),
      rest,
    )
