-- ===== src/Etec/Apply/Effect.antt =====
-- What a consolidation changes in the repository.
use evoeventmem.Prelude.{
  ℕ, ◌≢◌, All, arith, ==_iff, ◌≡◌, refl, ◌∙◌, ap, Option, List, [], ◌∷◌, nat_eq,
}
use evoeventmem.Prelude.Dict
use evoeventmem.Result.{ok, Ensures, Ensures-bind, Ensures-of, ensured}
use evoeventmem.Domain.Models.{MemoryRecord}
use evoeventmem.Repository.Port.{Repository, RepositoryLaws, transaction}
use evoeventmem.Service.Batch.Atomic.{put_all}
use evoeventmem.Etec.Supersede.Stored.{Applied}
use evoeventmem.Etec.Apply.Scoped.{Applied-apply}
use evoeventmem.Etec.Types.{EtecConsolidator, EtecApplyResult}
use evoeventmem.Etec.Apply.{add_all, plan, apply_in, apply}

module _ (self : EtecConsolidator) (r : Repository) (laws : RepositoryLaws r) where
  -- The contents are those of `s` with the memories added.
  abbrev Added : r.State → List MemoryRecord → r.State → Type 0
  Added s memories s' = laws.contents s' ≡ put_all (laws.contents s) memories

  contents-add_all :
      (s : r.State) (memories : List MemoryRecord)
      → Ensures (Added s memories) (add_all r s memories)
  unfolding add_all put_all
  contents-add_all s [] = refl
  contents-add_all s (m ∷ ms) = Ensures-bind (Added s (m ∷ ms)) (r.add s m) _ λ e added.
      Ensures-of (Added s (m ∷ ms)) (add_all r e.0 ms) λ t ran.
        ensured (Added e.0 ms) _ t (contents-add_all e.0 ms) ran
        ∙ ap (λ d. put_all d ms) (laws.add_contents s e.0 m e.1 added).1

  abbrev Changed : r.State → r.State × EtecApplyResult → Type 0
  Changed s e = Added s e.1.updated_memories e.0

  contents-apply_in :
      (source : MemoryRecord) (candidates : Option (List MemoryRecord)) (now : ℕ) (s : r.State)
      → Ensures (Changed s) (apply_in self r source candidates now s)
  unfolding apply_in
  contents-apply_in source candidates now s =
      Ensures-bind (Changed s) (plan self r s source candidates now) _ λ result _.
        Ensures-bind (Changed s) (add_all r s result.updated_memories) _
          λ s' ran. ensured (Added s result.updated_memories) _ s' (contents-add_all s _) ran

  contents-apply :
      (s : r.State) (source : MemoryRecord) (candidates : Option (List MemoryRecord)) (now : ℕ)
      → Ensures (Changed s) (apply self r s source candidates now)
  unfolding apply transaction
  contents-apply s source candidates now = Ensures-bind (Changed s) (r.begin s) _ λ w begun.
      Ensures-bind (Changed s) (apply_in self r source candidates now w) _ λ e ran.
        Ensures-bind (Changed s) (r.commit s e.0) _ λ s' committed.
          laws.commit_contents s e.0 s' committed
          ∙ ensured (Changed w) _ e (contents-apply_in source candidates now w) ran
          ∙ ap (λ d. put_all d e.1.updated_memories) (laws.begin_contents s w begun)

pub contents_apply_lem :
    (self : EtecConsolidator) (r : Repository) (laws : RepositoryLaws r) (s s' : r.State)
    (source : MemoryRecord) (candidates : Option (List MemoryRecord)) (now : ℕ)
    (result : EtecApplyResult)
    → apply self r s source candidates now ≡ ok (s', result)
    → Applied self source result
      × (laws.contents s' ≡ put_all (laws.contents s) result.updated_memories)
contents_apply_lem self r laws s s' source candidates now result ran = (
  ensured (λ e. Applied self source e.1) _ (s', result)
      (Applied-apply self r s source candidates now) ran,
  ensured (Changed self r laws s) _ (s', result)
      (contents-apply self r laws s source candidates now) ran,
)

put_all_elsewhere :
    (d : Dict.Dict ℕ MemoryRecord) (ms : List MemoryRecord) (id : ℕ)
    → All (λ m. m.memory_id ≢ id) ms
    → Dict.get (put_all d ms) id ≡ Dict.get d id
unfolding put_all
put_all_elsewhere d [] id h = refl
put_all_elsewhere d (m ∷ ms) id h =
    put_all_elsewhere (Dict.put d m.memory_id m) ms id h.1
    ∙ rw Dict.get-put (ground (arith, ==_iff m.memory_id id))

-- A consolidation that succeeds changes no record that is not among those it reports.
pub get-apply :
    (self : EtecConsolidator) (r : Repository) (laws : RepositoryLaws r) (s s' : r.State)
    (source : MemoryRecord) (candidates : Option (List MemoryRecord)) (now : ℕ)
    (result : EtecApplyResult) (id : ℕ)
    → apply self r s source candidates now ≡ ok (s', result)
    → All (λ m. m.memory_id ≢ id) result.updated_memories
    → Dict.get (laws.contents s') id ≡ Dict.get (laws.contents s) id
get-apply self r laws s s' source candidates now result id ran apart =
    rw (contents_apply_lem self r laws s s' source candidates now result ran).1
      (put_all_elsewhere (laws.contents s) result.updated_memories id apart)
