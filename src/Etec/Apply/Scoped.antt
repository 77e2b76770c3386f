-- ===== src/Etec/Apply/Scoped.antt =====
-- `apply` as a whole: whatever the branch, a rejection changes nothing, and nothing outside the scope of
-- the source is stored.
use evoeventmem.Prelude.{ℕ, ◌≡◌, refl, ◌∙◌, inl, inr, Option, List, All, All-imp, nat_eq}
use evoeventmem.Result.{Ensures, Ensures-bind, Ensures-of, ensured}
use evoeventmem.Domain.Models.{MemoryRecord}
use evoeventmem.Repository.Port.{Repository, Ensures-transaction}
use evoeventmem.Etec.Types.{EtecConsolidator, EtecApplyResult, ConsolidationAction}
use evoeventmem.Etec.Copy.Scoped.{InScope}
use evoeventmem.Etec.Copy.Kept.{IsSource, Stores-of_same}
use evoeventmem.Etec.Select.{reject_inactive_source, reject_source_id_collision}
use evoeventmem.Etec.Targets.{sanitize_source_supersedes}
use evoeventmem.Etec.Targets.Bounded.{Sanitized, Sanitized-sanitize_source_supersedes}
use evoeventmem.Etec.Supersede.Stored.{Applied}
use evoeventmem.Etec.Apply.{plan, apply_in, apply}
use evoeventmem.Etec.Apply.{add_all}
use evoeventmem.Etec.Apply.Results.{
  Applied-unless_rejected, Applied-unless_found, rejects_inactive, Applied-plan_fresh,
}

rejects_collision :
    (self : EtecConsolidator) (source : MemoryRecord)
    → (reject_source_id_collision self source).action ≡ ConsolidationAction.reject
unfolding reject_source_id_collision
rejects_collision self source = refl

-- What holds of the sanitised source holds of the given one.
Applied-given :
    (self : EtecConsolidator) (given source : MemoryRecord) (result : EtecApplyResult)
    → source.user_id ≡ given.user_id
    → source.tenant_id ≡ given.tenant_id
    → IsSource given source
    → Applied self source result
    → Applied self given result
Applied-given self given source result u t same (inl rejected) = inl rejected
Applied-given self given source result u t same
      (inr (kept, scoped, stored, before, after, stores, e, f)) =
    let all : All (InScope given) result.updated_memories =
      All-imp (InScope source) (InScope given) result.updated_memories (λ m h. (h.0 ∙ u, h.1 ∙ t))
        scoped in
    let stores' = Stores-of_same self result.decision.action given source stored u t same stores in
    inr (kept, all, stored, before, after, stores', e, f)

module _ (self : EtecConsolidator) (r : Repository) where
  Applied-plan :
      (s : r.State) (given : MemoryRecord) (candidates : Option (List MemoryRecord)) (now : ℕ)
      → Ensures (Applied self given) (plan self r s given candidates now)
  unfolding plan
  Applied-plan s given candidates now =
      Ensures-bind (Applied self given) (sanitize_source_supersedes r self s given) _ λ source ran.
        let (same_id, same_user, same_tenant, same_content, same_evidence, same_entities, linked) =
          ensured (Sanitized r s given) _ source
            (Sanitized-sanitize_source_supersedes r self s given) ran in
        Ensures-of (Applied self given) _ λ result ran'.
          Applied-given self given source result same_user same_tenant
            (same_id, same_content, same_evidence, same_entities)
            (ensured (Applied self source) _ result
              (Applied-unless_rejected self source (reject_inactive_source self source) _
                (rejects_inactive self source)
                (Ensures-bind (Applied self source) (r.get s source.memory_id) _ λ found _.
                  Applied-unless_found self source found (reject_source_id_collision self source) _
                    (rejects_collision self source)
                    (Applied-plan_fresh self source r s candidates now linked)))
              ran')

  pub Applied-apply :
      (s : r.State) (source : MemoryRecord) (candidates : Option (List MemoryRecord)) (now : ℕ)
      → Ensures (λ e. Applied self source e.1) (apply self r s source candidates now)
  unfolding apply apply_in
  Applied-apply s source candidates now =
      Ensures-transaction r (Applied self source) (apply_in self r source candidates now) s λ w.
        Ensures-bind (λ e. Applied self source e.1) (plan self r w source candidates now) _
          λ result ran.
            Ensures-bind (λ e. Applied self source e.1) (add_all r w result.updated_memories) _
              λ s' _.
                ensured (Applied self source) _ result (Applied-plan w source candidates now) ran
