-- ===== src/Etec/Apply/Results.antt =====
-- Every branch of `apply` rejects without a change, or stores what its action makes of the source and
-- changes only records of its user and tenant.
use mathlib.Core.Path.{subst}
use evoeventmem.Prelude.{
  ℕ, ◌≡◌, refl, inl, inr, true, Option, none, some, List, [], ◌∷◌, All, All-append, All-imp,
  All-find, arith, ◌==◌, nat_eq, find,
}
use evoeventmem.Result.{Result, ok, Ensures, Ensures-bind, ensured}
use evoeventmem.Domain.Models.{MemoryRecord}
use evoeventmem.Repository.Port.{Repository}
use evoeventmem.Etec.Types.{EtecConsolidator, EtecDecision, EtecApplyResult, ConsolidationAction}
use evoeventmem.Etec.Copy.{merge_memory, store_new_memory, validated}
use evoeventmem.Etec.Copy.Scoped.{
  InScope, InScope-validated, InScope-merge_memory, InScope-store_new_memory, InScope-is_eligible,
  InScope-is_verified,
}
use evoeventmem.Etec.Copy.Kept.{
  IsSource, Joins, Stores-action, IsSource-store_new_memory, Joins-merge_memory,
}
use evoeventmem.Etec.Select.{
  reject_inactive_source, reject_without_evidence, score_candidates, select_decision,
}
use evoeventmem.Etec.Targets.{
  existing_records, eligible_candidates, bounded_target_memories, require_target, require_id,
  require_found, is_eligible,
}
use evoeventmem.Etec.Targets.Bounded.{Linked, All-bounded_target_memories}
use evoeventmem.Etec.Supersede.{relink, relink_merged_source_histories, require_history}
use evoeventmem.Etec.Supersede.Stored.{Applied, Applied-plan_supersede}
use evoeventmem.Etec.Apply.{
  for_intent, plan_merge, plan_add, plan_action, plan_decision, plan_fresh, unless_rejected,
  unless_found,
}

module _ (self : EtecConsolidator) (source : MemoryRecord) where
  InScope-require_found :
      (o : Option MemoryRecord)
      → ((m : MemoryRecord) → o ≡ some m → InScope source m)
      → Ensures (InScope source) (require_found o)
  InScope-require_found none h = tt
  InScope-require_found (some m) h = h m refl

  InScope-require_id :
      (o : Option ℕ) (bounded : List MemoryRecord)
      → All (InScope source) bounded
      → Ensures (InScope source) (require_id o bounded)
  InScope-require_id none bounded h = tt
  InScope-require_id (some id) bounded h =
      InScope-require_found (find (λ m. m.memory_id == id) bounded)
        (λ m. All-find (λ m. m.memory_id == id) (InScope source) bounded m h)

  pub Applied-unless_rejected :
      (o : Option EtecDecision) (rest : Result EtecApplyResult)
      → ((d : EtecDecision) → o ≡ some d → d.action ≡ ConsolidationAction.reject)
      → Ensures (Applied self source) rest
      → Ensures (Applied self source) (unless_rejected o rest)
  Applied-unless_rejected none rest h k = k
  Applied-unless_rejected (some d) rest h k = inl (h d refl, refl, refl)

  pub Applied-unless_found :
      (o : Option MemoryRecord) (d : EtecDecision) (rest : Result EtecApplyResult)
      → d.action ≡ ConsolidationAction.reject
      → Ensures (Applied self source) rest
      → Ensures (Applied self source) (unless_found o d rest)
  Applied-unless_found none d rest h k = k
  Applied-unless_found (some m) d rest h k = inl (h, refl, refl)

  pub rejects_inactive :
      (d : EtecDecision)
      → reject_inactive_source self source ≡ some d
      → d.action ≡ ConsolidationAction.reject
  unfolding reject_inactive_source
  rejects_inactive d h = ground arith

  rejects_without_evidence :
      (d : EtecDecision)
      → reject_without_evidence self source ≡ some d
      → d.action ≡ ConsolidationAction.reject
  unfolding reject_without_evidence
  rejects_without_evidence d h = ground arith

  module _ (r : Repository) (s : r.State) where
    -- The record of a verified link is of the scope.
    InScope-require_history :
        (id : ℕ) (found : Option MemoryRecord)
        → Linked r s source id
        → r.get s id ≡ ok found
        → Ensures (InScope source) (require_history found)
    InScope-require_history id none l got = tt
    InScope-require_history id (some m) l got =
        let same : l.0 ≡ m = cc (l.1, got) in
        subst (InScope source) same (InScope-is_verified source l.0 l.2)

    All-relink :
        (merged : MemoryRecord) (ids : List ℕ) (now : ℕ)
        → All (Linked r s source) ids
        → Ensures (All (InScope source)) (relink self r s merged ids now)
    unfolding relink
    All-relink merged [] now h = tt
    All-relink merged (id ∷ ids) now h =
        Ensures-bind (All (InScope source)) (r.get s id) _ λ found got.
          Ensures-bind (All (InScope source)) (require_history found) _ λ history picked.
            Ensures-bind (All (InScope source)) (validated self _) _ λ relinked ran.
              Ensures-bind (All (InScope source)) (relink self r s merged ids now) _ λ rest ran'. (
                ensured (InScope source) _ relinked
                    (InScope-validated self source _ (
                      ensured (InScope source) _ history (InScope-require_history id found h.0 got)
                        picked))
                    ran,
                ensured (All (InScope source)) _ rest (All-relink merged ids now h.1) ran',
              )

    Applied-plan_merge :
        (d : EtecDecision) (bounded : List MemoryRecord) (now : ℕ)
        → d.action ≡ ConsolidationAction.merge
        → All (InScope source) bounded
        → All (Linked r s source) source.supersedes
        → Ensures (Applied self source) (plan_merge self r s source d bounded now)
    unfolding plan_merge require_target relink_merged_source_histories
    Applied-plan_merge d bounded now e h l =
        Ensures-bind (Applied self source) (require_id d.target_memory_id bounded) _
          λ target picked.
            Ensures-bind (Applied self source) (merge_memory self target source d now) _
              λ merged ran.
                Ensures-bind (Applied self source) (relink self r s merged source.supersedes now) _
                  λ histories ran'.
                    let scoped =
                      ensured (InScope source) _ merged
                        (InScope-merge_memory self source target source d now (
                          ensured (InScope source) _ target
                            (InScope-require_id d.target_memory_id bounded h) picked))
                        ran in
                    let all =
                      ensured (All (InScope source)) _ histories
                        (All-relink merged source.supersedes now l) ran' in
                    inr (
                      λ rejected. cc,
                      All-append (InScope source) histories (merged ∷ []) all (scoped, tt),
                      merged,
                      histories,
                      [],
                      Stores-action self d.action ConsolidationAction.merge source merged e (
                          ensured (Joins self source) _ merged
                            (Joins-merge_memory self source target d now (
                              ensured (InScope source) _ target
                                (InScope-require_id d.target_memory_id bounded h) picked))
                            ran),
                      refl,
                      refl,
                    )

    Applied-plan_add :
        (d : EtecDecision) (now : ℕ)
        → d.action ≡ ConsolidationAction.add
        → Ensures (Applied self source) (plan_add self r source d now)
    unfolding plan_add
    Applied-plan_add d now e =
        Ensures-bind (Applied self source) (store_new_memory self source d source.supersedes now) _
          λ stored ran. inr (
            λ rejected. cc,
            (
              ensured (InScope source) _ stored
                  (InScope-store_new_memory self source d source.supersedes now) ran,
              tt,
            ),
            stored,
            [],
            [],
            Stores-action self d.action ConsolidationAction.add source stored e (
                ensured (IsSource source) _ stored
                  (IsSource-store_new_memory self source d source.supersedes now) ran),
            refl,
            refl,
          )

    Applied-plan_action :
        (action : ConsolidationAction) (d : EtecDecision) (scored : List EtecDecision)
        (bounded : List MemoryRecord) (now : ℕ)
        → d.action ≡ action
        → All (InScope source) bounded
        → All (Linked r s source) source.supersedes
        → Ensures (Applied self source) (plan_action self r action s source d scored bounded now)
    Applied-plan_action ConsolidationAction.add d scored bounded now e h l =
        Applied-plan_add d now e
    Applied-plan_action ConsolidationAction.merge d scored bounded now e h l =
        Applied-plan_merge d bounded now e h l
    Applied-plan_action ConsolidationAction.supersede d scored bounded now e h l =
        Applied-plan_supersede source self d scored bounded now e h
    Applied-plan_action ConsolidationAction.reject d scored bounded now e h l = inl (e, refl, refl)

    pub Applied-plan_fresh :
        (candidates : Option (List MemoryRecord)) (now : ℕ)
        → All (Linked r s source) source.supersedes
        → Ensures (Applied self source) (plan_fresh self r s source candidates now)
    unfolding plan_fresh plan_decision
    Applied-plan_fresh candidates now l =
        Ensures-bind (Applied self source) (existing_records r s source candidates) _ λ existing _.
          let eligible = eligible_candidates source existing in
          Ensures-bind (Applied self source) (self.generate source eligible) _ λ generated _.
            let bounded = bounded_target_memories generated eligible in
            let scored = score_candidates self source bounded in
            let d = for_intent self (select_decision self source scored) in
            Applied-unless_rejected (reject_without_evidence self source) _ rejects_without_evidence
              (Applied-plan_action d.action d scored bounded now refl
                (All-imp (λ m. is_eligible source m ≡ true) (InScope source) bounded
                  (InScope-is_eligible source)
                  (All-bounded_target_memories source existing generated))
                l)
