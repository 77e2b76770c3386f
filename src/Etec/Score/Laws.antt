-- ===== src/Etec/Score/Laws.antt =====
-- When `_score_pair` supersedes, and when it marks a conflict.
use evoeventmem.Prelude.{
  ℕ, ◌≤◌, ◌≡◌, ◌≢◌, refl, ◌↔◌, inl, inr, false, Option, none, some, arith, ◌==◌, ==_iff, nat_eq,
  Bool-cases, ap, sym,
}
use evoeventmem.Domain.Models.{MemoryRecord}
use evoeventmem.Etec.Types.{EtecConsolidator, EtecFeatureVector, ConsolidationAction}
use evoeventmem.Etec.Times.{fact_effective_time}
use evoeventmem.Etec.Features.{features}
use evoeventmem.Etec.Score.{score_pair, judge, merge_verdict, order_conflict, Verdict}

-- Both effective times are known, and they differ.
abbrev pub Ordered : Option ℕ → Option ℕ → Type 0
Ordered source target = (s : ℕ) × (t : ℕ) × (source ≡ some s) × (target ≡ some t) × (s ≢ t)

-- The features of a pair that is constrained by evidence and contradicts itself.
abbrev pub Conflicting : EtecConsolidator → EtecFeatureVector → Type 0
Conflicting self f =
    (self.thresholds.reject_evidence_min ≤ f.evidence_consistency)
    × (self.thresholds.supersede_contradiction_min ≤ f.contradiction_score)
    × (f.multi_valued ≡ false)

Supersedes : Verdict → Type 0
Supersedes v = v.action ≡ ConsolidationAction.supersede

order_conflict-Supersedes :
    (id : ℕ) (source target : Option ℕ)
    → Supersedes (order_conflict id source target) ↔ Ordered source target
unfolding order_conflict Supersedes
order_conflict-Supersedes id none target = (λ h. absurd (cc), λ h. absurd (cc h.2))
order_conflict-Supersedes id (some s) none = (λ h. absurd (cc), λ h. absurd (cc h.3))
order_conflict-Supersedes id (some s) (some t) = ground (arith, ==_iff s t)

no_merge_supersede :
    (self : EtecConsolidator) (source target : MemoryRecord)
    → Supersedes (merge_verdict self source target)
    → ⊥
unfolding merge_verdict Supersedes
no_merge_supersede self source target h = ground arith

judge-Supersedes :
    (self : EtecConsolidator) (source target : MemoryRecord) (f : EtecFeatureVector)
    → Supersedes (judge self source target f)
      ↔ (Conflicting self f × Ordered (fact_effective_time source) (fact_effective_time target))
unfolding judge Supersedes
judge-Supersedes self source target f = ground (
  arith,
  order_conflict-Supersedes target.memory_id (fact_effective_time source)
      (fact_effective_time target),
  no_merge_supersede self source target,
)

-- A scored pair supersedes exactly when the pair is constrained by evidence, its contradiction score
-- meets the threshold, neither side is multi-valued, and both effective times are known and differ.
pub score_pair_supersedes :
    (self : EtecConsolidator) (source target : MemoryRecord)
    → ((score_pair self source target).action ≡ ConsolidationAction.supersede) ↔ (
        Conflicting self (features self source target)
        × Ordered (fact_effective_time source) (fact_effective_time target))
unfolding score_pair Supersedes
score_pair_supersedes self source target =
    judge-Supersedes self source target (features self source target)

order_conflict_marks :
    (id other : ℕ) (source target : Option ℕ)
    → ((order_conflict id source target).conflict_target ≡ some other)
      ↔ ((Ordered source target → ⊥) × (other ≡ id))
unfolding order_conflict
order_conflict_marks id other none target =
    (λ h. (λ o. absurd (cc o.2), cc), λ h. ap some (sym h.1))
order_conflict_marks id other (some s) none =
    (λ h. (λ o. absurd (cc o.3), cc), λ h. ap some (sym h.1))
order_conflict_marks id other (some s) (some t) = elim (Bool-cases (s == t)) [
  | inl same ↦
      rw same (λ h. (λ o. o.4 (cc (o.2, o.3, (==_iff s t).0 same)), cc), λ h. ap some (sym h.1))
  | inr differ ↦ rw differ (
    λ h. absurd (ground arith),
    λ h. absurd (h.0 (s, t, refl, refl, λ e. cc ((==_iff s t).1 e, differ))),
  )
]

no_merge_mark :
    (self : EtecConsolidator) (source target : MemoryRecord)
    → (merge_verdict self source target).conflict_target ≡ none
unfolding merge_verdict
no_merge_mark self source target = ground arith

-- A scored pair marks a conflict exactly with its own target, and exactly when the pair would supersede
-- but for its effective times: one of them is not known, or they are equal.
pub score_pair_conflicts :
    (self : EtecConsolidator) (source target : MemoryRecord) (other : ℕ)
    → ((score_pair self source target).conflict_target_memory_id ≡ some other) ↔ (
        Conflicting self (features self source target)
        × (Ordered (fact_effective_time source) (fact_effective_time target) → ⊥)
        × (other ≡ target.memory_id))
unfolding score_pair judge
score_pair_conflicts self source target other = ground (
  arith,
  order_conflict_marks target.memory_id other (fact_effective_time source)
      (fact_effective_time target),
  no_merge_mark self source target,
)
