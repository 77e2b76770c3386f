-- ===== src/Etec/Score/Disjoint.antt =====
-- Facts of one slot whose intervals do not overlap.
use mathlib.Core.Path.{subst}
use evoeventmem.Prelude.{
  ℕ, ◌≤◌, ◌<◌, ◌≡◌, ◌≢◌, refl, Bool, true, false, some, arith, ltb, if◌then◌else◌,
}
use evoeventmem.Float.{decimal, round, round_div, bit_length, one}
use evoeventmem.Domain.Models.{MemoryRecord}
use evoeventmem.Etec.Types.{
  EtecConsolidator, ConsolidationAction, EtecThresholds, default_thresholds,
}
use evoeventmem.Etec.Keys.{is_multi_valued}
use evoeventmem.Etec.Times.{overlapping}
use evoeventmem.Etec.Features.{contradiction_score, features, entity_role, structural_similarity}
use evoeventmem.Etec.Score.{score_pair}
use evoeventmem.Etec.Score.Laws.{score_pair_supersedes}

below_threshold : ltb (decimal 5 10) default_thresholds.supersede_contradiction_min ≡ true
unfolding decimal round round_div bit_length one default_thresholds
below_threshold = refl

at_most : (b : Bool) (n : ℕ) → (if b then 0 else n) ≤ n
at_most true n = ground arith
at_most false n = ground arith

disjoint_contradiction :
    (self : EtecConsolidator) (source target : MemoryRecord) (entity structural : ℕ) (multi : Bool)
    → overlapping source target ≡ some false
    → contradiction_score self source target entity structural multi ≤ decimal 5 10
unfolding contradiction_score
disjoint_contradiction self source target entity structural multi h =
    rw h (at_most _ (decimal 5 10))

features_disjoint :
    (self : EtecConsolidator) (source target : MemoryRecord)
    → overlapping source target ≡ some false
    → (features self source target).contradiction_score ≤ decimal 5 10
unfolding features
features_disjoint self source target apart =
    disjoint_contradiction self source target (entity_role self source target)
      (structural_similarity self source target) (is_multi_valued source target) apart

above_of : (a b : ℕ) → ltb a b ≡ true → a < b
above_of a b h = ground arith

-- With the default thresholds a pair whose intervals are known and do not overlap never supersedes.
pub score_pair_disjoint :
    (self : EtecConsolidator) (source target : MemoryRecord)
    → self.thresholds ≡ default_thresholds
    → overlapping source target ≡ some false
    → (score_pair self source target).action ≢ ConsolidationAction.supersede
score_pair_disjoint self source target defaults apart superseded =
    let (conflicting, _) = (score_pair_supersedes self source target).0 superseded in
    let least = default_thresholds.supersede_contradiction_min in
    let high : least ≤ (features self source target).contradiction_score =
      subst
        (λ (t : EtecThresholds).
          t.supersede_contradiction_min ≤ (features self source target).contradiction_score)
        defaults conflicting.1 in
    let low : (features self source target).contradiction_score ≤ decimal 5 10 =
      features_disjoint self source target apart in
    let above : decimal 5 10 < least = above_of _ _ below_threshold in omega arith
