-- ===== src/Etec/Supersede.antt =====
-- `_apply_supersede` and `_relink_merged_source_histories`: the records they store, in their order.
-- All the readings of the clock of one call are the same time `now`.
pub mod Scoped
pub mod Stored
use evoeventmem.Prelude.{
  ℕ, String, Bool, true, false, Option, none, some, List, [], ◌∷◌, ◌++◌, map, ◌||◌, ◌&&◌, ◌==◌,
  nat_eq, string_eq, ltb, if◌then◌else◌,
}
use evoeventmem.Result.{Result, ok, err, value_error, ◌>>=◌}
use evoeventmem.Domain.Models.{MemoryRecord}
use evoeventmem.Domain.Order.{tuple_lt}
use evoeventmem.Repository.Port.{Repository}
use evoeventmem.Etec.Types.{
  EtecConsolidator, EtecDecision, EtecApplyResult, ConsolidationAction, is_supersede, is_merge,
}
use evoeventmem.Etec.Math.{as_set}
use evoeventmem.Etec.Times.{fact_effective_time, require_fact_effective_time}
use evoeventmem.Etec.Score.{score_pair}
use evoeventmem.Etec.Select.{max_from}
use evoeventmem.Etec.Targets.{by_id}
use evoeventmem.Etec.Copy.{
  supersede_memory, add_supersedes, store_superseded_memory, store_new_memory, validated,
  metadata_with_decision,
}
use evoeventmem.Etec.Pairs.{
  PairDecision, merged_source_history_relink_decision, cleanup_supersede_decision,
  ambiguous_current_winners_decision, pair_decisions, stale_pairs,
}

-- The records to store before the source's own, and the two lists of superseded ids.
pub record Sweep : Type 0 where
  pub changed_targets : List MemoryRecord
  pub winner_supersedes : List ℕ
  pub source_supersedes : List ℕ

-- A loop that returns early with a decision, or ends.
pub data SweepResult : Type 0 where
  ambiguous : EtecDecision → SweepResult
  swept : Sweep → SweepResult

module _ (self : EtecConsolidator) where
  -- The order of the keys `(effective time, str(id))`.
  unfoldable pub winner_less : ℕ × PairDecision → ℕ × PairDecision → Bool
  winner_less (s, a) (t, b) =
      ltb s t
      || s == t
        && tuple_lt (self.platform.uuid_str a.target.memory_id ∷ [])
            (self.platform.uuid_str b.target.memory_id ∷ [])

  -- One turn of the loop over the pairs where the source loses against the winner.
  unfoldable pub supersede_by_source : MemoryRecord → PairDecision → ℕ → Sweep → Result SweepResult
  supersede_by_source source pair now acc = do
    updated ← supersede_memory self pair.target source pair.decision now
    ok (
        swept (record acc {
          changed_targets = acc.changed_targets ++ (updated ∷ []);
          source_supersedes = acc.source_supersedes ++ (pair.target.memory_id ∷ []);
        }))

  unfoldable pub supersede_by_winner :
      MemoryRecord → PairDecision → EtecDecision → ℕ → Sweep → Result SweepResult
  supersede_by_winner winner pair actual now acc = do
    updated ← supersede_memory self pair.target winner (cleanup_supersede_decision actual) now
    ok (
        swept (record acc {
          changed_targets = acc.changed_targets ++ (updated ∷ []);
          winner_supersedes = acc.winner_supersedes ++ (pair.target.memory_id ∷ []);
        }))

  -- The pair is scored again, now with the winner; what does not supersede or merge is ambiguous.
  unfoldable pub compare_with_winner :
      MemoryRecord → EtecDecision → MemoryRecord → PairDecision → ℕ → Sweep → Result SweepResult
  compare_with_winner source winner_decision winner pair now acc =
      let actual = score_pair self winner pair.target in
      if is_merge actual.action || is_supersede actual.action
      then supersede_by_winner winner pair actual now acc
      else ok (ambiguous (ambiguous_current_winners_decision source winner_decision actual))

  abbrev pub sweep_at :
      Option ℕ → ℕ → Result SweepResult → Result SweepResult → Sweep → Result SweepResult
  sweep_at none source_time by_source by_winner acc = ok (swept acc)
  sweep_at (some target_time) source_time by_source by_winner acc =
      if ltb target_time source_time then by_source else by_winner

  unfoldable pub sweep_pair :
      MemoryRecord → ℕ → EtecDecision → MemoryRecord → PairDecision → ℕ → Sweep → Result SweepResult
  sweep_pair source source_time winner_decision winner pair now acc =
      if pair.target.memory_id == winner.memory_id
      then ok (swept acc)
      else sweep_at (fact_effective_time pair.target) source_time
          (supersede_by_source source pair now acc)
          (compare_with_winner source winner_decision winner pair now acc) acc

  -- The rest of the loop after a turn.
  abbrev pub next_turn : SweepResult → (Sweep → Result SweepResult) → Result SweepResult
  next_turn (ambiguous decision) rest = ok (ambiguous decision)
  next_turn (swept acc) rest = rest acc

  unfoldable pub sweep :
      MemoryRecord
      → ℕ
      → EtecDecision
      → MemoryRecord
      → List PairDecision
      → ℕ
      → Sweep
      → Result SweepResult
  sweep source source_time winner_decision winner [] now acc = ok (swept acc)
  sweep source source_time winner_decision winner (pair ∷ pairs) now acc = do
    turn ← sweep_pair source source_time winner_decision winner pair now acc
    next_turn turn (λ acc'. sweep source source_time winner_decision winner pairs now acc')

  -- The source is stale: it is stored as superseded by the winner.
  unfoldable pub store_stale :
      MemoryRecord → EtecDecision → MemoryRecord → ℕ → Sweep → Result EtecApplyResult
  store_stale source winner_decision winner now acc = do
    stored_source ←
        store_superseded_memory self source winner winner_decision acc.source_supersedes now
    updated_winner ←
        add_supersedes self winner winner_decision
          (acc.winner_supersedes ++ (source.memory_id ∷ [])) now
    ok (record {
      decision = winner_decision;
      stored_memory = some stored_source;
      updated_memories = acc.changed_targets ++ (stored_source ∷ updated_winner ∷ []);
    })

  abbrev pub settle_stale :
      MemoryRecord → EtecDecision → MemoryRecord → ℕ → SweepResult → Result EtecApplyResult
  settle_stale source winner_decision winner now (ambiguous decision) =
      ok (record { decision = decision; stored_memory = none; updated_memories = [] })
  settle_stale source winner_decision winner now (swept acc) =
      store_stale source winner_decision winner now acc

  unfoldable pub stale_source :
      MemoryRecord → ℕ → List PairDecision → PairDecision → ℕ → Result EtecApplyResult
  stale_source source source_time pairs winner now = do
    result ← sweep source source_time winner.decision winner.target pairs now (record {
      changed_targets = [];
      winner_supersedes = winner.target.supersedes;
      source_supersedes = source.supersedes;
    })
    settle_stale source winner.decision winner.target now result

  unfoldable pub supersede_all : MemoryRecord → List PairDecision → ℕ → Result (List MemoryRecord)
  supersede_all source [] now = ok []
  supersede_all source (pair ∷ pairs) now = do
    updated ← supersede_memory self pair.target source pair.decision now
    rest ← supersede_all source pairs now
    ok (updated ∷ rest)

  -- The source is newer than all the targets.
  unfoldable pub newer_source :
      MemoryRecord → EtecDecision → List PairDecision → ℕ → Result EtecApplyResult
  newer_source source decision pairs now = do
    superseded ← supersede_all source pairs now
    stored ←
        store_new_memory self source decision
          (source.supersedes ++ map (λ (m : MemoryRecord). m.memory_id) superseded) now
    ok (record {
      decision = decision;
      stored_memory = some stored;
      updated_memories = superseded ++ (stored ∷ []);
    })

  abbrev pub choose_supersede :
      MemoryRecord
      → EtecDecision
      → ℕ
      → List PairDecision
      → List (ℕ × PairDecision)
      → ℕ
      → Result EtecApplyResult
  choose_supersede source decision source_time pairs [] now = newer_source source decision pairs now
  choose_supersede source decision source_time pairs (first ∷ others) now =
      stale_source source source_time pairs (max_from winner_less first others).1 now

  unfoldable pub plan_supersede :
      MemoryRecord
      → EtecDecision
      → List EtecDecision
      → List MemoryRecord
      → ℕ
      → Result EtecApplyResult
  plan_supersede source decision scored targets now = do
    source_time ← require_fact_effective_time source
    let pairs = pair_decisions targets scored
    stale ← stale_pairs source_time pairs
    choose_supersede source decision source_time pairs stale now

abbrev pub require_history : Option MemoryRecord → Result MemoryRecord
require_history none = err (value_error "verified source history disappeared during merge")
require_history (some history) = ok history

module _ (self : EtecConsolidator) (r : Repository) where
  unfoldable pub relink : r.State → MemoryRecord → List ℕ → ℕ → Result (List MemoryRecord)
  relink s merged [] now = ok []
  relink s merged (id ∷ ids) now = do
    found ← r.get s id
    history ← require_history found
    let decision = merged_source_history_relink_decision (score_pair self merged history)
    relinked ← validated self (record history {
      superseded_by = some merged.memory_id;
      metadata = metadata_with_decision self.platform history decision;
      updated_at = now;
    })
    rest ← relink s merged ids now
    ok (relinked ∷ rest)

  unfoldable pub relink_merged_source_histories :
      r.State → MemoryRecord → MemoryRecord → ℕ → Result (List MemoryRecord)
  relink_merged_source_histories s merged source now = relink s merged source.supersedes now
