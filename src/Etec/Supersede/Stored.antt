-- ===== src/Etec/Supersede/Stored.antt =====
-- The results of `_apply_supersede`: what it stores is of the scope of the source.
use evoeventmem.Prelude.{
  ℕ, ◌≡◌, ◌≢◌, refl, ◌⊎◌, inl, inr, none, some, List, [], ◌∷◌, ◌++◌, All, All-append, nat_eq, map,
}
use evoeventmem.Result.{Ensures, Ensures-bind, ensured}
use evoeventmem.Domain.Models.{MemoryRecord}
use evoeventmem.Etec.Types.{EtecConsolidator, EtecDecision, EtecApplyResult, ConsolidationAction}
use evoeventmem.Etec.Times.{require_fact_effective_time}
use evoeventmem.Etec.Copy.{
  supersede_memory, store_new_memory, store_superseded_memory, add_supersedes,
}
use evoeventmem.Etec.Copy.Scoped.{
  InScope, InScope-supersede_memory, InScope-add_supersedes, InScope-store_superseded_memory,
  InScope-store_new_memory,
}
use evoeventmem.Etec.Copy.Kept.{
  Stores, IsSource, Stores-action, IsSource-store_superseded_memory, IsSource-store_new_memory,
}
use evoeventmem.Etec.Select.{max_from}
use evoeventmem.Etec.Pairs.{PairDecision, pair_decisions, stale_pairs}
use evoeventmem.Etec.Supersede.{
  Sweep, SweepResult, ambiguous, swept, settle_stale, choose_supersede, sweep, store_stale,
  stale_source, supersede_all, newer_source, plan_supersede, winner_less,
}
use evoeventmem.Etec.Supersede.Scoped.{
  PairInScope, Timed, Swept, All-pair_decisions, All-stale_pairs, Swept-sweep, max_from_all,
}

-- A result that rejects the source and stores nothing, or one that stores the record that the action
-- makes of the source and others, all of them of the scope of the source.
abbrev pub Applied : EtecConsolidator → MemoryRecord → EtecApplyResult → Type 0
Applied self source result =
    ((result.decision.action ≡ ConsolidationAction.reject)
      × (result.stored_memory ≡ none)
      × (result.updated_memories ≡ []))
    ⊎ ((result.decision.action ≢ ConsolidationAction.reject)
        × All (InScope source) result.updated_memories
        × (stored : MemoryRecord) × (before : List MemoryRecord) × (after : List MemoryRecord)
        × Stores self result.decision.action source stored
        × (result.stored_memory ≡ some stored)
        × (result.updated_memories ≡ before ++ (stored ∷ after)))

module _ (source : MemoryRecord) (self : EtecConsolidator) where
  Applied-store_stale :
      (d : EtecDecision) (winner : MemoryRecord) (now : ℕ) (acc : Sweep)
      → d.action ≡ ConsolidationAction.supersede
      → InScope source winner
      → All (InScope source) acc.changed_targets
      → Ensures (Applied self source) (store_stale self source d winner now acc)
  unfolding store_stale
  Applied-store_stale d winner now acc e w h =
      Ensures-bind (Applied self source)
        (store_superseded_memory self source winner d acc.source_supersedes now) _
        λ stored ran.
          Ensures-bind (Applied self source)
            (add_supersedes self winner d (acc.winner_supersedes ++ (source.memory_id ∷ [])) now) _
            λ updated ran'. inr (
              λ rejected. cc,
              All-append (InScope source) acc.changed_targets (stored ∷ updated ∷ []) h (
                ensured (InScope source) _ stored
                    (InScope-store_superseded_memory self source winner d acc.source_supersedes now)
                    ran,
                (
                  ensured (InScope source) _ updated
                      (InScope-add_supersedes self source winner d
                        (acc.winner_supersedes ++ (source.memory_id ∷ [])) now w)
                      ran',
                  tt,
                ),
              ),
              stored,
              acc.changed_targets,
              updated ∷ [],
              Stores-action self d.action ConsolidationAction.supersede source stored e (
                  ensured (IsSource source) _ stored
                    (IsSource-store_superseded_memory self source winner d acc.source_supersedes
                      now)
                    ran),
              refl,
              refl,
            )

  Applied-settle_stale :
      (d : EtecDecision) (winner : MemoryRecord) (now : ℕ) (result : SweepResult)
      → d.action ≡ ConsolidationAction.supersede
      → InScope source winner
      → Swept source self result
      → Ensures (Applied self source) (settle_stale self source d winner now result)
  Applied-settle_stale d winner now (ambiguous decision) e w h = inl (h, refl, refl)
  Applied-settle_stale d winner now (swept acc) e w h = Applied-store_stale d winner now acc e w h

  Applied-stale_source :
      (time : ℕ) (pairs : List PairDecision) (winner : PairDecision) (now : ℕ)
      → All (PairInScope source) pairs
      → PairInScope source winner
      → Ensures (Applied self source) (stale_source self source time pairs winner now)
  unfolding stale_source
  Applied-stale_source time pairs winner now h w =
      Ensures-bind (Applied self source)
        (sweep self source time winner.decision winner.target pairs now _) _
        λ result ran. Applied-settle_stale winner.decision winner.target now result w.1 w.0 (
          ensured (Swept source self) _ result
            (Swept-sweep source self time winner.decision winner.target pairs now _ h tt) ran)

  All-supersede_all :
      (pairs : List PairDecision) (now : ℕ)
      → All (PairInScope source) pairs
      → Ensures (All (InScope source)) (supersede_all self source pairs now)
  unfolding supersede_all
  All-supersede_all [] now h = tt
  All-supersede_all (pair ∷ pairs) now h =
      Ensures-bind (All (InScope source))
        (supersede_memory self pair.target source pair.decision now) _
        λ updated ran.
          Ensures-bind (All (InScope source)) (supersede_all self source pairs now) _ λ rest ran'. (
            ensured (InScope source) _ updated
                (InScope-supersede_memory self source pair.target source pair.decision now h.0.0)
                ran,
            ensured (All (InScope source)) _ rest (All-supersede_all pairs now h.1) ran',
          )

  Applied-newer_source :
      (d : EtecDecision) (pairs : List PairDecision) (now : ℕ)
      → d.action ≡ ConsolidationAction.supersede
      → All (PairInScope source) pairs
      → Ensures (Applied self source) (newer_source self source d pairs now)
  unfolding newer_source
  Applied-newer_source d pairs now e h =
      Ensures-bind (Applied self source) (supersede_all self source pairs now) _ λ superseded ran.
        let ids = source.supersedes ++ map (λ (m : MemoryRecord). m.memory_id) superseded in
        Ensures-bind (Applied self source) (store_new_memory self source d ids now) _ λ stored ran'.
          inr (
            λ rejected. cc,
            All-append (InScope source) superseded (stored ∷ [])
                (ensured (All (InScope source)) _ superseded (All-supersede_all pairs now h) ran)
                (
                  ensured (InScope source) _ stored (InScope-store_new_memory self source d ids now)
                      ran',
                  tt,
                ),
            stored,
            superseded,
            [],
            Stores-action self d.action ConsolidationAction.supersede source stored e (
                ensured (IsSource source) _ stored (IsSource-store_new_memory self source d ids now)
                  ran'),
            refl,
            refl,
          )

  Applied-choose_supersede :
      (d : EtecDecision) (time : ℕ) (pairs : List PairDecision) (stale : List (ℕ × PairDecision))
      (now : ℕ)
      → d.action ≡ ConsolidationAction.supersede
      → All (PairInScope source) pairs
      → All (Timed source) stale
      → Ensures (Applied self source) (choose_supersede self source d time pairs stale now)
  Applied-choose_supersede d time pairs [] now e h k = Applied-newer_source d pairs now e h
  Applied-choose_supersede d time pairs (first ∷ others) now e h k =
      Applied-stale_source time pairs (max_from (winner_less self) first others).1 now h
        (max_from_all (Timed source) (winner_less self) first others k.0 k.1)

  pub Applied-plan_supersede :
      (d : EtecDecision) (scored : List EtecDecision) (targets : List MemoryRecord) (now : ℕ)
      → d.action ≡ ConsolidationAction.supersede
      → All (InScope source) targets
      → Ensures (Applied self source) (plan_supersede self source d scored targets now)
  unfolding plan_supersede
  Applied-plan_supersede d scored targets now e h =
      let pairs = pair_decisions targets scored in
      let ps = All-pair_decisions source targets scored h in
      Ensures-bind (Applied self source) (require_fact_effective_time source) _ λ time _.
        Ensures-bind (Applied self source) (stale_pairs time pairs) _ λ stale ran.
          Applied-choose_supersede d time pairs stale now e ps
            (ensured (All (Timed source)) _ stale (All-stale_pairs source time pairs ps) ran)
