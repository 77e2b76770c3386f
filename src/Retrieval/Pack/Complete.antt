-- ===== src/Retrieval/Pack/Complete.antt =====
-- What `_pack` of src/evoeventmem/retrieval.py selects and excludes.
use mathlib.Core.List.{Perm}
use evoeventmem.Prelude.{
  String, ℕ, ◌≡◌, ◌≤◌, ◌<◌, refl, ap, true, false, List, [], ◌∷◌, ◌++◌, map, All, All-imp,
  All-map_of, nat_eq, arith, inl, ◌⊎◌,
}
use evoeventmem.Prelude.Sort.{sort-perm}
use evoeventmem.Retrieval.Types.{EvidencePolicy, ScoredMemory, ExclusionRecord, budget_exceeded}
use evoeventmem.Retrieval.Pack.{
  RetrievalHarness, PackState, total, fits, pool_lt, pack, initial, both_phases, exclusion_of,
  pack_items, ids,
}
use evoeventmem.Retrieval.Pack.Bounded.{Ends, Ends-pack}

module _ (self : RetrievalHarness) (query : String) (budget : ℕ) (policy : EvidencePolicy)
    (eligible : List ScoredMemory) where
  -- What is selected, and what is left of the eligible items.
  pub record Packed (selected : List ScoredMemory) (exclusions : List ExclusionRecord)
      : Type 0 where
    pub within_budget : (selected ≡ []) ⊎ (total self query selected ≤ budget)
    pub left : List ScoredMemory
    pub each_once : Perm (selected ++ left) eligible
    pub too_large : All (λ item. budget < total self query (selected ++ item ∷ [])) left
    pub excluded :
        ids self query budget policy left ≡ map (λ (e : ExclusionRecord). e.memory_id) exclusions
    pub reasons : All (λ (e : ExclusionRecord). e.reason ≡ budget_exceeded) exclusions

  end_state :
      Ends self query budget policy eligible true (both_phases self query budget policy eligible)
  unfolding both_phases
  end_state =
      let start = initial self query budget policy eligible in
      Ends-pack self query budget policy eligible true (pack self query budget policy false start) (
        (Ends-pack self query budget policy eligible false start
          (inl refl, sort-perm (pool_lt self query) eligible)).0)

  excluded_ids :
      (s : PackState) (items : List ScoredMemory)
      → ids self query budget policy items
        ≡ map
            (λ (e : ExclusionRecord). e.memory_id)
            (map (exclusion_of self query budget policy s) items)
  excluded_ids s [] = refl
  excluded_ids s (x ∷ xs) = ap (◌∷◌ x.memory.memory_id) (excluded_ids s xs)

  -- The packing selects nothing, or items whose rendered reader input fits the budget. Each eligible item
  -- is either selected or excluded, once. None of the excluded items would fit in addition to what is
  -- selected, so that nothing is left out for the sake of diversity, and every exclusion has the reason
  -- `budget_exceeded`.
  pub pack_items_lem :
      Packed
        (pack_items self query budget policy eligible).0
        (pack_items self query budget policy eligible).1.1.1
  unfolding pack_items
  pack_items_lem =
      let s = both_phases self query budget policy eligible in
      let ((within, perm), exhausted) = end_state in
      let Over = λ (item : ScoredMemory). fits self query budget policy true s item ≡ false in
      record {
        within_budget = within;
        left = s.pool;
        each_once = perm;
        too_large =
            All-imp Over (λ item. budget < total self query (s.selected ++ item ∷ [])) s.pool
              (λ item h. ground arith) exhausted;
        excluded = excluded_ids s s.pool;
        reasons =
            All-map_of (λ (e : ExclusionRecord). e.reason ≡ budget_exceeded) Over
              (exclusion_of self query budget policy s) s.pool (λ item h. ground arith) exhausted;
      }
