-- ===== src/Retrieval/Pack.antt =====
-- `_pack` of src/evoeventmem/retrieval.py. `pool.remove(best)` removes the first item equal to `best`,
-- and `best` is the first of the best items, so the item is taken out at its place.
pub mod Bounded
pub mod Complete
pub mod Showable
use evoeventmem.Prelude.{
  ℕ, zero, suc, ◌+◌, ◌-◌, String, Bool, true, false, Option, none, some, List, [], ◌∷◌, ◌++◌, map,
  ltb, leb, not, ◌&&◌, ◌||◌, ◌==◌, nat_eq, string_eq, option_eq, pair_eq, any, contains, length,
  if◌then◌else◌,
}
use evoeventmem.Prelude.Dict
use evoeventmem.Prelude.Dict.{Dict}
use evoeventmem.Prelude.Sort.{sort}
use evoeventmem.Float
use evoeventmem.Platform.{Platform}
use evoeventmem.Domain.Models.{EvidenceRef}
use evoeventmem.Domain.Order.{memory_order_key, tuple_lt}
use evoeventmem.Etec.Math.{evidence_key}
use evoeventmem.Tokens.{DeterministicTokenEstimator, TokenEstimate, count_messages}
use evoeventmem.Retrieval.Types.{
  CandidateSource, dense, temporal, graph, episodic, procedural, source_eq, source_value,
  EvidencePolicy, constrained, provenance_only, SourceScore, ScoredMemory, not_selected_by_packing,
  budget_exceeded, of_packing, ExclusionRecord,
}
use evoeventmem.Retrieval.Reader.{reader_entries, reader_messages}

-- What the packing uses of `RetrievalHarness`, with `str` of a number.
pub record RetrievalHarness : Type 0 where
  pub platform : Platform
  pub int_str : ℕ → String
  pub estimator : DeterministicTokenEstimator
  pub max_items_per_source : ℕ

abbrev pub EvidenceKey : Type 0
EvidenceKey = String × (String × Option String)

-- The local variables of `_pack`.
pub record PackState : Type 0 where
  pub selected : List ScoredMemory
  pub covered_evidence : List EvidenceKey
  pub source_counts : Dict CandidateSource ℕ
  pub pool : List ScoredMemory

-- A difference of two numbers of tokens.
pub data ℤ : Type 0 where
  pos negsuc : ℕ → ℤ

abbrev pub difference : ℕ → ℕ → ℤ
difference a b = if leb b a then pos (a - b) else negsuc (b - a - 1)

-- `_evidence_keys`
abbrev pub evidence_keys : List EvidenceRef → List EvidenceKey
evidence_keys refs = map evidence_key refs

-- `max` by `(weighted_score, source.value)`: the first of the greatest.
abbrev pub score_lt : SourceScore → SourceScore → Bool
score_lt a b =
    ltb a.weighted_score b.weighted_score
    || a.weighted_score == b.weighted_score
      && tuple_lt (source_value a.source ∷ []) (source_value b.source ∷ [])

unfoldable pub greatest : SourceScore → List SourceScore → SourceScore
greatest best [] = best
greatest best (score ∷ scores) = greatest (if score_lt best score then score else best) scores

-- `_packing_source`
abbrev pub source_of_scores : List SourceScore → CandidateSource
source_of_scores [] = dense
source_of_scores (score ∷ scores) = (greatest score scores).source

abbrev pub packing_source : ScoredMemory → CandidateSource
packing_source item = source_of_scores item.source_scores

abbrev pub or_zero : Option ℕ → ℕ
or_zero none = 0
or_zero (some n) = n

abbrev pub no_counts : Dict CandidateSource ℕ
no_counts = (dense, 0) ∷ (temporal, 0) ∷ (graph, 0) ∷ (episodic, 0) ∷ (procedural, 0) ∷ []

abbrev pub is_constrained : EvidencePolicy → Bool
is_constrained constrained = true
is_constrained provenance_only = false

-- An item of the list that passes the test and the list without it: the first of the greatest.
abbrev pub Taken : Type 0
Taken = Option (ScoredMemory × List ScoredMemory)

abbrev pub skip : ScoredMemory → Taken → Taken
skip item none = none
skip item (some (best, rest)) = some (best, item ∷ rest)

abbrev pub choose :
    (ScoredMemory → ScoredMemory → Bool) → ScoredMemory → List ScoredMemory → Taken → Taken
choose lt item items none = some (item, items)
choose lt item items (some (best, rest)) =
    if lt item best then some (best, item ∷ rest) else some (item, items)

unfoldable pub take_best :
    (ScoredMemory → Bool) → (ScoredMemory → ScoredMemory → Bool) → List ScoredMemory → Taken
take_best fits lt [] = none
take_best fits lt (item ∷ items) =
    let rest = take_best fits lt items in
    if fits item then choose lt item items rest else skip item rest

module _ (self : RetrievalHarness) (query : String) where
  -- `_estimate_reader_input`, of the entries of the items
  unfoldable pub estimate_reader_input : List ScoredMemory → TokenEstimate
  estimate_reader_input items =
      count_messages self.estimator
        (reader_messages self.platform self.int_str query (reader_entries items))

  abbrev pub total : List ScoredMemory → ℕ
  total items = (estimate_reader_input items).total_tokens

  -- `_coverage_bonus`
  unfoldable pub coverage_bonus : ScoredMemory → List EvidenceKey → ℕ
  coverage_bonus item covered_evidence =
      if any (λ key. not (contains key covered_evidence)) (evidence_keys item.evidence_refs)
      then Float.decimal 1 10
      else 0

  -- The order of the keys `(-item.final_score, *memory_order_key(item.memory))`.
  abbrev pub pool_lt : ScoredMemory → ScoredMemory → Bool
  pool_lt a b =
      ltb b.final_score a.final_score
      || a.final_score == b.final_score
        && tuple_lt (memory_order_key self.platform.casefold a.memory)
            (memory_order_key self.platform.casefold b.memory)

  module _ (budget : ℕ) (evidence_policy : EvidencePolicy) where
    abbrev pub fits_budget : PackState → ScoredMemory → Bool
    fits_budget s item = leb (total (s.selected ++ item ∷ [])) budget

    abbrev pub has_room : Bool → PackState → ScoredMemory → Bool
    has_room allow_oversubscribed s item =
        allow_oversubscribed
        || ltb (or_zero (Dict.get s.source_counts (packing_source item))) self.max_items_per_source

    abbrev pub packing_score : PackState → ScoredMemory → ℕ
    packing_score s item =
        Float.add item.final_score
          (if is_constrained evidence_policy then coverage_bonus item s.covered_evidence else 0)

    -- The order of the keys of `best_of`.
    unfoldable pub best_lt : PackState → ScoredMemory → ScoredMemory → Bool
    best_lt s a b =
        ltb (packing_score s a) (packing_score s b)
        || packing_score s a == packing_score s b
          && tuple_lt (memory_order_key self.platform.casefold a.memory)
              (memory_order_key self.platform.casefold b.memory)

    abbrev pub fits : Bool → PackState → ScoredMemory → Bool
    fits allow_oversubscribed s item = fits_budget s item && has_room allow_oversubscribed s item

    abbrev pub packed : PackState → ScoredMemory → List ScoredMemory → PackState
    packed s best rest =
        let source = packing_source best in
        record {
          selected = s.selected ++ best ∷ [];
          covered_evidence = s.covered_evidence ++ evidence_keys best.evidence_refs;
          source_counts =
              Dict.put s.source_counts source (or_zero (Dict.get s.source_counts source) + 1);
          pool = rest;
        }

    -- The rest of the loop, after the choice.
    abbrev pub continue : (PackState → PackState) → PackState → Taken → PackState
    continue loop s none = s
    continue loop s (some (best, rest)) = loop (packed s best rest)

    -- `while pool`, on fuel: each round takes an item out of the pool.
    unfoldable pub pack_from : ℕ → Bool → PackState → PackState
    pack_from zero allow_oversubscribed s = s
    pack_from (suc fuel) allow_oversubscribed s =
        continue (pack_from fuel allow_oversubscribed) s
          (take_best (fits allow_oversubscribed s) (best_lt s) s.pool)

    -- The inner `pack`, with enough fuel for the pool.
    unfoldable pub pack : Bool → PackState → PackState
    pack allow_oversubscribed s = pack_from (length s.pool) allow_oversubscribed s

    abbrev pub initial : List ScoredMemory → PackState
    initial eligible = record {
      selected = [];
      covered_evidence = [];
      source_counts = no_counts;
      pool = sort pool_lt eligible;
    }

    unfoldable pub both_phases : List ScoredMemory → PackState
    both_phases eligible = pack true (pack false (initial eligible))

    -- The marginal tokens of each item, after the items before it.
    unfoldable pub marginal_tokens : List ScoredMemory → List ScoredMemory → Dict ℕ ℤ → Dict ℕ ℤ
    marginal_tokens running [] tokens = tokens
    marginal_tokens running (item ∷ items) tokens =
        let running' = running ++ item ∷ [] in
        marginal_tokens running' items
          (Dict.put tokens item.memory.memory_id (difference (total running') (total running)))

    abbrev pub ids : List ScoredMemory → List ℕ
    ids items = map (λ (item : ScoredMemory). item.memory.memory_id) items

    -- `fits_now` and the reason.
    abbrev pub exclusion_of : PackState → ScoredMemory → ExclusionRecord
    exclusion_of s item =
        let fits_now =
          not (contains item.memory.memory_id (ids s.selected)) && fits_budget s item in
        record {
          memory_id = item.memory.memory_id;
          reason = if fits_now then not_selected_by_packing else budget_exceeded;
          details = of_packing item.token_count budget;
        }

    -- `_pack`: the selected items, their marginal tokens, the estimate and the exclusions.
    unfoldable pub pack_items :
        List ScoredMemory → List ScoredMemory × (Dict ℕ ℤ × (TokenEstimate × List ExclusionRecord))
    pack_items eligible =
        let s = both_phases eligible in
        (
          s.selected,
          (
            marginal_tokens [] s.selected [],
            (estimate_reader_input s.selected, map (exclusion_of s) s.pool),
          ),
        )
