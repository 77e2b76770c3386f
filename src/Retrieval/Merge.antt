-- ===== src/Retrieval/Merge.antt =====
-- `_merge_candidates` of src/evoeventmem/retrieval.py, by weighted reciprocal ranks or by normalised
-- scores.
use evoeventmem.Prelude.{
  ℕ, ◌+◌, ◌*◌, Bool, Option, none, some, List, [], ◌∷◌, ◌++◌, map, ltb, ◌&&◌, nat_eq, select,
  length, String, if◌then◌else◌,
}
use evoeventmem.Prelude.Dict
use evoeventmem.Prelude.Dict.{Dict, values}
use evoeventmem.Prelude.Sort.{sort}
use evoeventmem.Float
use evoeventmem.Result.{Result, ok, err, key_error, raise_first, ◌>>=◌}
use evoeventmem.Platform.{Platform}
use evoeventmem.Domain.Models.{MemoryRecord}
use evoeventmem.Domain.Order.{memory_order_key, tuple_lt}
use evoeventmem.Domain.Text.{split}
use evoeventmem.Etec.Types.{QueryIntent}
use evoeventmem.Etec.Math.{unique_evidence}
use evoeventmem.Retrieval.Types.{
  CandidateSource, source_eq, all_sources, Candidate, SourceScore, ScoredMemory, is_historical,
}
use evoeventmem.Retrieval.Weights.{Weights}
use evoeventmem.Retrieval.Candidates.{source_ranks, better_candidate}
use evoeventmem.Retrieval.Classify.{is_superseded}

-- The candidates of one memory, by source.
abbrev pub PerSource : Type 0
PerSource = Dict CandidateSource Candidate

-- `RRF_K`
unfoldable pub rrf_k : ℕ
rrf_k = 60

-- `SUPERSEDED_HISTORICAL_PENALTY`
unfoldable pub superseded_historical_penalty : ℕ
superseded_historical_penalty = Float.decimal 5 10

abbrev pub or_empty_dict : Option PerSource → PerSource
or_empty_dict none = []
or_empty_dict (some per_source) = per_source

abbrev pub require_weight : Option ℕ → Result ℕ
require_weight none = err key_error
require_weight (some weight) = ok weight

-- A rank gives a contribution to the fusion, and no rank gives none.
abbrev pub rank_contribution : ℕ → Option ℕ → ℕ
rank_contribution weight none = 0
rank_contribution weight (some rank) = Float.div weight ((rrf_k + rank) * Float.one)

-- The field constraints of `SourceScore` and `ScoredMemory`.
abbrev pub check_score : SourceScore → Result SourceScore
check_score score =
    raise_first
      ((ltb Float.one score.normalized_score, "normalized_score")
        ∷ (ltb Float.one score.fusion_contribution, "fusion_contribution")
        ∷ [])
      score

abbrev pub check_scored : ScoredMemory → Result ScoredMemory
check_scored scored =
    raise_first
      ((ltb Float.one scored.final_score, "final_score")
        ∷ (ltb scored.token_count 1, "token_count")
        ∷ [])
      scored

abbrev pub prepend_if : Option SourceScore → List SourceScore → List SourceScore
prepend_if none scores = scores
prepend_if (some score) scores = score ∷ scores

-- `sum` of doubles is a parameter: it is library code that compensates rounding.
module _ (p : Platform) (sum : List ℕ → ℕ) where
  abbrev pub unless_better : Candidate → PerSource → Option Candidate → PerSource
  unless_better candidate per_source none = Dict.put per_source candidate.source candidate
  unless_better candidate per_source (some existing) =
      if better_candidate p candidate existing
      then Dict.put per_source candidate.source candidate
      else per_source

  -- The first loop: the best candidate of each memory and source.
  unfoldable pub group : List Candidate → Dict ℕ PerSource → Dict ℕ PerSource
  group [] by_memory = by_memory
  group (candidate ∷ candidates) by_memory =
      let id = candidate.memory.memory_id in
      let per_source = or_empty_dict (Dict.get by_memory id) in
      group candidates (
        Dict.put by_memory id
          (unless_better candidate per_source (Dict.get per_source candidate.source)))

  -- `next(iter(per_source.values())).memory`, and the order of the memories by it
  abbrev pub first_memory : PerSource → Option MemoryRecord
  first_memory [] = none
  first_memory ((source, candidate) ∷ per_source) = some candidate.memory

  abbrev pub order_key : Option MemoryRecord → List String
  order_key none = []
  order_key (some memory) = memory_order_key p.casefold memory

  abbrev pub group_lt : ℕ × PerSource → ℕ × PerSource → Bool
  group_lt (i, a) (j, b) = tuple_lt (order_key (first_memory a)) (order_key (first_memory b))

  module _ (candidates : List Candidate) (weights : Weights) (intent : QueryIntent)
      (wrrf : Bool) where
    -- The score of a memory from one source, if the source has a candidate of it.
    unfoldable pub source_score : CandidateSource → Option Candidate → Result (Option SourceScore)
    source_score source none = ok none
    source_score source (some candidate) = do
      let rank = Dict.get (source_ranks p source candidates) candidate.memory.memory_id
      weight ← require_weight (Dict.get weights source)
      let normalized = if wrrf then rank_contribution weight rank else candidate.normalized_score
      let contribution = if wrrf then normalized else Float.mul weight candidate.normalized_score
      score ← check_score (record {
        source = source;
        normalized_score = normalized;
        weighted_score = contribution;
        raw_score = candidate.raw_score;
        rank = rank;
        weight = weight;
        fusion_contribution = contribution;
        reason = candidate.reason;
      })
      ok (some score)

    unfoldable pub source_scores : PerSource → List CandidateSource → Result (List SourceScore)
    source_scores per_source [] = ok []
    source_scores per_source (source ∷ sources) = do
      score ← source_score source (Dict.get per_source source)
      scores ← source_scores per_source sources
      ok (prepend_if score scores)

    unfoldable pub weight_total : ℕ
    weight_total = sum (select (λ weight. ltb 0 weight) (values weights))

    -- `final_score`, before and after the penalty
    abbrev pub weighted_mean : List SourceScore → ℕ
    weighted_mean scores =
        let weighted_sum = sum (map (λ (s : SourceScore). s.weighted_score) scores) in
        if ltb 0 weight_total then Float.div weighted_sum weight_total else 0

    abbrev pub is_historical_memory : MemoryRecord → Bool
    is_historical_memory memory = is_superseded memory.status && is_historical intent

    unfoldable pub scored_memory : MemoryRecord → List SourceScore → ScoredMemory
    scored_memory memory scores =
        let mean = weighted_mean scores in
        record {
          memory = memory;
          source_scores = scores;
          final_score =
              if is_historical_memory memory
              then Float.mul mean superseded_historical_penalty
              else mean;
          historical = is_historical_memory memory;
          token_count = length (split memory.content);
          evidence_refs = unique_evidence memory.evidence_refs;
        }

    abbrev pub merge_group : PerSource → Option MemoryRecord → Result (List ScoredMemory)
    merge_group per_source none = ok []
    merge_group per_source (some memory) = do
      scores ← source_scores per_source all_sources
      scored ← check_scored (scored_memory memory scores)
      ok (scored ∷ [])

    unfoldable pub merge_groups : List (ℕ × PerSource) → Result (List ScoredMemory)
    merge_groups [] = ok []
    merge_groups ((id, per_source) ∷ groups) = do
      scored ← merge_group per_source (first_memory per_source)
      merged ← merge_groups groups
      ok (scored ++ merged)

    -- `_merge_candidates`
    unfoldable pub merge_candidates : Result (List ScoredMemory)
    merge_candidates = merge_groups (sort group_lt (group candidates []))
