-- ===== src/Retrieval/Candidates.antt =====
-- The candidates of the sources of src/evoeventmem/retrieval.py: the cap, the normalisation and the ranks.
use evoeventmem.Prelude.{
  ℕ, ◌+◌, Bool, Option, none, some, List, [], ◌∷◌, ◌++◌, map, ltb, not, ◌&&◌, ◌||◌, ◌==◌, nat_eq,
  max, select, take, drop, if◌then◌else◌,
}
use evoeventmem.Prelude.Dict
use evoeventmem.Prelude.Dict.{Dict}
use evoeventmem.Prelude.Sort.{sort}
use evoeventmem.Float
use evoeventmem.Platform.{Platform}
use evoeventmem.Domain.Order.{memory_order_key, tuple_lt}
use evoeventmem.Retrieval.Types.{CandidateSource, source_eq, all_sources, Candidate}

abbrev pub is_from : CandidateSource → Candidate → Bool
is_from source candidate = candidate.source == source

-- The largest raw score of a source, at least 0.0.
unfoldable pub source_max : CandidateSource → List Candidate → ℕ
source_max source [] = 0
source_max source (candidate ∷ candidates) =
    let rest = source_max source candidates in
    if candidate.source == source then max candidate.raw_score rest else rest

abbrev pub normalized : List Candidate → Candidate → Candidate
normalized candidates candidate =
    let largest = source_max candidate.source candidates in
    record candidate {
      normalized_score = if ltb 0 largest then Float.div candidate.raw_score largest else 0;
    }

-- `_normalize`
unfoldable pub normalize : List Candidate → List Candidate
normalize candidates = map (normalized candidates) candidates

-- A dict of the 1-based positions; a later position of the same memory replaces the earlier one.
unfoldable pub positions : ℕ → List Candidate → Dict ℕ ℕ → Dict ℕ ℕ
positions position [] ranks = ranks
positions position (candidate ∷ candidates) ranks =
    positions (position + 1) candidates (Dict.put ranks candidate.memory.memory_id position)

module _ (p : Platform) where
  -- The order of the keys `(-candidate.raw_score, *memory_order_key(candidate.memory))`.
  abbrev pub raw_lt : Candidate → Candidate → Bool
  raw_lt a b =
      ltb b.raw_score a.raw_score
      || a.raw_score == b.raw_score
        && tuple_lt (memory_order_key p.casefold a.memory) (memory_order_key p.casefold b.memory)

  abbrev pub of_source : CandidateSource → List Candidate → List Candidate
  of_source source candidates = sort raw_lt (select (is_from source) candidates)

  -- The loop of `_cap_candidates`: what is kept, and the ids that are dropped.
  unfoldable pub cap_sources : ℕ → List Candidate → List CandidateSource → List Candidate × List ℕ
  cap_sources limit candidates [] = ([], [])
  cap_sources limit candidates (source ∷ sources) =
      let (kept, dropped) = cap_sources limit candidates sources in
      let best = of_source source candidates in
      (
        take limit best ++ kept,
        map (λ (c : Candidate). c.memory.memory_id) (drop limit best) ++ dropped,
      )

  -- `_cap_candidates`, with `max_candidates_per_source`
  unfoldable pub cap_candidates : Option ℕ → List Candidate → List Candidate × List ℕ
  cap_candidates none candidates = (candidates, [])
  cap_candidates (some limit) candidates = cap_sources limit candidates all_sources

  -- `_source_ranks`, for one source
  unfoldable pub source_ranks : CandidateSource → List Candidate → Dict ℕ ℕ
  source_ranks source candidates =
      positions 1 (sort raw_lt (select (λ c. is_from source c && ltb 0 c.raw_score) candidates)) []

  -- `_better_candidate`
  unfoldable pub better_candidate : Candidate → Candidate → Bool
  better_candidate candidate existing =
      if not (candidate.normalized_score == existing.normalized_score)
      then ltb existing.normalized_score candidate.normalized_score
      else if not (candidate.raw_score == existing.raw_score)
      then ltb existing.raw_score candidate.raw_score
      else tuple_lt (memory_order_key p.casefold candidate.memory)
          (memory_order_key p.casefold existing.memory)
