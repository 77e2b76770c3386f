-- ===== src/Retrieval/Sources.antt =====
-- The candidates of the temporal, graph, episodic and procedural source of src/evoeventmem/retrieval.py.
-- The tokens of a text, the matches of `_TOKEN_RE` in lower case, are a parameter.
use Prim.Native.Nat.{◌/◌}
use evoeventmem.Prelude.{
  ℕ, ◌+◌, ◌-◌, String, Bool, true, false, Option, none, some, List, [], ◌∷◌, ◌++◌, map, select, leb,
  not, ◌&&◌, ◌==◌, nat_eq, length, min, if◌then◌else◌,
}
use evoeventmem.Prelude.Dict
use evoeventmem.Float
use evoeventmem.Domain.Text.{join}
use evoeventmem.Domain.Models.{MemoryRecord, MemoryKind, EntityRef, RelationRef, is_active}
use evoeventmem.Etec.Math.{jaccard}
use evoeventmem.Retrieval.Types.{
  CandidateSource, temporal, graph, episodic, procedural, source_eq, Candidate, is_historical,
  TemporalOperator, no_operator, QueryRoutingDecision,
}
use evoeventmem.Retrieval.Weights.{Weights}
use evoeventmem.Retrieval.Reader.{temporal_anchor}

-- The microseconds of a day.
abbrev pub day : ℕ
day = 86400000000

-- `abs((reference - anchor).days)`: the days of a negative difference are rounded down, so its absolute
-- value is rounded up.
unfoldable pub distance_days : ℕ → ℕ → ℕ
distance_days reference anchor =
    if leb anchor reference
    then (reference - anchor) / day
    else (anchor - reference + day - 1) / day

abbrev pub recency_of : ℕ → Option ℕ → ℕ
recency_of reference none = 0
recency_of reference (some anchor) =
    Float.div Float.one (Float.add Float.one (Float.div (distance_days reference anchor) 365))

-- `_temporal_recency`
unfoldable pub temporal_recency : MemoryRecord → ℕ → ℕ
temporal_recency memory reference = recency_of reference (temporal_anchor memory)

-- `_temporal_recency_presence`
unfoldable pub temporal_recency_presence : MemoryRecord → ℕ → ℕ
temporal_recency_presence memory reference =
    Float.mul (Float.decimal 5 100) (temporal_recency memory reference)

abbrev pub is_some : Option ℕ → Bool
is_some none = false
is_some (some t) = true

abbrev pub is_episode : MemoryKind → Bool
is_episode MemoryKind.episode = true
is_episode _ = false

abbrev pub is_procedure : MemoryKind → Bool
is_procedure MemoryKind.procedure = true
is_procedure _ = false

abbrev pub candidate_of : CandidateSource → String → (MemoryRecord → ℕ) → MemoryRecord → Candidate
candidate_of source reason score memory = record {
  memory = memory;
  source = source;
  raw_score = score memory;
  normalized_score = 0;
  reason = reason;
}

-- `_temporal_candidates`
unfoldable pub temporal_candidates : List MemoryRecord → ℕ → List Candidate
temporal_candidates memories reference =
    map
      (candidate_of temporal "temporal-recency-to-query-reference"
        (λ memory. temporal_recency memory reference))
      (select (λ memory. is_some (temporal_anchor memory)) memories)

-- `UNCONSTRAINED_TEMPORAL_WEIGHT_CAP`
unfoldable pub unconstrained_temporal_weight_cap : ℕ
unconstrained_temporal_weight_cap = Float.decimal 3 10

abbrev pub is_none_operator : TemporalOperator → Bool
is_none_operator no_operator = true
is_none_operator _ = false

abbrev pub capped_weight : Weights → Option ℕ → Weights
capped_weight weights none = weights
capped_weight weights (some weight) =
    Dict.put weights temporal (min weight unconstrained_temporal_weight_cap)

-- `_effective_weights`; the profile of a historical intent has a temporal weight.
unfoldable pub effective_weights : Weights → QueryRoutingDecision → Weights
effective_weights weights routing =
    if is_historical routing.intent && is_none_operator routing.temporal_constraint.operator
    then capped_weight weights (Dict.get weights temporal)
    else weights

-- The predicate and the target of each relation.
unfoldable pub relation_terms : List RelationRef → List String
relation_terms [] = []
relation_terms (relation ∷ relations) =
    relation.predicate ∷ relation.target ∷ relation_terms relations

module _ (token_set : String → List String) where
  -- `_relation_tokens`
  unfoldable pub relation_tokens : MemoryRecord → List String
  relation_tokens memory =
      token_set
        (join (map (λ (e : EntityRef). e.name) memory.entities ++ relation_terms memory.relations))

  -- `_episodic_score`
  unfoldable pub episodic_score : MemoryRecord → List String → ℕ → ℕ
  episodic_score memory query_tokens reference =
      Float.add (Float.mul (Float.decimal 5 10) (jaccard query_tokens (token_set memory.content)))
        (Float.mul (Float.decimal 5 10) (temporal_recency memory reference))

  -- `_graph_candidates`
  unfoldable pub graph_candidates : String → List MemoryRecord → List Candidate
  graph_candidates query memories =
      map
        (candidate_of graph "graph-entity-relation-overlap"
          (λ memory. jaccard (token_set query) (relation_tokens memory)))
        (select (λ memory. is_active memory.status && not (length (relation_tokens memory) == 0))
          memories)

  -- `_episodic_candidates`
  unfoldable pub episodic_candidates : String → List MemoryRecord → ℕ → List Candidate
  episodic_candidates query memories reference =
      map
        (candidate_of episodic "episodic-content-and-recency"
          (λ memory. episodic_score memory (token_set query) reference))
        (select (λ memory. is_episode memory.memory_kind) memories)

  -- `_procedural_candidates`
  unfoldable pub procedural_candidates : String → List MemoryRecord → List Candidate
  procedural_candidates query memories =
      map
        (candidate_of procedural "procedural-content-overlap"
          (λ memory. jaccard (token_set query) (token_set memory.content)))
        (select (λ memory. is_procedure memory.memory_kind && is_active memory.status) memories)
