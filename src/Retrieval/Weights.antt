-- ===== src/Retrieval/Weights.antt =====
-- The weights of src/evoeventmem/retrieval.py.
use evoeventmem.Prelude.{ℕ, [], ◌∷◌, map}
use evoeventmem.Prelude.Dict
use evoeventmem.Prelude.Dict.{Dict}
use evoeventmem.Float.{one, decimal}
use evoeventmem.Etec.Types.{QueryIntent}
use evoeventmem.Retrieval.Types.{
  CandidateSource, dense, temporal, graph, episodic, procedural, source_eq, all_sources,
  RetrievalStrategy, fixed_vector, fixed_hybrid, qemr, qemr_no_temporal, qemr_no_graph,
  qemr_uniform,
}

abbrev pub Weights : Type 0
Weights = Dict CandidateSource ℕ

-- `QEMR_WEIGHT_PROFILES`
unfoldable pub qemr_weight_profiles : QueryIntent → Weights
qemr_weight_profiles QueryIntent.no_memory = []
qemr_weight_profiles QueryIntent.semantic =
    (dense, one)
    ∷ (graph, decimal 3 10)
    ∷ (temporal, decimal 2 10)
    ∷ (episodic, decimal 1 10)
    ∷ (procedural, 0)
    ∷ []
qemr_weight_profiles QueryIntent.temporal =
    (temporal, one)
    ∷ (episodic, decimal 4 10)
    ∷ (dense, decimal 3 10)
    ∷ (graph, decimal 2 10)
    ∷ (procedural, 0)
    ∷ []
qemr_weight_profiles QueryIntent.graph =
    (graph, one)
    ∷ (dense, decimal 3 10)
    ∷ (temporal, decimal 1 10)
    ∷ (episodic, decimal 1 10)
    ∷ (procedural, 0)
    ∷ []
qemr_weight_profiles QueryIntent.episodic =
    (episodic, one)
    ∷ (temporal, decimal 5 10)
    ∷ (dense, decimal 2 10)
    ∷ (graph, decimal 1 10)
    ∷ (procedural, 0)
    ∷ []
qemr_weight_profiles QueryIntent.procedural =
    (procedural, one)
    ∷ (dense, decimal 4 10)
    ∷ (episodic, decimal 1 10)
    ∷ (temporal, 0)
    ∷ (graph, 0)
    ∷ []
qemr_weight_profiles QueryIntent.hybrid =
    (dense, one)
    ∷ (graph, decimal 3 10)
    ∷ (temporal, decimal 2 10)
    ∷ (episodic, decimal 1 10)
    ∷ (procedural, 0)
    ∷ []

-- `FIXED_VECTOR_WEIGHTS`
unfoldable pub fixed_vector_weights : Weights
fixed_vector_weights =
    (dense, one) ∷ (temporal, 0) ∷ (graph, 0) ∷ (episodic, 0) ∷ (procedural, 0) ∷ []

-- `FIXED_HYBRID_WEIGHTS`
unfoldable pub fixed_hybrid_weights : Weights
fixed_hybrid_weights = map (λ source. (source, one)) all_sources

unfoldable pub resolve_weights : RetrievalStrategy → QueryIntent → Weights
resolve_weights fixed_vector intent = fixed_vector_weights
resolve_weights fixed_hybrid intent = fixed_hybrid_weights
resolve_weights qemr_uniform intent = fixed_hybrid_weights
resolve_weights qemr_no_temporal intent = Dict.put (qemr_weight_profiles intent) temporal 0
resolve_weights qemr_no_graph intent = Dict.put (qemr_weight_profiles intent) graph 0
resolve_weights qemr intent = qemr_weight_profiles intent
