-- ===== src/Linking/Recall.antt =====
-- `calculate_candidate_recall` of src/evoeventmem/linking.py.
use evoeventmem.Prelude.{
  ℕ, List, map, select, contains, take, length, ltb, ◌==◌, nat_eq, if◌then◌else◌,
}
use evoeventmem.Float
use evoeventmem.Result.{Result, ok, value_error, raise_if, ◌>>◌}
use evoeventmem.Etec.Math.{unique_uuids}
use evoeventmem.Linking.Types.{LinkCandidate, CandidateGenerationResult, CandidateRecallMetrics}

-- `_top_k_target_ids`, a set
unfoldable pub top_k_target_ids : List LinkCandidate → ℕ → List ℕ
top_k_target_ids candidates k =
    unique_uuids (map (λ (c : LinkCandidate). c.target_memory.memory_id) (take k candidates))

-- `left & right`
abbrev pub both : List ℕ → List ℕ → List ℕ
both left right = select (λ id. contains id right) left

-- `_recall`, of sets
unfoldable pub recall : List ℕ → List ℕ → ℕ
unfolding Float.div
recall hits gold = if length gold == 0 then Float.one else Float.div (length hits) (length gold)

-- The two sets of ids are lists without repetition.
unfoldable pub calculate_candidate_recall :
    CandidateGenerationResult → List ℕ → List ℕ → ℕ → Result CandidateRecallMetrics
calculate_candidate_recall result gold_entity gold_event k = do
  raise_if (ltb k 1) (value_error "k must be at least 1")
  let entity_hits = both (top_k_target_ids result.entity_candidates k) gold_entity
  let event_hits = both (top_k_target_ids result.event_candidates k) gold_event
  ok (record {
    k = k;
    entity_recall_at_k = recall entity_hits gold_entity;
    event_recall_at_k = recall event_hits gold_event;
    generated_entity_candidates = length result.entity_candidates;
    generated_event_candidates = length result.event_candidates;
    latency_ms = result.latency_ms;
    entity_comparison_count = result.entity_comparison_count;
    event_comparison_count = result.event_comparison_count;
  })
