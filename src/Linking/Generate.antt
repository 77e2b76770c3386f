-- ===== src/Linking/Generate.antt =====
-- `LinkCandidateGenerator.generate` of src/evoeventmem/linking.py.
pub mod Reasons
pub mod Sound
pub mod Total
use evoeventmem.Prelude.{
  ℕ, String, Bool, true, false, Option, List, [], ◌∷◌, ◌++◌, length, string_eq, if◌then◌else◌,
}
use evoeventmem.Prelude.Dict
use evoeventmem.Prelude.Dict.{Dict}
use evoeventmem.Result.{Result, ok, err, value_error, ◌>>=◌}
use evoeventmem.Domain.Models.{is_active}
use evoeventmem.Etec.Math.{as_set}
use evoeventmem.Linking.Types.{
  LinkCandidateGenerator, CandidateGenerationRequest, CandidateGenerationResult,
}
use evoeventmem.Linking.Indexes.{RequestIndexes, build_request_indexes}
use evoeventmem.Linking.EntityPool.{EntityPoolItem, entity_comparison_pool}
use evoeventmem.Linking.EventPool.{EventPoolItem, event_comparison_pool}
use evoeventmem.Linking.Score.{score_entity_pool, score_event_pool}

-- `zip(texts, vectors, strict=True)` as a dict
unfoldable pub zip_strict : List String → List (List ℕ) → Result (Dict String (List ℕ))
zip_strict [] [] = ok []
zip_strict (text ∷ texts) (vector ∷ vectors) = do
  rest ← zip_strict texts vectors
  ok ((text, vector) ∷ rest)
zip_strict _ _ = err (value_error "zip() arguments have different lengths")

unfoldable pub entity_texts : List EntityPoolItem → List String
entity_texts [] = []
entity_texts (item ∷ items) = item.source_entity.name ∷ item.target.entity.name ∷ entity_texts items

unfoldable pub event_texts : String → List EventPoolItem → List String
event_texts content [] = []
event_texts content (item ∷ items) = content ∷ item.target.content ∷ event_texts content items

module _ (self : LinkCandidateGenerator) where
  abbrev pub embed_all : List String → Result (Dict String (List ℕ))
  embed_all [] = ok []
  embed_all (text ∷ texts) = do
    responses ← self.embed_texts (text ∷ texts)
    zip_strict (text ∷ texts) responses

  -- `_embed_unique`: each text once, in the order of the first occurrences
  unfoldable pub embed_unique : List String → Result (Dict String (List ℕ))
  embed_unique texts = embed_all (as_set texts)

  module _ (request : CandidateGenerationRequest) (latency_ms : ℕ) where
    abbrev pub no_candidates : CandidateGenerationResult
    no_candidates = record {
      entity_candidates = [];
      event_candidates = [];
      latency_ms = latency_ms;
      embedding_model_id = self.model_id;
      entity_comparison_count = 0;
      event_comparison_count = 0;
    }

    abbrev pub entity_pool : List EntityPoolItem
    entity_pool = entity_comparison_pool self request (build_request_indexes self request)

    abbrev pub event_pool : List EventPoolItem
    event_pool = event_comparison_pool self request (build_request_indexes self request)

    unfoldable pub compare_pools : Result CandidateGenerationResult
    compare_pools = do
      embeddings ←
          embed_unique (entity_texts entity_pool ++ event_texts request.source.content event_pool)
      entity_candidates ← score_entity_pool self request embeddings entity_pool
      event_candidates ← score_event_pool self request embeddings event_pool
      ok (record {
        entity_candidates = entity_candidates;
        event_candidates = event_candidates;
        latency_ms = latency_ms;
        embedding_model_id = self.model_id;
        entity_comparison_count = length entity_pool;
        event_comparison_count = length event_pool;
      })

    -- `latency_ms` is what the two readings of the clock give.
    unfoldable pub generate : Result CandidateGenerationResult
    generate = if is_active request.source.status then compare_pools else ok no_candidates
