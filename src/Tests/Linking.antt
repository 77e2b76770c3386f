-- ===== src/Tests/Linking.antt =====
-- The theorems on candidate linking at concrete inputs.
use evoeventmem.Prelude.{refl, none, some, [], ◌∷◌, map, length-map}
use evoeventmem.Prelude.Dict
use evoeventmem.Float.{one}
use evoeventmem.Float.Signed.{plus}
use evoeventmem.Result.{ok}
use evoeventmem.Domain.Models.{MemoryRecord, EntityRef, MemoryKind}
use evoeventmem.Domain.Text.{split}
use evoeventmem.Linking.Types.{
  LinkCandidateGenerator, CandidateGenerationRequest, CandidateGenerationResult, LinkCandidate,
  LinkCandidateKind, exact_normalized_entity_key, lexical_token_match, stable_fallback,
  shared_entity_key, within_time_window,
}
use evoeventmem.Linking.Keys
use evoeventmem.Linking.EntityPool
use evoeventmem.Linking.EventPool
use evoeventmem.Linking.Score.{entity_policy, event_policy, candidate_id, entity_score, event_score}
use evoeventmem.Linking.Generate.{generate}
use evoeventmem.Linking.Generate.Total.{Embeds, Generates, generate-Generates}
use evoeventmem.Tests.Samples.{platform, tea, coffee}

abbrev generator : LinkCandidateGenerator
generator = record {
  platform = platform;
  nfkc = λ text. text;
  key_tokens = split;
  int_str = λ n. "0";
  value_str = λ value. "";
  model_id = "m";
  embed_texts = λ texts. ok (map (λ text. 0 ∷ []) texts);
  cosine = λ left right. plus 0;
  candidate_index = none;
}

abbrev ada : EntityRef
ada = record { entity_id = none; name = "Ada"; kind = none; role = none }

abbrev drinks_tea : MemoryRecord
drinks_tea = record tea { memory_kind = MemoryKind.event; entities = ada ∷ [] }

abbrev drinks_coffee : MemoryRecord
drinks_coffee = record coffee { memory_kind = MemoryKind.event; entities = ada ∷ [] }

abbrev request : CandidateGenerationRequest
request = record {
  source = drinks_tea;
  existing = drinks_coffee ∷ [];
  max_entity_candidates = 2;
  max_event_candidates = 2;
  event_time_window_days = 30;
  min_embedding_similarity = plus one;
}

embeds : Embeds generator
embeds texts = (map (λ text. 0 ∷ []) texts, refl, length-map (λ text. 0 ∷ []) texts)

generate-Generates_example : Generates generator request embeds (generate generator request 7)
generate-Generates_example = generate-Generates generator request embeds 7

abbrev entity_link : LinkCandidate
entity_link = record {
  candidate_id = "entity-candidate-entity-normalized-alias-";
  candidate_kind = LinkCandidateKind.entity;
  policy_name = entity_policy;
  source_memory = drinks_tea;
  target_memory = drinks_coffee;
  source_entity = some ada;
  target_entity = some ada;
  score = entity_score (exact_normalized_entity_key ∷ lexical_token_match ∷ []) (plus 0);
  reasons = exact_normalized_entity_key ∷ lexical_token_match ∷ stable_fallback ∷ [];
}

abbrev event_link : LinkCandidate
event_link = record {
  candidate_id = "event-candidate-event-time-window-embedd";
  candidate_kind = LinkCandidateKind.event;
  policy_name = event_policy;
  source_memory = drinks_tea;
  target_memory = drinks_coffee;
  source_entity = none;
  target_entity = none;
  score = event_score (shared_entity_key ∷ lexical_token_match ∷ []) (plus 0);
  reasons = shared_entity_key ∷ lexical_token_match ∷ stable_fallback ∷ within_time_window ∷ [];
}

abbrev outcome : CandidateGenerationResult
outcome = record {
  entity_candidates = entity_link ∷ [];
  event_candidates = event_link ∷ [];
  latency_ms = 7;
  embedding_model_id = "m";
  entity_comparison_count = 1;
  event_comparison_count = 1;
}
