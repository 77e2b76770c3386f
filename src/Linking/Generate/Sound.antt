-- ===== src/Linking/Generate/Sound.antt =====
-- What `LinkCandidateGenerator.generate` of src/evoeventmem/linking.py returns.
use evoeventmem.Prelude.{ℕ, ◌≤◌, String, false, List, All, length, false}
use evoeventmem.Prelude.Dict.{Dict}
use evoeventmem.Linking.Types.{
  LinkCandidateGenerator, CandidateGenerationRequest, CandidateGenerationResult, LinkCandidate,
  reason_eq,
}
use evoeventmem.Linking.Generate.Reasons.{LinksEligible, LinksJustified}

module _ (self : LinkCandidateGenerator) (request : CandidateGenerationRequest) where
  module _ (embeddings : Dict String (List ℕ)) where
    -- The best of the candidates, at most as many as the limit.
    abbrev Best : (LinkCandidate → Type 0) → ℕ → List LinkCandidate → Type 0
    Best P limit cs = All P cs × (length cs ≤ limit)

  -- What `generate` ensures of a result.
  pub record Generated (result : CandidateGenerationResult) : Type 0 where
    pub entities : All (LinksEligible self request) result.entity_candidates
    pub events : All (LinksJustified self request) result.event_candidates
    pub few_entities : length result.entity_candidates ≤ request.max_entity_candidates
    pub few_events : length result.event_candidates ≤ request.max_event_candidates
    pub few_entity_comparisons : result.entity_comparison_count ≤ request.max_entity_candidates
    pub few_event_comparisons : result.event_comparison_count ≤ request.max_event_candidates
