-- ===== src/Retrieval/Types.antt =====
-- The types of src/evoeventmem/retrieval.py that the packing uses.
use evoeventmem.Prelude.{
  Eq, ℕ, ◌≡◌, refl, sym, ap, ◌∙◌, String, Bool, true, false, Option, List, [], ◌∷◌, ◌==◌, ==_iff,
  nat_eq, if◌then◌else◌,
}
use evoeventmem.Domain.Models.{MemoryRecord, MemoryStatus, EvidenceRef}
use evoeventmem.Etec.Types.{QueryIntent}

pub data CandidateSource : Type 0 where
  dense temporal graph episodic procedural : CandidateSource

abbrev number : CandidateSource → ℕ
number dense = 0
number temporal = 1
number graph = 2
number episodic = 3
number procedural = 4

abbrev numbered : ℕ → CandidateSource
numbered n =
    if n == 0
    then dense
    else if n == 1
    then temporal
    else if n == 2
    then graph
    else if n == 3
    then episodic
    else procedural

numbered-number : (s : CandidateSource) → numbered (number s) ≡ s
numbered-number dense = refl
numbered-number temporal = refl
numbered-number graph = refl
numbered-number episodic = refl
numbered-number procedural = refl

pub source_number-injective : (a b : CandidateSource) → number a ≡ number b → a ≡ b
source_number-injective a b h = sym (numbered-number a) ∙ ap numbered h ∙ numbered-number b

instance abbrev pub source_eq : Eq CandidateSource
source_eq = record {
  same = λ a b. number a == number b;
  same_iff = λ a b. (
    λ h. source_number-injective a b ((==_iff (number a) (number b)).0 h),
    λ h. (==_iff (number a) (number b)).1 (ap number h),
  );
}

-- `source.value`
abbrev pub source_value : CandidateSource → String
source_value dense = "dense"
source_value temporal = "temporal"
source_value graph = "graph"
source_value episodic = "episodic"
source_value procedural = "procedural"

pub data EvidencePolicy : Type 0 where
  constrained provenance_only : EvidencePolicy

pub record SourceScore : Type 0 where
  pub source : CandidateSource
  pub normalized_score : ℕ
  pub weighted_score : ℕ
  pub raw_score : ℕ
  pub rank : Option ℕ
  pub weight : ℕ
  pub fusion_contribution : ℕ
  pub reason : String

pub record ScoredMemory : Type 0 where
  pub memory : MemoryRecord
  pub source_scores : List SourceScore
  pub final_score : ℕ
  pub historical : Bool
  pub token_count : ℕ
  pub evidence_refs : List EvidenceRef

-- `TemporalOperator` of src/evoeventmem/router.py
pub data TemporalOperator : Type 0 where
  no_operator at before after between earliest latest sequence duration : TemporalOperator

-- `TemporalConstraint` of src/evoeventmem/router.py, without the explanation of its parse
pub record TemporalConstraint : Type 0 where
  pub operator : TemporalOperator
  pub lower_bound_utc : Option ℕ
  pub upper_bound_utc : Option ℕ

-- What retrieval reads of a `QueryRoutingDecision`.
pub record QueryRoutingDecision : Type 0 where
  pub query : String
  pub intent : QueryIntent
  pub temporal_constraint : TemporalConstraint

pub data ExclusionReason : Type 0 where
  inactive_status_excluded superseded_memory_not_current_fact missing_evidence_refs zero_final_score
        not_selected_by_packing budget_exceeded candidate_cap_reached no_memory_intent
        temporal_interval_excluded :
      ExclusionReason

-- `details`, with what each reason gives
pub data ExclusionDetails : Type 0 where
  no_details : ExclusionDetails
  of_status : MemoryStatus → ExclusionDetails
  of_superseded_by : Option ℕ → ExclusionDetails
  of_final_score : ℕ → ExclusionDetails
  of_packing : ℕ → ℕ → ExclusionDetails
  of_cap : ℕ → ExclusionDetails
  of_intent : QueryIntent → ExclusionDetails
  of_interval : TemporalConstraint → ExclusionDetails

pub record ExclusionRecord : Type 0 where
  pub memory_id : ℕ
  pub reason : ExclusionReason
  pub details : ExclusionDetails

pub record Candidate : Type 0 where
  pub memory : MemoryRecord
  pub source : CandidateSource
  pub raw_score : ℕ
  pub normalized_score : ℕ
  pub reason : String

pub data RetrievalStrategy : Type 0 where
  fixed_vector fixed_hybrid qemr qemr_no_temporal qemr_no_graph qemr_uniform : RetrievalStrategy

-- `ALL_SOURCES`
abbrev pub all_sources : List CandidateSource
all_sources = dense ∷ temporal ∷ graph ∷ episodic ∷ procedural ∷ []

-- `intent in HISTORICAL_INTENTS`
abbrev pub is_historical : QueryIntent → Bool
is_historical QueryIntent.temporal = true
is_historical QueryIntent.episodic = true
is_historical _ = false
