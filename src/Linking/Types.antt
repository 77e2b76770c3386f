-- ===== src/Linking/Types.antt =====
-- The types of src/evoeventmem/linking.py. The texts of the reasons are constructors with their names.
use evoeventmem.Prelude.{
  Eq, ℕ, ◌≡◌, refl, sym, ap, ◌∙◌, String, List, Option, ◌==◌, ==_iff, nat_eq, if◌then◌else◌,
}
use evoeventmem.Float.Signed.{Signed}
use evoeventmem.Result.{Result}
use evoeventmem.Platform.{Platform}
use evoeventmem.Domain.Value.{Value}
use evoeventmem.Domain.Models.{MemoryRecord, EntityRef}

pub data LinkCandidateKind : Type 0 where
  entity event : LinkCandidateKind

pub record CandidateGenerationRequest : Type 0 where
  pub source : MemoryRecord
  pub existing : List MemoryRecord
  pub max_entity_candidates : ℕ
  pub max_event_candidates : ℕ
  pub event_time_window_days : ℕ
  pub min_embedding_similarity : Signed

-- The reasons of `_ENTITY_REASON_ORDER` and `_EVENT_REASON_ORDER`.
pub data Reason : Type 0 where
  exact_normalized_entity_key alias_match fact_slot_match exact_normalized_content shared_entity_key
        lexical_token_match embedding_index_candidate stable_fallback embedding_similarity
        within_time_window time_unbounded :
      Reason

abbrev number : Reason → ℕ
number exact_normalized_entity_key = 0
number alias_match = 1
number fact_slot_match = 2
number exact_normalized_content = 3
number shared_entity_key = 4
number lexical_token_match = 5
number embedding_index_candidate = 6
number stable_fallback = 7
number embedding_similarity = 8
number within_time_window = 9
number time_unbounded = 10

abbrev numbered : ℕ → Reason
numbered n =
    if n == 0
    then exact_normalized_entity_key
    else if n == 1
    then alias_match
    else if n == 2
    then fact_slot_match
    else if n == 3
    then exact_normalized_content
    else if n == 4
    then shared_entity_key
    else if n == 5
    then lexical_token_match
    else if n == 6
    then embedding_index_candidate
    else if n == 7
    then stable_fallback
    else if n == 8
    then embedding_similarity
    else if n == 9
    then within_time_window
    else time_unbounded

numbered-number : (r : Reason) → numbered (number r) ≡ r
numbered-number exact_normalized_entity_key = refl
numbered-number alias_match = refl
numbered-number fact_slot_match = refl
numbered-number exact_normalized_content = refl
numbered-number shared_entity_key = refl
numbered-number lexical_token_match = refl
numbered-number embedding_index_candidate = refl
numbered-number stable_fallback = refl
numbered-number embedding_similarity = refl
numbered-number within_time_window = refl
numbered-number time_unbounded = refl

pub number-injective : (a b : Reason) → number a ≡ number b → a ≡ b
number-injective a b h = sym (numbered-number a) ∙ ap numbered h ∙ numbered-number b

instance abbrev pub reason_eq : Eq Reason
reason_eq = record {
  same = λ a b. number a == number b;
  same_iff = λ a b. (
    λ h. number-injective a b ((==_iff (number a) (number b)).0 h),
    λ h. (==_iff (number a) (number b)).1 (ap number h),
  );
}

pub record LinkCandidate : Type 0 where
  pub candidate_id : String
  pub candidate_kind : LinkCandidateKind
  pub policy_name : String
  pub source_memory : MemoryRecord
  pub target_memory : MemoryRecord
  pub source_entity : Option EntityRef
  pub target_entity : Option EntityRef
  pub score : Signed
  pub reasons : List Reason

pub record CandidateGenerationResult : Type 0 where
  pub entity_candidates : List LinkCandidate
  pub event_candidates : List LinkCandidate
  pub latency_ms : ℕ
  pub embedding_model_id : String
  pub entity_comparison_count : ℕ
  pub event_comparison_count : ℕ

pub record CandidateRecallMetrics : Type 0 where
  pub k : ℕ
  pub entity_recall_at_k : ℕ
  pub event_recall_at_k : ℕ
  pub generated_entity_candidates : ℕ
  pub generated_event_candidates : ℕ
  pub latency_ms : ℕ
  pub entity_comparison_count : ℕ
  pub event_comparison_count : ℕ

pub record EntityCandidateTargetRef : Type 0 where
  pub memory_id : ℕ
  pub entity_position : ℕ

-- The `EmbeddingCandidateIndex` protocol.
pub record EmbeddingCandidateIndex : Type 0 where
  pub query_entity_candidates : String → ℕ → List EntityCandidateTargetRef
  pub query_event_candidates : String → ℕ → List ℕ

-- `LinkCandidateGenerator.__init__`, with what the module calls: `unicodedata.normalize("NFKC", ...)`, the
-- matches of `_KEY_TOKEN_RE`, `str` of a number and of a metadata value that is no text, and `_cosine` on
-- vectors, whose square roots and sums of doubles are library code.
pub record LinkCandidateGenerator : Type 0 where
  pub platform : Platform
  pub nfkc : String → String
  pub key_tokens : String → List String
  pub int_str : ℕ → String
  pub value_str : Value → String
  pub model_id : String
  pub embed_texts : List String → Result (List (List ℕ))
  pub cosine : List ℕ → List ℕ → Signed
  pub candidate_index : Option EmbeddingCandidateIndex
