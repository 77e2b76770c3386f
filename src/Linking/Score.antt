-- ===== src/Linking/Score.antt =====
-- The candidates of src/evoeventmem/linking.py: their scores, reasons, order and ids.
use evoeventmem.Prelude.{
  ℕ, zero, suc, String, Bool, Option, none, some, List, [], ◌∷◌, ◌++◌, not, ◌&&◌, string_eq,
  contains, any, take, if◌then◌else◌, ◌+++◌,
}
use evoeventmem.Prelude.Dict
use evoeventmem.Prelude.Dict.{Dict}
use evoeventmem.Prelude.Sort.{sort}
use evoeventmem.Float.{decimal}
use evoeventmem.Float.Signed.{Signed, plus, less, sum}
use evoeventmem.Result.{Result, ok, err, key_error, ◌>>=◌}
use evoeventmem.Domain.Models.{MemoryRecord, EntityRef}
use evoeventmem.Domain.Order.{tuple_lt}
use evoeventmem.Linking.Types.{
  LinkCandidateGenerator, CandidateGenerationRequest, LinkCandidate, LinkCandidateKind, Reason,
  reason_eq, exact_normalized_entity_key, alias_match, fact_slot_match, exact_normalized_content,
  shared_entity_key, lexical_token_match, embedding_index_candidate, stable_fallback,
  embedding_similarity, within_time_window, time_unbounded,
}
use evoeventmem.Linking.Keys.{entity_identity}
use evoeventmem.Linking.Pool.{add_reason, ordered_reasons, then_by}
use evoeventmem.Linking.EntityPool.{EntityPoolItem}
use evoeventmem.Linking.EventPool.{EventPoolItem}

abbrev pub entity_reason_order : List Reason
entity_reason_order =
    exact_normalized_entity_key ∷ alias_match ∷ lexical_token_match ∷ embedding_index_candidate
    ∷ stable_fallback ∷ embedding_similarity ∷ []

abbrev pub event_reason_order : List Reason
event_reason_order =
    fact_slot_match ∷ exact_normalized_content ∷ shared_entity_key ∷ lexical_token_match
    ∷ embedding_index_candidate ∷ stable_fallback ∷ embedding_similarity ∷ within_time_window
    ∷ time_unbounded ∷ []

abbrev pub entity_policy : String
entity_policy = "entity-normalized-alias-embedding.v1"

abbrev pub event_policy : String
event_policy = "event-time-window-embedding.v1"

abbrev pub kind_value : LinkCandidateKind → String
kind_value LinkCandidateKind.entity = "entity"
kind_value LinkCandidateKind.event = "event"

-- `text[:n]`
unfoldable pub prefix : ℕ → String → String
prefix zero text = ""
prefix (suc n) String.[] = ""
prefix (suc n) (String.◌∷◌ c text) = String.◌∷◌ c (prefix n text)

-- `"\n".join(parts)`
unfoldable pub join_lines : List String → String
join_lines [] = ""
join_lines (part ∷ []) = part
join_lines (part ∷ next ∷ parts) = part +++ ("\n" +++ join_lines (next ∷ parts))

-- `score += weight`, where the reason is there
abbrev pub add_if : Reason → ℕ → List Reason → Signed → Signed
add_if reason weight reasons score =
    if contains reason reasons then sum score (plus weight) else score

-- `_entity_score`, and the weight of a lexical match
unfoldable pub entity_score : List Reason → Signed → Signed
unfolding contains sum decimal
entity_score reasons similarity = add_if lexical_token_match (decimal 1 10) reasons (
    add_if alias_match (decimal 4 10) reasons
      (add_if exact_normalized_entity_key (decimal 3 10) reasons similarity))

unfoldable pub event_score : List Reason → Signed → Signed
unfolding contains sum decimal
event_score reasons similarity = add_if lexical_token_match (decimal 1 10) reasons (
    add_if shared_entity_key (decimal 2 10) reasons (
      add_if exact_normalized_content (decimal 4 10) reasons
        (add_if fact_slot_match (decimal 5 10) reasons similarity)))

-- The direct reasons of the two pools, which make up for a low similarity.
abbrev pub entity_direct : List Reason
entity_direct = exact_normalized_entity_key ∷ alias_match ∷ lexical_token_match ∷ []

abbrev pub event_direct : List Reason
event_direct =
    fact_slot_match ∷ exact_normalized_content ∷ shared_entity_key ∷ lexical_token_match ∷ []

-- `embeddings[text]`
abbrev pub found_vector : Option (List ℕ) → Result (List ℕ)
found_vector none = err key_error
found_vector (some vector) = ok vector

abbrev pub embedding_of : Dict String (List ℕ) → String → Result (List ℕ)
embedding_of embeddings text = found_vector (Dict.get embeddings text)

-- `candidate.target_entity.name if candidate.target_entity else ""`
abbrev pub name_of : Option EntityRef → String
name_of none = ""
name_of (some entity) = entity.name

-- Whether an item is passed over, and its reasons with that of the similarity.
abbrev pub is_dropped : Signed → List Reason → List Reason → Signed → Bool
is_dropped minimum direct reasons similarity =
    not (any (λ reason. contains reason direct) reasons) && less similarity minimum

abbrev pub with_similarity : Signed → List Reason → Signed → List Reason
with_similarity minimum reasons similarity =
    if not (less similarity minimum) then add_reason embedding_similarity reasons else reasons

-- A candidate that is there, before the others.
abbrev pub prepend : Option LinkCandidate → List LinkCandidate → List LinkCandidate
prepend none candidates = candidates
prepend (some candidate) candidates = candidate ∷ candidates

module _ (self : LinkCandidateGenerator) where
  abbrev pub entity_part : String → Option (EntityRef × ℕ) → List String
  entity_part label none = []
  entity_part label (some (entity, position)) =
      label ∷ entity_identity self entity ++ self.int_str position ∷ []

  abbrev pub entity_name : Option (EntityRef × ℕ) → String
  entity_name none = ""
  entity_name (some (entity, position)) = entity.name

  -- `_candidate_id`
  unfoldable pub candidate_id :
      String
      → LinkCandidateKind
      → MemoryRecord
      → MemoryRecord
      → Option (EntityRef × ℕ)
      → Option (EntityRef × ℕ)
      → String
  candidate_id policy_name kind source target source_entity target_entity =
      let parts =
        policy_name
          ∷ kind_value kind
          ∷ self.platform.uuid_str source.memory_id
          ∷ entity_name source_entity
          ∷ self.platform.uuid_str target.memory_id
          ∷ entity_name target_entity
          ∷ entity_part "source_entity" source_entity
        ++ entity_part "target_entity" target_entity in
      kind_value kind +++ ("-candidate-" +++ prefix 24 (self.platform.sha256 (join_lines parts)))

  -- The order of `_bounded`.
  unfoldable pub candidate_lt : LinkCandidate → LinkCandidate → Bool
  candidate_lt a b = then_by (less b.score a.score) (less a.score b.score) (
      tuple_lt
        (self.platform.uuid_str a.target_memory.memory_id
          ∷ name_of a.target_entity
          ∷ a.candidate_id
          ∷ [])
        (self.platform.uuid_str b.target_memory.memory_id
          ∷ name_of b.target_entity
          ∷ b.candidate_id
          ∷ []))

  -- `_bounded`
  unfoldable pub bounded : List LinkCandidate → ℕ → List LinkCandidate
  bounded candidates limit = take limit (sort candidate_lt candidates)

  module _ (request : CandidateGenerationRequest) where
    abbrev pub entity_candidate : EntityPoolItem → Signed → LinkCandidate
    entity_candidate item similarity =
        let reasons = with_similarity request.min_embedding_similarity item.reasons similarity in
        record {
          candidate_id =
              candidate_id entity_policy LinkCandidateKind.entity request.source item.target.memory
                (some (item.source_entity, item.source_position))
                (some (item.target.entity, item.target.position));
          candidate_kind = LinkCandidateKind.entity;
          policy_name = entity_policy;
          source_memory = request.source;
          target_memory = item.target.memory;
          source_entity = some item.source_entity;
          target_entity = some item.target.entity;
          score = entity_score reasons similarity;
          reasons = ordered_reasons reasons entity_reason_order;
        }

    abbrev pub event_candidate : EventPoolItem → Signed → LinkCandidate
    event_candidate item similarity =
        let reasons = with_similarity request.min_embedding_similarity item.reasons similarity in
        record {
          candidate_id =
              candidate_id event_policy LinkCandidateKind.event request.source item.target none
                none;
          candidate_kind = LinkCandidateKind.event;
          policy_name = event_policy;
          source_memory = request.source;
          target_memory = item.target;
          source_entity = none;
          target_entity = none;
          score = event_score reasons similarity;
          reasons = ordered_reasons reasons event_reason_order;
        }

    abbrev pub entity_unless_dropped : EntityPoolItem → Signed → Option LinkCandidate
    entity_unless_dropped item similarity =
        if is_dropped request.min_embedding_similarity entity_direct item.reasons similarity
        then none
        else some (entity_candidate item similarity)

    abbrev pub event_unless_dropped : EventPoolItem → Signed → Option LinkCandidate
    event_unless_dropped item similarity =
        if is_dropped request.min_embedding_similarity event_direct item.reasons similarity
        then none
        else some (event_candidate item similarity)

    module _ (embeddings : Dict String (List ℕ)) where
      abbrev pub similarity_of : String → String → Result Signed
      similarity_of left right = do
        l ← embedding_of embeddings left
        r ← embedding_of embeddings right
        ok (self.cosine l r)

      -- The loop of `_score_entity_pool`.
      unfoldable pub score_entity_items : List EntityPoolItem → Result (List LinkCandidate)
      score_entity_items [] = ok []
      score_entity_items (item ∷ items) = do
        similarity ← similarity_of item.source_entity.name item.target.entity.name
        candidates ← score_entity_items items
        ok (prepend (entity_unless_dropped item similarity) candidates)

      unfoldable pub score_event_items : List EventPoolItem → Result (List LinkCandidate)
      score_event_items [] = ok []
      score_event_items (item ∷ items) = do
        similarity ← similarity_of request.source.content item.target.content
        candidates ← score_event_items items
        ok (prepend (event_unless_dropped item similarity) candidates)

      -- `_score_entity_pool`
      unfoldable pub score_entity_pool : List EntityPoolItem → Result (List LinkCandidate)
      score_entity_pool pool = do
        candidates ← score_entity_items pool
        ok (bounded candidates request.max_entity_candidates)

      -- `_score_event_pool`
      unfoldable pub score_event_pool : List EventPoolItem → Result (List LinkCandidate)
      score_event_pool pool = do
        candidates ← score_event_items pool
        ok (bounded candidates request.max_event_candidates)
