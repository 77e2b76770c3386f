-- ===== src/Router.antt =====
-- The decisions of `QueryRouter` of src/evoeventmem/router.py, over the features of a query. The features
-- are a parameter, since they are matches of regular expressions, as is the parsed temporal constraint.
pub mod Committed
use evoeventmem.Prelude.{
  Eq, ℕ, ◌*◌, ◌≡◌, refl, sym, ap, ◌∙◌, String, Bool, true, false, Option, none, some, List, [], ◌∷◌,
  ◌++◌, ltb, leb, not, ◌&&◌, ◌||◌, ◌==◌, ==_iff, nat_eq, min, max, if◌then◌else◌, ◌+++◌,
}
use evoeventmem.Prelude.Dict
use evoeventmem.Prelude.Dict.{Dict}
use evoeventmem.Float
use evoeventmem.Domain.Text.{split, join}
use evoeventmem.Async.Types.{is_blank}
use evoeventmem.Etec.Types.{QueryIntent}

pub record QueryFeatures : Type 0 where
  pub is_chit_chat : Bool
  pub is_formulaic_chit_chat : Bool
  pub has_fact_cue : Bool
  pub has_strong_fact_cue : Bool
  pub has_temporal_cue : Bool
  pub has_relation_cue : Bool
  pub has_episodic_cue : Bool
  pub has_procedure_cue : Bool
  pub has_name_phrase : Bool
  pub has_entity : Bool
  pub has_knowledge_update_cue : Bool
  pub has_multi_session_cue : Bool
  pub has_assistant_recall_cue : Bool
  pub entity_count : ℕ
  pub temporal_cue_count : ℕ
  pub strong_temporal_count : ℕ
  pub weak_temporal_count : ℕ

abbrev number : QueryIntent → ℕ
number QueryIntent.procedural = 0
number QueryIntent.episodic = 1
number QueryIntent.temporal = 2
number QueryIntent.graph = 3
number QueryIntent.semantic = 4
number QueryIntent.hybrid = 5
number QueryIntent.no_memory = 6

-- `_INTENT_PRIORITY`, with a place for the intent that it leaves out
abbrev pub intent_priority : QueryIntent → ℕ
intent_priority intent = number intent

abbrev numbered : ℕ → QueryIntent
numbered n =
    if n == 0
    then QueryIntent.procedural
    else if n == 1
    then QueryIntent.episodic
    else if n == 2
    then QueryIntent.temporal
    else if n == 3
    then QueryIntent.graph
    else if n == 4
    then QueryIntent.semantic
    else if n == 5
    then QueryIntent.hybrid
    else QueryIntent.no_memory

numbered-number : (i : QueryIntent) → numbered (number i) ≡ i
numbered-number QueryIntent.procedural = refl
numbered-number QueryIntent.episodic = refl
numbered-number QueryIntent.temporal = refl
numbered-number QueryIntent.graph = refl
numbered-number QueryIntent.semantic = refl
numbered-number QueryIntent.hybrid = refl
numbered-number QueryIntent.no_memory = refl

pub intent_number-injective : (a b : QueryIntent) → number a ≡ number b → a ≡ b
intent_number-injective a b h = sym (numbered-number a) ∙ ap numbered h ∙ numbered-number b

instance abbrev pub intent_eq : Eq QueryIntent
intent_eq = record {
  same = λ a b. number a == number b;
  same_iff = λ a b. (
    λ h. intent_number-injective a b ((==_iff (number a) (number b)).0 h),
    λ h. (==_iff (number a) (number b)).1 (ap number h),
  );
}

abbrev pub Scores : Type 0
Scores = Dict QueryIntent ℕ

-- `scores.get(intent, 0.0)`
abbrev pub or_zero : Option ℕ → ℕ
or_zero none = 0
or_zero (some score) = score

abbrev pub score_of : Scores → QueryIntent → ℕ
score_of scores intent = or_zero (Dict.get scores intent)

-- `scores.pop(intent, None)`
unfoldable pub pop : Scores → QueryIntent → Scores
pop [] intent = []
pop ((i, score) ∷ scores) intent =
    let rest = pop scores intent in if i == intent then scores else (i, score) ∷ rest

abbrev pub put_if : Bool → QueryIntent → ℕ → Scores → Scores
put_if test intent score scores = if test then Dict.put scores intent score else scores

-- `weight * count`
abbrev pub times : ℕ → ℕ → ℕ
times weight count = Float.mul weight (count * Float.one)

abbrev pub bit : Bool → ℕ
bit true = 1
bit false = 0

abbrev pub temporal_score : QueryFeatures → ℕ
temporal_score f = min Float.one (
    Float.add (times (Float.decimal 6 10) f.strong_temporal_count)
      (times (Float.decimal 4 10) (min 1 f.weak_temporal_count)))

-- The floor of a knowledge update; the test of the cue that is not there is the source's.
unfoldable pub knowledge_update : QueryFeatures → Scores → Scores
knowledge_update f scores =
    let suppressed =
      f.has_strong_fact_cue && not f.has_knowledge_update_cue && f.strong_temporal_count == 0 in
    put_if (f.has_knowledge_update_cue && not suppressed) QueryIntent.temporal
      (max (score_of scores QueryIntent.temporal) (Float.decimal 65 100)) scores

unfoldable pub suppress_weak_temporal : QueryFeatures → Scores → Scores
suppress_weak_temporal f scores =
    let previous = score_of scores QueryIntent.temporal in
    put_if
      (f.has_fact_cue
        && not f.has_strong_fact_cue
        && not f.has_knowledge_update_cue
        && f.strong_temporal_count == 0
        && not f.has_multi_session_cue
        && ltb 0 previous)
      QueryIntent.temporal (min previous (Float.decimal 3 10)) scores

unfoldable pub multi_session : QueryFeatures → Scores → Scores
multi_session f scores =
    if f.has_multi_session_cue
    then Dict.put (pop scores QueryIntent.temporal) QueryIntent.hybrid
        (max (score_of scores QueryIntent.hybrid) (Float.decimal 85 100))
    else scores

unfoldable pub semantic_score : QueryFeatures → ℕ
semantic_score f =
    let boosted =
      f.has_strong_fact_cue && f.strong_temporal_count == 0 && not f.has_knowledge_update_cue in
    min Float.one (
      Float.add
        (Float.add
          (Float.add (times (Float.decimal 35 100) (bit f.has_fact_cue))
            (times (Float.decimal 20 100) (bit boosted)))
          (times (Float.decimal 15 100) (bit f.has_entity)))
        (times (Float.decimal 3 10) (bit f.has_name_phrase)))

unfoldable pub assistant_recall : QueryFeatures → Scores → Scores
assistant_recall f scores =
    if f.has_assistant_recall_cue
    then Dict.put (pop scores QueryIntent.temporal) QueryIntent.semantic
        (max (score_of scores QueryIntent.semantic) (Float.decimal 65 100))
    else scores

-- `_score_intents`
unfoldable pub score_intents : QueryFeatures → Scores
score_intents f =
    let cued = put_if f.has_temporal_cue QueryIntent.temporal (temporal_score f) (
      put_if f.has_episodic_cue QueryIntent.episodic (Float.decimal 6 10)
        (put_if f.has_procedure_cue QueryIntent.procedural (Float.decimal 6 10) [])) in
    let timed = suppress_weak_temporal f (knowledge_update f cued) in
    let related = put_if f.has_relation_cue QueryIntent.graph (Float.decimal 5 10) timed in
    let semantic = semantic_score f in
    assistant_recall f
      (put_if (ltb 0 semantic) QueryIntent.semantic semantic (multi_session f related))

abbrev pub hit_if : Bool → String → List String
hit_if true hit = hit ∷ []
hit_if false hit = []

-- `_matched_cue_hits`
unfoldable pub matched_cue_hits : QueryFeatures → List String
matched_cue_hits f =
    hit_if f.has_procedure_cue "procedure_cue"
    ++ hit_if f.has_episodic_cue "episodic_cue"
    ++ hit_if f.has_relation_cue "relation_cue"
    ++ hit_if f.has_fact_cue "fact_cue"
    ++ hit_if f.has_strong_fact_cue "strong_fact_cue"
    ++ hit_if f.has_name_phrase "name_phrase_cue"
    ++ hit_if f.has_entity "entity_cue"
    ++ hit_if f.has_knowledge_update_cue "knowledge_update_cue"
    ++ hit_if f.has_multi_session_cue "multi_session_cue"
    ++ hit_if f.has_assistant_recall_cue "assistant_recall_cue"
    ++ hit_if (ltb 0 f.strong_temporal_count) "strong_temporal_cue"
    ++ hit_if (ltb 0 f.weak_temporal_count) "weak_temporal_cue"

-- `max` by the score and the priority, the first of the greatest
unfoldable pub winner_from : QueryIntent × ℕ → Scores → QueryIntent × ℕ
winner_from best [] = best
winner_from (i, s) ((j, t) ∷ scores) =
    let better = ltb s t || s == t && ltb (intent_priority j) (intent_priority i) in
    winner_from (if better then (j, t) else (i, s)) scores

abbrev pub intent_value : QueryIntent → String
intent_value QueryIntent.no_memory = "no-memory"
intent_value QueryIntent.semantic = "semantic"
intent_value QueryIntent.temporal = "temporal"
intent_value QueryIntent.graph = "graph"
intent_value QueryIntent.episodic = "episodic"
intent_value QueryIntent.procedural = "procedural"
intent_value QueryIntent.hybrid = "hybrid"

-- An intent with its score and its rule hits; the sentence that explains it is left out.
abbrev pub Ruling : Type 0
Ruling = QueryIntent × (ℕ × List String)

abbrev pub is_multiple : QueryFeatures → QueryIntent → Bool
is_multiple f winner = winner == QueryIntent.temporal && leb 2 f.temporal_cue_count

abbrev pub ruled_by : QueryFeatures → QueryIntent × ℕ → Ruling
ruled_by f (winner, score) = (
  winner,
  (
    score,
    matched_cue_hits f
        ++ (intent_value winner +++ "_rule") ∷ []
        ++ hit_if (is_multiple f winner) "multiple_temporal_cues",
  ),
)

abbrev pub by_scores : QueryFeatures → Scores → Ruling
by_scores f [] =
    if f.is_chit_chat
    then (QueryIntent.no_memory, (Float.decimal 4 10, "chit_chat_rule" ∷ []))
    else if f.has_entity
    then (QueryIntent.hybrid, (0, "unsupported_intent" ∷ []))
    else (QueryIntent.hybrid, (0, "no_entity_no_memory_cue" ∷ []))
by_scores f (score ∷ scores) = ruled_by f (winner_from score scores)

-- `_apply_rules`, with whether `_ACK_RE` matches the query
unfoldable pub apply_rules : QueryFeatures → Bool → Ruling
apply_rules f is_ack =
    if f.is_formulaic_chit_chat
    then (QueryIntent.no_memory, (Float.one, "formulaic_chit_chat_rule" ∷ []))
    else if f.is_chit_chat && is_ack
    then (QueryIntent.no_memory, (Float.decimal 9 10, "acknowledgement_rule" ∷ []))
    else by_scores f (score_intents f)

unfoldable pub min_commit_confidence : ℕ
min_commit_confidence = Float.decimal 4 10

abbrev pub commits : QueryIntent → Bool
commits QueryIntent.hybrid = false
commits QueryIntent.no_memory = false
commits _ = true

-- The decision of `route`, without the features and the constraint, which it passes on.
pub record Routing : Type 0 where
  pub intent : QueryIntent
  pub confidence : ℕ
  pub rule_hits : List String

abbrev pub unless_weak : Ruling → Routing
unless_weak (intent, (score, hits)) =
    let confidence = min Float.one (Float.add (Float.decimal 1 10) score) in
    if commits intent && ltb confidence min_commit_confidence
    then record {
      intent = QueryIntent.hybrid;
      confidence = confidence;
      rule_hits = hits ++ "low_confidence_fallback" ∷ [];
    }
    else record { intent = intent; confidence = confidence; rule_hits = hits }

-- `route`, over `extract_features` and the match of `_ACK_RE`
unfoldable pub route : (String → QueryFeatures) → (String → Bool) → String → Routing
route extract_features is_ack query =
    let normalized = join (split query) in
    if is_blank query
    then record { intent = QueryIntent.hybrid; confidence = 0; rule_hits = "empty_query" ∷ [] }
    else unless_weak (apply_rules (extract_features normalized) (is_ack normalized))
