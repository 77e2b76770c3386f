-- ===== src/Tests/Router.antt =====
-- The theorem on routing at a concrete query.
use evoeventmem.Prelude.{◌≡◌, String, Bool, true, false, refl, if◌then◌else◌}
use evoeventmem.Router.{
  QueryFeatures, route, apply_rules, score_intents, knowledge_update, suppress_weak_temporal,
  multi_session, semantic_score, assistant_recall, pop, winner_from, matched_cue_hits,
  min_commit_confidence,
}
use evoeventmem.Etec.Types.{QueryIntent}
use evoeventmem.Float
use evoeventmem.Prelude.Dict
use evoeventmem.Async.Types.{is_blank}
use evoeventmem.Domain.Text.{split}
use evoeventmem.Router.Committed.{IsCommitted, route-IsCommitted}

-- The features of a question for a fact, and whether it names a thing.
abbrev fact_features : Bool → String → QueryFeatures
fact_features named query = record {
  is_chit_chat = false;
  is_formulaic_chit_chat = false;
  has_fact_cue = true;
  has_strong_fact_cue = false;
  has_temporal_cue = false;
  has_relation_cue = false;
  has_episodic_cue = false;
  has_procedure_cue = false;
  has_name_phrase = false;
  has_entity = named;
  has_knowledge_update_cue = false;
  has_multi_session_cue = false;
  has_assistant_recall_cue = false;
  entity_count = if named then 1 else 0;
  temporal_cue_count = 0;
  strong_temporal_count = 0;
  weak_temporal_count = 0;
}

abbrev never : String → Bool
never query = false

route-IsCommitted_example : IsCommitted (route (fact_features true) never "Where does Alice live?")
route-IsCommitted_example = route-IsCommitted (fact_features true) never "Where does Alice live?"

-- A fact cue alone has the confidence 0.45, above the minimum, and the query commits to semantic.
fact_cue_commits :
    (route (fact_features false) never "What is the weather like?").intent ≡ QueryIntent.semantic
unfolding route apply_rules score_intents knowledge_update suppress_weak_temporal multi_session
    semantic_score assistant_recall pop winner_from matched_cue_hits min_commit_confidence is_blank
    split Float.one Float.add Float.mul Float.decimal Dict.put Dict.get
fact_cue_commits = refl
