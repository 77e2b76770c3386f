-- ===== src/Retrieval/Temporal.antt =====
-- `_apply_temporal_constraint` of src/evoeventmem/retrieval.py.
pub mod InInterval
use evoeventmem.Prelude.{
  ℕ, String, Bool, true, false, Option, none, some, List, [], ◌∷◌, ◌++◌, map, select, any, contains,
  ltb, leb, not, ◌&&◌, ◌||◌, ◌==◌, nat_eq, string_eq, if◌then◌else◌,
}
use evoeventmem.Prelude.Sort.{sort}
use evoeventmem.Float
use evoeventmem.Platform.{Platform}
use evoeventmem.Domain.Models.{MemoryRecord}
use evoeventmem.Domain.Order.{memory_order_key, tuple_lt}
use evoeventmem.Etec.Math.{unique_uuids}
use evoeventmem.Retrieval.Types.{
  CandidateSource, temporal, source_eq, Candidate, is_historical, TemporalOperator, no_operator, at,
  before, after, between, earliest, latest, sequence, duration, TemporalConstraint,
  QueryRoutingDecision, ExclusionRecord, temporal_interval_excluded, of_interval,
}
use evoeventmem.Retrieval.Candidates.{raw_lt}
use evoeventmem.Retrieval.Classify.{is_superseded}
use evoeventmem.Retrieval.Reader.{temporal_anchor}
use evoeventmem.Retrieval.Sources.{temporal_recency_presence, is_some}

abbrev pub is_temporal : Candidate → Bool
is_temporal candidate = candidate.source == temporal

abbrev pub memory_ids : List Candidate → List ℕ
memory_ids candidates = map (λ (c : Candidate). c.memory.memory_id) candidates

-- `left or right`, on times
abbrev pub or_else : Option ℕ → Option ℕ → Option ℕ
or_else none right = right
or_else (some t) right = some t

-- `lower is not None and anchor < lower`, and the same above
abbrev pub is_below : ℕ → Option ℕ → Bool
is_below anchor none = false
is_below anchor (some lower) = ltb anchor lower

abbrev pub is_above : ℕ → Option ℕ → Bool
is_above anchor none = false
is_above anchor (some upper) = ltb upper anchor

-- `_interval_agreement`
unfoldable pub interval_agreement : ℕ → Option ℕ → Option ℕ → ℕ
interval_agreement anchor lower upper =
    if is_below anchor lower then 0 else if is_above anchor upper then 0 else Float.one

-- The bounds of an interval operator, if it is one.
unfoldable pub interval_bounds : TemporalConstraint → Option (Option ℕ × Option ℕ)
interval_bounds constraint =
    let lower = constraint.lower_bound_utc in
    let upper = constraint.upper_bound_utc in
    elim constraint.operator [
      | at ↦ some (or_else lower upper, or_else upper (or_else lower upper))
      | before ↦ some (none, upper)
      | after ↦ some (lower, none)
      | between ↦ some (lower, upper)
      | _ ↦ none
    ]

abbrev pub at_presence : ℕ → Candidate → Candidate
at_presence reference candidate = record candidate {
  reason = "temporal-presence-small-feature";
  raw_score = temporal_recency_presence candidate.memory reference;
}

abbrev pub is_anchored : Candidate → Bool
is_anchored candidate = is_some (temporal_anchor candidate.memory)

-- `_apply_unconstrained_temporal`
unfoldable pub apply_unconstrained_temporal : List Candidate → ℕ → List Candidate
apply_unconstrained_temporal candidates reference =
    map (at_presence reference) (select is_anchored candidates)

abbrev pub lost : Candidate → Candidate
lost candidate = record candidate { raw_score = 0; normalized_score = 0 }

abbrev pub winning : Candidate → Candidate
winning candidate = record candidate {
  raw_score = Float.one;
  reason = "extremal-temporal-best-in-relevant-pool";
}

-- The winner and the losers, or the candidates as they are where none has an anchor.
abbrev pub first_wins : List Candidate → List Candidate → List Candidate
first_wins candidates [] = candidates
first_wins candidates (winner ∷ losers) = winning winner ∷ map lost losers

abbrev pub time_lt : Option ℕ → Option ℕ → Bool
time_lt (some s) (some t) = ltb s t
time_lt (some s) none = true
time_lt none right = false

-- A candidate of the interval loop: kept as it is without an anchor, and dropped outside the interval.
abbrev pub agreed : Option ℕ → Option ℕ → Candidate → Option ℕ → List Candidate
agreed lower upper candidate none = candidate ∷ []
agreed lower upper candidate (some anchor) =
    if leb (interval_agreement anchor lower upper) 0
    then []
    else record candidate {
      raw_score = interval_agreement anchor lower upper;
      reason = "temporal-interval-agreement";
    }
      ∷ []

unfoldable pub agreeing : Option ℕ → Option ℕ → List Candidate → List Candidate
agreeing lower upper [] = []
agreeing lower upper (candidate ∷ candidates) =
    agreed lower upper candidate (temporal_anchor candidate.memory)
    ++ agreeing lower upper candidates

abbrev pub outside : Candidate → Candidate
outside candidate = record candidate {
  raw_score = 0;
  reason = "temporal-candidate-outside-relevance-pool";
}

module _ (p : Platform) (token_set : String → List String) where
  -- The order of the keys `(anchor, *memory_order_key(memory))`.
  abbrev pub anchor_lt : Candidate → Candidate → Bool
  anchor_lt a b =
      let s = temporal_anchor a.memory in
      let t = temporal_anchor b.memory in
      time_lt s t
      || not (time_lt t s)
        && tuple_lt (memory_order_key p.casefold a.memory) (memory_order_key p.casefold b.memory)

  -- `_apply_extremal_temporal`
  unfoldable pub apply_extremal_temporal : List Candidate → Bool → List Candidate
  apply_extremal_temporal candidates is_earliest =
      let anchored = select is_anchored candidates in
      first_wins candidates
        (if is_earliest then sort anchor_lt anchored else sort (λ a b. anchor_lt b a) anchored)

  abbrev pub within : List Candidate → Option (Option ℕ × Option ℕ) → List Candidate
  within candidates none = candidates
  within candidates (some (none, none)) = candidates
  within candidates (some (lower, upper)) = sort (raw_lt p) (agreeing lower upper candidates)

  -- `_apply_interval_temporal`
  unfoldable pub apply_interval_temporal : List Candidate → TemporalConstraint → List Candidate
  apply_interval_temporal candidates constraint = within candidates (interval_bounds constraint)

  module _ (candidates : List Candidate) (routing : QueryRoutingDecision) (reference : ℕ) where
    abbrev pub relevant_ids : List ℕ
    relevant_ids = memory_ids (select (λ c. not (is_temporal c) && ltb 0 c.raw_score) candidates)

    -- `rescued`
    abbrev pub is_rescued : Candidate → Bool
    is_rescued candidate =
        is_historical routing.intent
        && is_superseded candidate.memory.status
        && any (λ token. contains token (token_set routing.query))
            (token_set candidate.memory.content)

    abbrev pub is_in_pool : Candidate → Bool
    is_in_pool candidate = contains candidate.memory.memory_id relevant_ids || is_rescued candidate

    abbrev pub pool : List Candidate
    pool = select (λ c. is_temporal c && is_in_pool c) candidates

    abbrev pub outside_pool : List Candidate
    outside_pool = map outside (select (λ c. is_temporal c && not (is_in_pool c)) candidates)

    abbrev pub non_temporal : List Candidate
    non_temporal = select (λ c. not (is_temporal c)) candidates

    abbrev pub kept_ids : List Candidate → List ℕ
    kept_ids kept = memory_ids kept ++ memory_ids (select (λ c. not (is_anchored c)) non_temporal)

    abbrev pub interval_exclusion : ℕ → ExclusionRecord
    interval_exclusion memory_id = record {
      memory_id = memory_id;
      reason = temporal_interval_excluded;
      details = of_interval routing.temporal_constraint;
    }

    -- The rest of the function, for an interval.
    unfoldable pub constrain : List Candidate → List Candidate × List ExclusionRecord
    constrain kept =
        let dropped =
          select (λ id. not (contains id (kept_ids kept))) (unique_uuids (memory_ids pool)) in
        let ordered = sort (λ i j. tuple_lt (p.uuid_str i ∷ []) (p.uuid_str j ∷ [])) dropped in
        (
          select (λ c. contains c.memory.memory_id (kept_ids kept)) non_temporal
              ++ kept
              ++ outside_pool,
          map interval_exclusion ordered,
        )

    unfoldable pub by_operator : TemporalOperator → List Candidate × List ExclusionRecord
    by_operator no_operator =
        (non_temporal ++ apply_unconstrained_temporal pool reference ++ outside_pool, [])
    by_operator duration = (candidates, [])
    by_operator latest = (non_temporal ++ apply_extremal_temporal pool false ++ outside_pool, [])
    by_operator earliest = (non_temporal ++ apply_extremal_temporal pool true ++ outside_pool, [])
    by_operator _ = constrain (apply_interval_temporal pool routing.temporal_constraint)

    -- `_apply_temporal_constraint`
    unfoldable pub apply_temporal_constraint : List Candidate × List ExclusionRecord
    apply_temporal_constraint =
        if any is_temporal candidates
        then by_operator routing.temporal_constraint.operator
        else (candidates, [])
