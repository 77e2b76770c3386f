-- ===== src/Linking/Generate/Reasons.antt =====
-- What the candidates of src/evoeventmem/linking.py say of their targets.
use evoeventmem.Prelude.{
  ℕ, ◌≡◌, ◌≤◌, ◌*◌, refl, sym, ap, ◌∙◌, leb, true, false, some, List, All, All-imp, select_passes,
  All-contained, select, arith, Bool-cases, inl, inr, contains, contains-select, not, false,
}
use evoeventmem.Float
use evoeventmem.Float.Signed.{Signed, less}
use evoeventmem.Domain.Models.{MemoryRecord, MemoryKind}
use evoeventmem.Linking.Types.{
  LinkCandidateGenerator, CandidateGenerationRequest, LinkCandidate, Reason, reason_eq,
  embedding_similarity, fact_slot_match, exact_normalized_content, shared_entity_key,
  lexical_token_match, within_time_window, time_unbounded, exact_normalized_entity_key, alias_match,
  embedding_index_candidate, stable_fallback,
}
use evoeventmem.Linking.Indexes.Sound.{Timely}
use evoeventmem.Linking.Keys.{is_event, in_window, time_delta_days}
use evoeventmem.Linking.Indexes.Admitted.{Eligible}
use evoeventmem.Linking.Pool.{ordered_reasons, add_reason}
use evoeventmem.Linking.EventPool.{EventPoolItem}
use evoeventmem.Linking.EventPool.Sound.{Explains, Explained, Justified}
use evoeventmem.Linking.Score.{event_reason_order, with_similarity, event_candidate, event_score}

module _ (self : LinkCandidateGenerator) (request : CandidateGenerationRequest) where
  -- A link to an eligible record of the request.
  abbrev pub LinksEligible : LinkCandidate → Type 0
  LinksEligible c = (c.source_memory ≡ request.source) × Eligible self request c.target_memory

  -- An event is at most so many days away, where both records have a time.
  abbrev pub InTime : MemoryRecord → Type 0
  InTime m =
      m.memory_kind ≡ MemoryKind.event
      → (days : ℕ) → time_delta_days request.source m ≡ some days
      → days ≤ request.event_time_window_days * Float.one

  InTime-of_Timely : (m : MemoryRecord) → Timely self request (Eligible self request) m → InTime m
  InTime-of_Timely m h event days delta =
      let inside : in_window request.event_time_window_days (time_delta_days request.source m)
          ≡ true =
        h (ap is_event event) in
      let inside' : leb days (request.event_time_window_days * Float.one) ≡ true =
        ap (in_window request.event_time_window_days) (sym delta) ∙ inside in
      ground (arith)

  -- What a reason of a candidate claims; the reason of the similarity is stated in `Scored`.
  abbrev pub Supports : MemoryRecord → Reason → Type 0
  Supports m embedding_similarity = Unit
  Supports m reason = Explains self request.source m reason

  -- For one similarity the reason of the similarity is given just when the similarity reaches the minimum,
  -- and the score is that of the reasons and the similarity.
  abbrev pub Scored : LinkCandidate → Type 0
  Scored c =
      (similarity : Signed) × (contains embedding_similarity c.reasons
        ≡ not (less similarity request.min_embedding_similarity))
      × (c.score ≡ event_score c.reasons similarity)

  -- A link whose target is not an event outside the time window, with reasons that hold.
  abbrev pub LinksJustified : LinkCandidate → Type 0
  LinksJustified c =
      LinksEligible c × InTime c.target_memory × All (Supports c.target_memory) c.reasons × Scored c

  Supports-Explains :
      (m : MemoryRecord) (reason : Reason)
      → Explains self request.source m reason
      → Supports m reason
  Supports-Explains m embedding_similarity h = tt
  Supports-Explains m fact_slot_match h = h
  Supports-Explains m exact_normalized_content h = h
  Supports-Explains m shared_entity_key h = h
  Supports-Explains m lexical_token_match h = h
  Supports-Explains m within_time_window h = h
  Supports-Explains m time_unbounded h = h
  Supports-Explains m exact_normalized_entity_key h = h
  Supports-Explains m alias_match h = h
  Supports-Explains m embedding_index_candidate h = h
  Supports-Explains m stable_fallback h = h

  All-Supports-ordered_reasons :
      (m : MemoryRecord) (reasons order : List Reason)
      → All (Supports m) reasons
      → All (Supports m) (ordered_reasons reasons order)
  unfolding ordered_reasons
  All-Supports-ordered_reasons m reasons order h =
      All-imp (λ r. contains r reasons ≡ true) (Supports m) (select (λ r. contains r reasons) order)
        (λ r there. All-contained (Supports m) reasons r h there)
        (select_passes (λ r. contains r reasons) order)

  All-Supports-with_similarity :
      (m : MemoryRecord) (reasons : List Reason) (similarity : Signed)
      → Explained self request.source m reasons
      → All (Supports m) (with_similarity request.min_embedding_similarity reasons similarity)
  unfolding add_reason
  All-Supports-with_similarity m reasons similarity h =
      let all =
        All-imp (Explains self request.source m) (Supports m) reasons (Supports-Explains m) h in
      elim (Bool-cases (less similarity request.min_embedding_similarity)) [
        | inl below ↦ rw below all
        | inr reaches ↦ rw reaches (elim (Bool-cases (contains embedding_similarity reasons)) [
          | inl there ↦ rw there all
          | inr new ↦ rw new (tt, all)
        ])
      ]

  -- The pool gives no reason of similarity.
  no_similarity :
      (m : MemoryRecord) (reasons : List Reason)
      → Explained self request.source m reasons
      → contains embedding_similarity reasons ≡ false
  no_similarity m reasons h = elim (Bool-cases (contains embedding_similarity reasons)) [
    | inl there ↦
        absurd (All-contained (Explains self request.source m) reasons embedding_similarity h there)
    | inr new ↦ new
  ]

  contains-with_similarity :
      (m : MemoryRecord) (reasons : List Reason) (similarity : Signed)
      → Explained self request.source m reasons
      → contains embedding_similarity
          (with_similarity request.min_embedding_similarity reasons similarity)
        ≡ not (less similarity request.min_embedding_similarity)
  unfolding add_reason contains
  contains-with_similarity m reasons similarity h =
      let new = no_similarity m reasons h in ground arith

  contains-ordered_reasons :
      (reason : Reason) (reasons : List Reason)
      → contains reason event_reason_order ≡ true
      → contains reason (ordered_reasons reasons event_reason_order) ≡ contains reason reasons
  unfolding ordered_reasons
  contains-ordered_reasons reason reasons h = rw contains-select (ground arith)

  -- The reasons that the score and the similarity ask for are in the order.
  in_order :
      (contains fact_slot_match event_reason_order ≡ true)
      × (contains exact_normalized_content event_reason_order ≡ true)
      × (contains shared_entity_key event_reason_order ≡ true)
      × (contains lexical_token_match event_reason_order ≡ true)
      × (contains embedding_similarity event_reason_order ≡ true)
  unfolding contains
  in_order = (refl, refl, refl, refl, refl)

  event_score-ordered_reasons :
      (reasons : List Reason) (similarity : Signed)
      → event_score (ordered_reasons reasons event_reason_order) similarity
        ≡ event_score reasons similarity
  unfolding event_score
  event_score-ordered_reasons reasons similarity =
      let (slot, content, entity, token, _) = in_order in
      rw
        (
          contains-ordered_reasons fact_slot_match reasons slot,
          contains-ordered_reasons exact_normalized_content reasons content,
          contains-ordered_reasons shared_entity_key reasons entity,
          contains-ordered_reasons lexical_token_match reasons token,
        )
        refl

  Scored-event_candidate :
      (item : EventPoolItem) (similarity : Signed)
      → Explained self request.source item.target item.reasons
      → Scored (event_candidate self request item similarity)
  Scored-event_candidate item similarity h =
      let (_, _, _, _, there) = in_order in
      let reasons = with_similarity request.min_embedding_similarity item.reasons similarity in
      (
        similarity,
        contains-ordered_reasons embedding_similarity reasons there
            ∙ contains-with_similarity item.target item.reasons similarity h,
        sym (event_score-ordered_reasons reasons similarity),
      )

  pub LinksJustified-event_candidate :
      (item : EventPoolItem) (similarity : Signed)
      → Justified self request item
      → LinksJustified (event_candidate self request item similarity)
  LinksJustified-event_candidate item similarity ((admitted, time), reasons) = (
    (refl, admitted.0),
    InTime-of_Timely item.target time,
    All-Supports-ordered_reasons item.target
        (with_similarity request.min_embedding_similarity item.reasons similarity)
        event_reason_order
        (All-Supports-with_similarity item.target item.reasons similarity reasons),
    Scored-event_candidate item similarity reasons,
  )
