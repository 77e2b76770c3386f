-- ===== src/Linking/Generate/Total.antt =====
-- `LinkCandidateGenerator.generate` of src/evoeventmem/linking.py never misses an embedding.
use evoeventmem.Prelude.{
  ℕ, ◌≡◌, refl, sym, ap, ◌∙◌, String, true, some, List, [], ◌∷◌, ◌++◌, map, arith, Bool-cases, inl,
  inr, length, contains, string_eq, ◌==◌, ==_iff, ◌||◌,
}
use evoeventmem.Prelude.Dict
use evoeventmem.Prelude.Dict.{Dict}
use evoeventmem.Result.{Result, ok}
use evoeventmem.Domain.Models.{is_active}
use evoeventmem.Etec.Math.{as_set}
use evoeventmem.Etec.Math.Unique.{unique_by-OneEach}
use evoeventmem.Linking.Types.{
  LinkCandidateGenerator, CandidateGenerationRequest, CandidateGenerationResult, LinkCandidate,
}
use evoeventmem.Linking.EntityPool.{EntityPoolItem}
use evoeventmem.Linking.EventPool.{EventPoolItem}
use evoeventmem.Linking.Score.{
  prepend, entity_unless_dropped, event_unless_dropped, bounded, score_entity_items,
  score_event_items, score_entity_pool, score_event_pool,
}
use evoeventmem.Linking.Generate.{
  zip_strict, entity_texts, event_texts, embed_all, embed_unique, no_candidates, entity_pool,
  event_pool, compare_pools, generate,
}

-- Every text of the list has a vector.
abbrev Covers : Dict String (List ℕ) → List String → Type 0
Covers d texts =
    (text : String)
    → contains text texts ≡ true
    → (vector : List ℕ) × (Dict.get d text ≡ some vector)

Covers-zip_strict :
    (texts : List String) (vectors : List (List ℕ))
    → length vectors ≡ length texts
    → (d : Dict String (List ℕ)) × (zip_strict texts vectors ≡ ok d) × Covers d texts
unfolding zip_strict contains Dict.get
Covers-zip_strict [] [] h = ([], refl, λ text there. absurd (cc))
Covers-zip_strict [] (v ∷ vs) h = absurd (omega arith)
Covers-zip_strict (t ∷ ts) [] h = absurd (omega arith)
Covers-zip_strict (t ∷ ts) (v ∷ vs) h =
    let (d, zipped, covers) = Covers-zip_strict ts vs (omega arith) in
    (
      (t, v) ∷ d,
      rw zipped refl,
      λ text there. elim (Bool-cases (t == text)) [
        | inl same ↦ (v, rw same refl)
        | inr differs ↦
            let (w, found) = covers text (ground (arith, ==_iff text t, ==_iff t text)) in
            (w, rw differs found)
      ],
    )

map-id : (xs : List String) → map (λ text. text) xs ≡ xs
map-id [] = refl
map-id (x ∷ xs) = ap (◌∷◌ x) (map-id xs)

contains-as_set :
    (text : String) (texts : List String) → contains text (as_set texts) ≡ contains text texts
contains-as_set text texts =
    ap (contains text) (sym (map-id (as_set texts)))
    ∙ (unique_by-OneEach (λ x. x) texts).1 text
    ∙ ap (contains text) (map-id texts)

-- The model returns one vector for each text.
abbrev pub Embeds : LinkCandidateGenerator → Type 0
Embeds self =
    (texts : List String)
    → (vectors : List (List ℕ)) × (self.embed_texts texts ≡ ok vectors)
      × (length vectors ≡ length texts)

module _ (self : LinkCandidateGenerator) (request : CandidateGenerationRequest)
    (embeds : Embeds self) where
  Covers-embed_all :
      (texts : List String)
      → (d : Dict String (List ℕ)) × (embed_all self texts ≡ ok d) × Covers d texts
  unfolding contains
  Covers-embed_all [] = ([], refl, λ text there. absurd (cc))
  Covers-embed_all (t ∷ ts) =
      let (vectors, embedded, same) = embeds (t ∷ ts) in
      let (d, zipped, covers) = Covers-zip_strict (t ∷ ts) vectors same in
      (d, rw (embedded, zipped) refl, covers)

  Covers-embed_unique :
      (texts : List String)
      → (d : Dict String (List ℕ)) × (embed_unique self texts ≡ ok d) × Covers d texts
  unfolding embed_unique
  Covers-embed_unique texts =
      let (d, embedded, covers) = Covers-embed_all (as_set texts) in
      (d, embedded, λ text there. covers text (contains-as_set text texts ∙ there))

  module _ (d : Dict String (List ℕ)) where
    abbrev Scored : Result (List LinkCandidate) → Type 0
    Scored r = (cs : List LinkCandidate) × (r ≡ ok cs)

    Scored-score_entity_items :
        (items : List EntityPoolItem)
        → Covers d (entity_texts items)
        → Scored (score_entity_items self request d items)
    unfolding score_entity_items entity_texts contains
    Scored-score_entity_items [] covers = ([], refl)
    Scored-score_entity_items (item ∷ items) covers =
        let left = item.source_entity.name in
        let right = item.target.entity.name in
        let (l, found) = covers left (ground (arith, ==_iff left left)) in
        let (r, found') = covers right (ground (arith, ==_iff right right)) in
        let (cs, rest) =
          Scored-score_entity_items items (λ text there. covers text (ground arith)) in
        (
          prepend (entity_unless_dropped self request item (self.cosine l r)) cs,
          rw (found, found', rest) refl,
        )

    Scored-score_event_items :
        (items : List EventPoolItem)
        → Covers d (event_texts request.source.content items)
        → Scored (score_event_items self request d items)
    unfolding score_event_items event_texts contains
    Scored-score_event_items [] covers = ([], refl)
    Scored-score_event_items (item ∷ items) covers =
        let left = request.source.content in
        let right = item.target.content in
        let (l, found) = covers left (ground (arith, ==_iff left left)) in
        let (r, found') = covers right (ground (arith, ==_iff right right)) in
        let (cs, rest) =
          Scored-score_event_items items (λ text there. covers text (ground arith)) in
        (
          prepend (event_unless_dropped self request item (self.cosine l r)) cs,
          rw (found, found', rest) refl,
        )

  contains-append :
      (x : String) (xs ys : List String) → contains x (xs ++ ys) ≡ (contains x xs || contains x ys)
  unfolding contains
  contains-append x [] ys = refl
  contains-append x (y ∷ xs) ys = ground (arith, contains-append x xs ys)

  abbrev pub Generates : Result CandidateGenerationResult → Type 0
  Generates r = (result : CandidateGenerationResult) × (r ≡ ok result)

  Generates-compare_pools : (latency_ms : ℕ) → Generates (compare_pools self request latency_ms)
  unfolding compare_pools score_entity_pool score_event_pool
  Generates-compare_pools latency_ms =
      let entities = entity_texts (entity_pool self request latency_ms) in
      let events = event_texts request.source.content (event_pool self request latency_ms) in
      let (d, embedded, covers) = Covers-embed_unique (entities ++ events) in
      let (es, scored) =
        Scored-score_entity_items d (entity_pool self request latency_ms)
          (λ text there. covers text (ground (arith, contains-append text entities events))) in
      let (vs, scored') =
        Scored-score_event_items d (event_pool self request latency_ms)
          (λ text there. covers text (ground (arith, contains-append text entities events))) in
      (
        record {
          entity_candidates = bounded self es request.max_entity_candidates;
          event_candidates = bounded self vs request.max_event_candidates;
          latency_ms = latency_ms;
          embedding_model_id = self.model_id;
          entity_comparison_count = length (entity_pool self request latency_ms);
          event_comparison_count = length (event_pool self request latency_ms);
        },
        rw (embedded, scored, scored') refl,
      )

  -- With a model that returns one vector for each text that it is given, a generation always returns a
  -- result: each text of a comparison has been embedded, and no lookup of a vector raises.
  pub generate-Generates : (latency_ms : ℕ) → Generates (generate self request latency_ms)
  unfolding generate
  generate-Generates latency_ms = elim (Bool-cases (is_active request.source.status)) [
    | inl yields ↦ rw yields (Generates-compare_pools latency_ms)
    | inr fails ↦ rw fails (no_candidates self request latency_ms, refl)
  ]
