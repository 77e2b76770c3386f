-- ===== src/Router/Committed.antt =====
-- The confidence of `route` of src/evoeventmem/router.py.
use evoeventmem.Prelude.{
  ℕ, ◌≡◌, ◌≤◌, refl, String, Bool, false, List, ltb, ◌&&◌, ◌⊎◌, inl, inr, arith, Bool-cases, min,
}
use evoeventmem.Float
use evoeventmem.Etec.Types.{QueryIntent}
use evoeventmem.Async.Types.{is_blank}
use evoeventmem.Domain.Text.{split, join}
use evoeventmem.Router.{
  QueryFeatures, Ruling, Routing, apply_rules, commits, min_commit_confidence, unless_weak, route,
}

-- A confidence of at most 1.0, and for an intent that is not a fallback, at least the minimum.
abbrev pub IsCommitted : Routing → Type 0
IsCommitted r =
    (r.confidence ≤ Float.one)
    × ((r.intent ≡ QueryIntent.hybrid)
        ⊎ (r.intent ≡ QueryIntent.no_memory)
        ⊎ (min_commit_confidence ≤ r.confidence))

IsCommitted-by_intent :
    (intent : QueryIntent) (confidence : ℕ) (hits : List String)
    → confidence ≤ Float.one
    → (commits intent && ltb confidence min_commit_confidence) ≡ false
    → IsCommitted (record { intent = intent; confidence = confidence; rule_hits = hits })
IsCommitted-by_intent QueryIntent.hybrid confidence hits b h = (b, inl refl)
IsCommitted-by_intent QueryIntent.no_memory confidence hits b h = (b, inr (inl refl))
IsCommitted-by_intent QueryIntent.semantic confidence hits b h = (b, inr (inr (ground arith)))
IsCommitted-by_intent QueryIntent.temporal confidence hits b h = (b, inr (inr (ground arith)))
IsCommitted-by_intent QueryIntent.graph confidence hits b h = (b, inr (inr (ground arith)))
IsCommitted-by_intent QueryIntent.episodic confidence hits b h = (b, inr (inr (ground arith)))
IsCommitted-by_intent QueryIntent.procedural confidence hits b h = (b, inr (inr (ground arith)))

is_capped : (n : ℕ) → min Float.one n ≤ Float.one
is_capped n = omega arith

IsCommitted-unless_weak : (ruling : Ruling) → IsCommitted (unless_weak ruling)
IsCommitted-unless_weak (intent, (score, hits)) =
    let confidence = min Float.one (Float.add (Float.decimal 1 10) score) in
    let bound = is_capped (Float.add (Float.decimal 1 10) score) in
    elim (Bool-cases (commits intent && ltb confidence min_commit_confidence)) [
      | inl weak ↦ rw weak (bound, inl refl)
      | inr strong ↦ rw strong (IsCommitted-by_intent intent confidence hits bound strong)
    ]

-- For every features and every match of acknowledgements, the decision of `route` has a confidence of at
-- most 1.0, and unless its intent is hybrid or no-memory, of at least `MIN_COMMIT_CONFIDENCE`.
pub route-IsCommitted :
    (features : String → QueryFeatures) (is_ack : String → Bool) (query : String)
    → IsCommitted (route features is_ack query)
unfolding route
route-IsCommitted features is_ack query = elim (Bool-cases (is_blank query)) [
  | inl blank ↦ rw blank (omega arith, inl refl)
  | inr filled ↦ rw filled (
      IsCommitted-unless_weak
        (apply_rules (features (join (split query))) (is_ack (join (split query)))))
]
