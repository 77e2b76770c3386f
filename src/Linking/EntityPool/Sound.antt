-- ===== src/Linking/EntityPool/Sound.antt =====
-- The entity pool of src/evoeventmem/linking.py holds entities of admitted targets only.
use evoeventmem.Prelude.{
  ℕ, ◌≡◌, refl, String, Bool, Option, none, some, List, [], ◌∷◌, All, All-take, nat_eq, string_eq,
  pair_eq, list_eq, Bool-cases, inl, inr, take,
}
use evoeventmem.Prelude.Dict
use evoeventmem.Prelude.Dict.{values, All-values, All-put, All-get}
use evoeventmem.Domain.Models.{EntityRef, nonempty}
use evoeventmem.Etec.Math.{as_set}
use evoeventmem.Linking.Types.{
  LinkCandidateGenerator, CandidateGenerationRequest, EntityCandidateTargetRef, Reason,
  exact_normalized_entity_key, lexical_token_match, embedding_index_candidate,
}
use evoeventmem.Linking.Keys.{normalized_linking_key, entity_keys}
use evoeventmem.Linking.Indexes.{
  EntityIndexEntry, RequestIndexes, posting, build_request_indexes, tokens_of_keys,
}
use evoeventmem.Linking.Indexes.Sound.{IsEntityIndex}
use evoeventmem.Linking.Indexes.Admitted.{Admitted, build_request_indexes-IsSound}
use evoeventmem.Linking.Pool.{for_until, for_until-keeps, add_reason, sorted_texts}
use evoeventmem.Linking.EntityPool.{
  EntityPoolItem, EntityPool, or_new, add_entity_pool_item, add_and_test, fill_entity_pool, by_name,
  key_reason, by_key, by_keys, add_found, add_ref, by_token, by_tokens,
}

-- What holds of everything holds of the elements of a list.
pub All-any {ℓ} : {A : Type ℓ} (xs : List A) → All (λ x. Unit {0}) xs
All-any [] = tt
All-any (x ∷ xs) = (tt, All-any xs)

module _ (self : LinkCandidateGenerator) (request : CandidateGenerationRequest) (limit : ℕ) where
  abbrev pub Q : EntityIndexEntry → Type 0
  Q entry = Admitted self request entry.memory

  abbrev pub Entry : (ℕ × List String) × EntityPoolItem → Type 0
  Entry (key, item) = Q item.target

  abbrev pub IsSound : EntityPool → Type 0
  IsSound pool = All Entry pool

  abbrev pub Keeps : (EntityPool → EntityPool × Bool) → Type 0
  Keeps phase = (pool : EntityPool) → IsSound pool → IsSound (phase pool).0

  abbrev pub indexes : RequestIndexes
  indexes = build_request_indexes self request

  pub filed : IsEntityIndex self request (Admitted self request) indexes
  filed = (build_request_indexes-IsSound self request).0

  Entry-or_new :
      (i : ℕ) (entity : EntityRef) (entry : EntityIndexEntry) (o : Option EntityPoolItem)
      → Q entry
      → ((item : EntityPoolItem) → o ≡ some item → Q item.target)
      → Q (or_new i entity entry o).target
  Entry-or_new i entity entry none q h = q
  Entry-or_new i entity entry (some item) q h = h item refl

  Keeps-add_and_test :
      (source : ℕ × EntityRef) (reason : EntityIndexEntry → Reason) (entry : EntityIndexEntry)
      → Q entry
      → Keeps (add_and_test limit source reason entry)
  unfolding add_entity_pool_item
  Keeps-add_and_test (i, entity) reason entry q pool h =
      let o = Dict.get pool (i, entry.stable_key) in
      let item = or_new i entity entry o in
      All-put Entry pool (i, entry.stable_key)
        (record item { reasons = add_reason (reason entry) item.reasons })
        (Entry-or_new i entity entry o q
          (λ found e. All-get Entry pool (i, entry.stable_key) found h e))
        h

  pub Keeps-fill_entity_pool :
      (source : ℕ × EntityRef) (reason : EntityIndexEntry → Reason)
      (entries : List EntityIndexEntry)
      → All Q entries
      → Keeps (fill_entity_pool limit source reason entries)
  unfolding fill_entity_pool
  Keeps-fill_entity_pool source reason entries q pool h =
      for_until-keeps Q IsSound (add_and_test limit source reason)
        (λ entry s p k. Keeps-add_and_test source reason entry p s k) (take limit entries) pool
        (All-take Q limit entries q) h

  pub Keeps-for_until :
      {A : Type 0} (step : A → EntityPool → EntityPool × Bool) (xs : List A)
      → ((x : A) → Keeps (step x))
      → Keeps (for_until step xs)
  Keeps-for_until step xs k pool h =
      for_until-keeps (λ x. Unit {0}) IsSound step (λ x s any h'. k x s h') xs pool (All-any xs) h

  pub Keeps-by_name : (e : ℕ × EntityRef) → Keeps (by_name self request.source limit indexes e)
  unfolding by_name
  Keeps-by_name (i, entity) pool h =
      let key = normalized_linking_key self entity.name in
      elim (Bool-cases (nonempty key)) [
        | inl yields ↦ rw yields (
            Keeps-fill_entity_pool (i, entity) (λ entry. exact_normalized_entity_key)
              (posting indexes.entity_name_index key) (filed.names key) pool h)
        | inr fails ↦ rw fails h
      ]

  pub Keeps-by_keys : (e : ℕ × EntityRef) → Keeps (by_keys self request.source limit indexes e)
  unfolding by_keys
  Keeps-by_keys (i, entity) =
      Keeps-for_until (by_key self request.source limit indexes (i, entity))
        (sorted_texts (entity_keys self request.source entity))
        λ key.
          Keeps-fill_entity_pool (i, entity) (key_reason self request.source limit indexes entity)
            (posting indexes.entity_key_index key) (filed.keys key)

  pub Keeps-by_tokens : (e : ℕ × EntityRef) → Keeps (by_tokens self request.source limit indexes e)
  unfolding by_tokens
  Keeps-by_tokens (i, entity) =
      Keeps-for_until (by_token self request.source limit indexes (i, entity))
        (sorted_texts (as_set (tokens_of_keys self (entity_keys self request.source entity))))
        λ token.
          Keeps-fill_entity_pool (i, entity) (λ entry. lexical_token_match)
            (posting indexes.entity_token_index token) (filed.tokens token)

  Keeps-add_found :
      (e : ℕ × EntityRef) (o : Option EntityIndexEntry)
      → ((entry : EntityIndexEntry) → o ≡ some entry → Q entry)
      → Keeps (add_found self request.source limit indexes e o)
  Keeps-add_found e none q pool h = h
  Keeps-add_found e (some entry) q pool h =
      Keeps-add_and_test e (λ entry. embedding_index_candidate) entry (q entry refl) pool h

  pub Keeps-add_ref :
      (e : ℕ × EntityRef) (ref : EntityCandidateTargetRef)
      → Keeps (add_ref self request.source limit indexes e ref)
  Keeps-add_ref e ref =
      Keeps-add_found e (Dict.get indexes.entity_ref_index (ref.memory_id, ref.entity_position))
        (filed.refs (ref.memory_id, ref.entity_position))
