-- ===== src/Linking/EntityPool/Phases.antt =====
-- The phases that fill the entity pool of src/evoeventmem/linking.py, and what the pool holds at last.
use evoeventmem.Prelude.{
  ℕ, ◌-◌, ◌≤◌, Option, none, some, [], All, All-take, nat_eq, Bool-cases, inl, inr, take, min, leb,
  ◌||◌, ◌==◌, length, length-take-le,
}
use evoeventmem.Prelude.Dict.{values, All-values}
use evoeventmem.Prelude.Sort.{sort, All-sort}
use evoeventmem.Domain.Models.{EntityRef}
use evoeventmem.Linking.Types.{
  LinkCandidateGenerator, CandidateGenerationRequest, EmbeddingCandidateIndex, stable_fallback,
}
use evoeventmem.Linking.Indexes.{build_request_indexes}
use evoeventmem.Linking.Indexes.Admitted.{Admitted}
use evoeventmem.Linking.Pool.{for_until-keeps}
use evoeventmem.Linking.EntityPool.{
  EntityPoolItem, EntityPool, source_entities, by_name, by_keys, add_ref, query_entity, by_index,
  by_tokens, by_fallback, phases, fill_phases, entity_pool_lt, finalize_entity_pool,
  entity_comparison_pool,
}
use evoeventmem.Linking.EntityPool.Sound.{
  All-any, Entry, IsSound, Keeps, indexes, filed, Keeps-fill_entity_pool, Keeps-for_until,
  Keeps-by_name, Keeps-by_keys, Keeps-by_tokens, Keeps-add_ref,
}

module _ (self : LinkCandidateGenerator) (request : CandidateGenerationRequest) (limit : ℕ) where
  abbrev Counted : EntityPool × (ℕ × ℕ) → Type 0
  Counted s = IsSound self request limit s.0

  Counted-query_entity :
      (index : EmbeddingCandidateIndex) (e : ℕ × EntityRef) (s : EntityPool × (ℕ × ℕ))
      → Counted s
      → Counted (query_entity self request.source limit (indexes self request limit) index e s).0
  unfolding query_entity
  Counted-query_entity index (i, entity) (pool, (results, queries)) h =
      elim (Bool-cases (leb limit (length pool) || results == 0 || queries == 0)) [
        | inl stops ↦ rw stops h
        | inr goes ↦
            let wanted = min (limit - length pool) results in
            let refs = take wanted (index.query_entity_candidates entity.name wanted) in
            rw goes (
              Keeps-for_until self request limit
                (add_ref self request.source limit (indexes self request limit) (i, entity)) refs
                (Keeps-add_ref self request limit (i, entity)) pool h)
      ]

  Keeps-by_index :
      (index : Option EmbeddingCandidateIndex)
      → Keeps self request limit
          (by_index self request.source limit (indexes self request limit) index)
  unfolding by_index
  Keeps-by_index none pool h = h
  Keeps-by_index (some index) pool h =
      let entities = source_entities self request.source in
      for_until-keeps (λ e. Unit {0}) Counted
        (query_entity self request.source limit (indexes self request limit) index)
        (λ e s any k. Counted-query_entity index e s k) entities (pool, (limit, limit))
        (All-any entities) h

  IsSound-fill_phases :
      IsSound self request limit
        (fill_phases self request.source limit (indexes self request limit))
  unfolding fill_phases phases
  IsSound-fill_phases =
      let built = indexes self request limit in
      let entities = source_entities self request.source in
      let loop = Keeps-for_until self request limit {A = ℕ × EntityRef} in
      for_until-keeps (Keeps self request limit) (IsSound self request limit) (λ phase. phase)
        (λ phase s k h. k s h) (phases self request.source limit built) []
        (
          loop (by_name self request.source limit built) entities
              (Keeps-by_name self request limit),
          (
            loop (by_keys self request.source limit built) entities
                (Keeps-by_keys self request limit),
            (
              Keeps-by_index self.candidate_index,
              (
                loop (by_tokens self request.source limit built) entities
                    (Keeps-by_tokens self request limit),
                (
                  loop (by_fallback self request.source limit built) entities (λ e.
                      Keeps-fill_entity_pool self request limit e (λ entry. stable_fallback)
                        built.entity_entries (filed self request limit).entries),
                  tt,
                ),
              ),
            ),
          ),
        )
        tt

module _ (self : LinkCandidateGenerator) (request : CandidateGenerationRequest) where
  abbrev pub IsAdmitted : EntityPoolItem → Type 0
  IsAdmitted item = Admitted self request item.target.memory

  -- What is compared: entities of admitted targets, at most `max_entity_candidates` of them.
  pub entity_comparison_pool-IsAdmitted :
      All IsAdmitted (entity_comparison_pool self request (build_request_indexes self request))
      × (length (entity_comparison_pool self request (build_request_indexes self request))
          ≤ request.max_entity_candidates)
  unfolding entity_comparison_pool finalize_entity_pool
  entity_comparison_pool-IsAdmitted =
      let limit = request.max_entity_candidates in
      let filled = fill_phases self request.source limit (build_request_indexes self request) in
      let items = values filled in
      (
        All-take IsAdmitted limit (sort (entity_pool_lt self) items) (
            All-sort (entity_pool_lt self) IsAdmitted items (
              All-values (Entry self request limit) IsAdmitted filled (λ k v entry. entry)
                (IsSound-fill_phases self request limit))),
        length-take-le limit (sort (entity_pool_lt self) items),
      )
