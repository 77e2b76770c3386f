-- ===== src/Etec/Targets/Bounded.antt =====
-- The targets that a consolidation scores, and the links that it keeps.
use mathlib.Core.Path.{subst}
use evoeventmem.Prelude.{
  ℕ, ◌≡◌, refl, inl, inr, true, false, Option, none, some, List, [], ◌∷◌, ◌++◌, All, select_passes,
  Bool-cases, Option-cases, arith, ◌==◌, ==_iff, nat_eq, string_eq, option_eq, contains,
  if◌then◌else◌,
}
use evoeventmem.Result.{ok, Ensures, Ensures-bind, Ensures-of, ensured}
use evoeventmem.Domain.Models.{MemoryRecord}
use evoeventmem.Domain.Models.Contract.{model_validate_iff}
use evoeventmem.Repository.Port.{Repository}
use evoeventmem.Etec.Types.{EtecConsolidator}
use evoeventmem.Etec.Targets.{
  is_eligible, eligible_candidates, by_id, take_target, bounded_from, bounded_target_memories,
  is_verified, keep_verified, verified_ids, sanitize_source_supersedes, same_ids,
}
use evoeventmem.Etec.Math.{unique_uuids}

module _ {ℓ} (P : MemoryRecord → Type ℓ) where
  pub by_id_of_all :
      (ms : List MemoryRecord) (id : ℕ) (m : MemoryRecord) → All P ms → by_id ms id ≡ some m → P m
  unfolding by_id
  by_id_of_all [] id m h e = absurd (cc)
  by_id_of_all (x ∷ xs) id m h e = elim (Option-cases (by_id xs id)) [
    | inl missing ↦ elim (Bool-cases (x.memory_id == id)) [
      | inl yields ↦ let same : x ≡ m = cc (rw (missing, yields) at e) in subst P same h.0
      | inr fails ↦ absurd (cc (rw (missing, fails) at e))
    ]
    | inr (y, found) ↦
        let same : y ≡ m = cc (rw found at e) in subst P same (by_id_of_all xs id y h.1 found)
  ]

  All-take_target :
      (o : Option MemoryRecord) (seen : List ℕ) (skipped kept : List MemoryRecord)
      → ((m : MemoryRecord) → o ≡ some m → P m)
      → All P skipped
      → All P kept
      → All P (take_target o seen skipped kept)
  All-take_target none seen skipped kept h s k = s
  All-take_target (some m) seen skipped kept h s k =
      elim (contains m.memory_id seen) as (λ b. All P (if b then skipped else m ∷ kept)) [
        | true ↦ s
        | false ↦ (h m refl, k)
      ]

  All-bounded_from :
      (eligible : List MemoryRecord) (seen : List ℕ) (candidates : List MemoryRecord)
      → All P eligible
      → All P (bounded_from eligible seen candidates)
  unfolding bounded_from
  All-bounded_from eligible seen [] h = tt
  All-bounded_from eligible seen (c ∷ cs) h =
      All-take_target (by_id eligible c.memory_id) seen _ _
        (λ m found. by_id_of_all eligible c.memory_id m h found)
        (All-bounded_from eligible seen cs h) (All-bounded_from eligible (c.memory_id ∷ seen) cs h)

-- Every target is eligible, whatever the candidate generator returns: it is not the source, it is active,
-- and it is of the user and the tenant of the source.
pub All-bounded_target_memories :
    (source : MemoryRecord) (existing : List MemoryRecord)
    (generated : List MemoryRecord × List MemoryRecord)
    → All
        (λ m. is_eligible source m ≡ true)
        (bounded_target_memories generated (eligible_candidates source existing))
unfolding bounded_target_memories eligible_candidates
All-bounded_target_memories source existing (entities, events) =
    All-bounded_from (λ m. is_eligible source m ≡ true) _ [] (entities ++ events)
      (select_passes (is_eligible source) existing)

-- The record of an id that the source supersedes, which `is_verified` accepts.
abbrev pub Linked : (r : Repository) → r.State → MemoryRecord → ℕ → Type 0
Linked r s source id =
    (durable : MemoryRecord) × (r.get s id ≡ ok (some durable))
    × (is_verified source durable ≡ true)

module _ (r : Repository) (s : r.State) (source : MemoryRecord) where
  All-keep_verified :
      (id : ℕ) (durable : Option MemoryRecord) (rest : List ℕ)
      → r.get s id ≡ ok durable
      → All (Linked r s source) rest
      → All (Linked r s source) (keep_verified source id durable rest)
  All-keep_verified id none rest got h = h
  All-keep_verified id (some durable) rest got h = elim (Bool-cases (is_verified source durable)) [
    | inl yields ↦ rw yields ((durable, got, yields), h)
    | inr fails ↦ rw fails h
  ]

  Linked-verified_ids :
      (ids : List ℕ) → Ensures (All (Linked r s source)) (verified_ids r s source ids)
  unfolding verified_ids
  Linked-verified_ids [] = tt
  Linked-verified_ids (id ∷ ids) =
      Ensures-bind (All (Linked r s source)) (r.get s id) _ λ durable got.
        Ensures-bind (All (Linked r s source)) (verified_ids r s source ids) _ λ rest ran.
          All-keep_verified id durable rest got
            (ensured (All (Linked r s source)) _ rest (Linked-verified_ids ids) ran)

same_ids_eq : (left right : List ℕ) → same_ids left right ≡ true → left ≡ right
same_ids_eq [] [] h = refl
same_ids_eq [] (b ∷ right) h = absurd (cc)
same_ids_eq (a ∷ left) [] h = absurd (cc)
same_ids_eq (a ∷ left) (b ∷ right) h = ground (arith, ==_iff a b, same_ids_eq left right)

-- The source with its links verified: the same record in the same scope.
abbrev pub Sanitized : (r : Repository) → r.State → MemoryRecord → MemoryRecord → Type 0
Sanitized r s given source =
    (source.memory_id ≡ given.memory_id)
    × (source.user_id ≡ given.user_id)
    × (source.tenant_id ≡ given.tenant_id)
    × (source.content ≡ given.content)
    × (source.evidence_refs ≡ given.evidence_refs)
    × (source.entities ≡ given.entities)
    × All (Linked r s source) source.supersedes

pub Sanitized-sanitize_source_supersedes :
    (r : Repository) (self : EtecConsolidator) (s : r.State) (given : MemoryRecord)
    → Ensures (Sanitized r s given) (sanitize_source_supersedes r self s given)
unfolding sanitize_source_supersedes is_verified
Sanitized-sanitize_source_supersedes r self s given =
    Ensures-bind (Sanitized r s given) (verified_ids r s given (unique_uuids given.supersedes)) _
      λ verified ran.
        let linked : All (Linked r s given) verified =
          ensured (All (Linked r s given)) _ verified
            (Linked-verified_ids r s given (unique_uuids given.supersedes)) ran in
        elim (Bool-cases (same_ids verified given.supersedes)) [
          | inl same ↦ rw same (
            refl,
            refl,
            refl,
            refl,
            refl,
            refl,
            subst (All (Linked r s given)) (same_ids_eq verified given.supersedes same) linked,
          )
          | inr differ ↦ rw differ (
              Ensures-of (Sanitized r s given) _ λ source done.
                let same = ((model_validate_iff self.platform.casefold _ source).0 done).1 in
                rw same (refl, refl, refl, refl, refl, refl, linked))
        ]
