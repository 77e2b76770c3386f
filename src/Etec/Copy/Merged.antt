-- ===== src/Etec/Copy/Merged.antt =====
-- What a merged record keeps of both sides.
use evoeventmem.Prelude.{
  String, Bool, true, false, List, [], ◌∷◌, All, contains, contains-select, not, ◌&&◌, ◌==◌, ◌⊎◌,
  inl, inr, arith, Bool-cases, ap, sym, ◌∙◌, map, ◌+++◌, ℕ, ◌≡◌, refl, ◌++◌, nat_eq, string_eq,
  option_eq, pair_eq, max,
}
use evoeventmem.Result.{ok}
use evoeventmem.Domain.Models.{MemoryRecord, all_fields}
use evoeventmem.Domain.Models.Contract.{IsValid, model_validate_iff}
use evoeventmem.Etec.Types.{EtecConsolidator, EtecDecision}
use evoeventmem.Etec.Math.{evidence_key, unique_evidence, unique_uuids}
use evoeventmem.Etec.Math.Unique.{OneEach, unique_by-OneEach}
use evoeventmem.Etec.Keys.{same_fact_slot, entity_identity, unique_entities}
use evoeventmem.Etec.Times.{earliest_time, latest_time}
use evoeventmem.Etec.Copy.{
  merge_memory, merged_copy, is_subset, compose_merge_content, compose_merge_content_for_slot,
  merged_content, merged_ids,
}

-- Every token is among the others.
abbrev pub IsWithin : List String → List String → Type 0
IsWithin tokens others = All (λ token. contains token others ≡ true) tokens

is_subset-IsWithin : (left right : List String) → is_subset left right ≡ true → IsWithin left right
unfolding all_fields
is_subset-IsWithin [] right h = tt
is_subset-IsWithin (x ∷ xs) right h = (ground arith, is_subset-IsWithin xs right (ground arith))

-- One of two texts, where it has all the words of the other one, or both of them in one of the orders.
abbrev pub Combines : EtecConsolidator → String → String → String → Type 0
Combines self target source text =
    ((text ≡ target) × IsWithin (self.word_tokens source) (self.word_tokens target))
    ⊎ ((text ≡ source) × IsWithin (self.word_tokens target) (self.word_tokens source))
    ⊎ (text ≡ target +++ (" " +++ source))
    ⊎ (text ≡ source +++ (" " +++ target))

Combines-compose_merge_content_for_slot :
    (self : EtecConsolidator) (target source : String) (prefer_newer : Bool)
    → Combines self target source (compose_merge_content_for_slot self target source prefer_newer)
unfolding compose_merge_content_for_slot
Combines-compose_merge_content_for_slot self target source prefer_newer =
    let there = is_subset (self.word_tokens source) (self.word_tokens target) in
    let back = is_subset (self.word_tokens target) (self.word_tokens source) in
    elim (Bool-cases there) [
      | inl h ↦ rw h (inl (refl, is_subset-IsWithin _ _ h))
      | inr h ↦ rw h (elim (Bool-cases back) [
        | inl k ↦ rw k (inr (inl (refl, is_subset-IsWithin _ _ k)))
        | inr k ↦ rw k (elim (Bool-cases prefer_newer) [
          | inl newer ↦ rw newer (inr (inr (inr refl)))
          | inr older ↦ rw older (inr (inr (inl refl)))
        ])
      ])
    ]

-- The texts of different facts are joined as with no preference for the newer one.
compose_merge_content_eq :
    (self : EtecConsolidator) (target source : String)
    → compose_merge_content self target source
      ≡ compose_merge_content_for_slot self target source false
unfolding compose_merge_content compose_merge_content_for_slot
compose_merge_content_eq self target source = refl

Combines-merged_content :
    (self : EtecConsolidator) (target source : MemoryRecord)
    → Combines self target.content source.content (merged_content self target source)
Combines-merged_content self target source = elim (Bool-cases (same_fact_slot self source target)) [
  | inl same ↦
      rw same (Combines-compose_merge_content_for_slot self target.content source.content _)
  | inr differ ↦
      rw (differ, compose_merge_content_eq)
        (Combines-compose_merge_content_for_slot self target.content source.content false)
]

-- The ids that both records and the source give, without that of the target.
abbrev pub Derives : MemoryRecord → MemoryRecord → List ℕ → Type 0
Derives target source ids =
    (id : ℕ)
    → contains id ids ≡ (
        contains id (target.derived_from ++ source.derived_from ++ source.memory_id ∷ [])
        && not (id == target.memory_id))

map_same : (xs : List ℕ) → map (λ x. x) xs ≡ xs
map_same [] = refl
map_same (x ∷ xs) = ap (◌∷◌ x) (map_same xs)

contains-unique_uuids : (ids : List ℕ) (id : ℕ) → contains id (unique_uuids ids) ≡ contains id ids
unfolding unique_uuids
contains-unique_uuids ids id =
    ap (contains id) (sym (map_same (unique_uuids ids)))
    ∙ (unique_by-OneEach (λ (i : ℕ). i) ids).1 id
    ∙ ap (contains id) (map_same ids)

Derives-merged_ids :
    (self : EtecConsolidator) (target source : MemoryRecord)
    → Derives target source (merged_ids self target source)
unfolding merged_ids
Derives-merged_ids self target source id = rw (contains-select, contains-unique_uuids) refl

abbrev pub Merged : EtecConsolidator → MemoryRecord → MemoryRecord → MemoryRecord → Type 0
Merged self target source m =
    IsValid self.platform.casefold m
    × (m.memory_id ≡ target.memory_id)
    × (m.status ≡ target.status)
    × OneEach evidence_key (target.evidence_refs ++ source.evidence_refs) m.evidence_refs
    × OneEach (entity_identity self) (target.entities ++ source.entities) m.entities
    × OneEach (λ id. id) (target.supersedes ++ source.supersedes) m.supersedes
    × Combines self target.content source.content m.content
    × Derives target source m.derived_from
    × (m.relations ≡ target.relations ++ source.relations)
    × (m.confidence ≡ max target.confidence source.confidence)
    × (m.valid_from ≡ earliest_time target.valid_from source.valid_from)
    × (m.valid_to ≡ latest_time target.valid_to source.valid_to)

-- A merge that succeeds returns a valid record under the target's id and in its state. For each key of
-- the evidence of both sides it has one of these references, for each identity of an entity one of these
-- entities, and each superseded id of both once. Its content is that of one side, where this has all
-- the words of the other, or both one after the other. It is derived from what both are derived from and
-- from the source, but not from the target itself. It has the relations of both, target first, the
-- greater confidence, the earlier start and the later end.
pub merge_memory-Merged :
    (self : EtecConsolidator) (target source m : MemoryRecord) (decision : EtecDecision) (now : ℕ)
    → merge_memory self target source decision now ≡ ok m
    → Merged self target source m
unfolding merge_memory merged_copy unique_evidence unique_entities unique_uuids
merge_memory-Merged self target source m decision now ran =
    let (valid, same) =
      (model_validate_iff self.platform.casefold (merged_copy self target source decision now) m).0
        ran in
    (
      valid,
      rw same refl,
      rw same refl,
      rw same (unique_by-OneEach evidence_key (target.evidence_refs ++ source.evidence_refs)),
      rw same (unique_by-OneEach (entity_identity self) (target.entities ++ source.entities)),
      rw same (unique_by-OneEach (λ id. id) (target.supersedes ++ source.supersedes)),
      rw same (Combines-merged_content self target source),
      rw same (Derives-merged_ids self target source),
      rw same refl,
      rw same refl,
      rw same refl,
      rw same refl,
    )
