-- ===== src/Etec/Copy/Kept.antt =====
-- What the records that a consolidation stores for the source keep of it.
use mathlib.Core.Path.{subst}
use evoeventmem.Prelude.{ℕ, ◌≡◌, refl, sym, ◌∙◌, List, ◌++◌, nat_eq, string_eq, option_eq, pair_eq}
use evoeventmem.Result.{Ensures, Ensures-bind, Ensures-of}
use evoeventmem.Domain.Models.{MemoryRecord}
use evoeventmem.Domain.Models.Contract.{model_validate_iff}
use evoeventmem.Etec.Types.{EtecConsolidator, EtecDecision, ConsolidationAction}
use evoeventmem.Etec.Times.{supersession_cutoff}
use evoeventmem.Etec.Math.{evidence_key}
use evoeventmem.Etec.Math.Unique.{OneEach}
use evoeventmem.Etec.Copy.{validated, merge_memory, store_superseded_memory, store_new_memory}
use evoeventmem.Etec.Copy.Scoped.{InScope}
use evoeventmem.Etec.Copy.Merged.{Combines, merge_memory-Merged}

-- The record under the id of the source, with its content, evidence and entities.
abbrev pub IsSource : MemoryRecord → MemoryRecord → Type 0
IsSource source m =
    (m.memory_id ≡ source.memory_id)
    × (m.content ≡ source.content)
    × (m.evidence_refs ≡ source.evidence_refs)
    × (m.entities ≡ source.entities)

-- The record under the id of a target of the scope, with the contents and the evidence of both.
abbrev pub Joins : EtecConsolidator → MemoryRecord → MemoryRecord → Type 0
Joins self source m =
    (target : MemoryRecord) × InScope source target
    × (m.memory_id ≡ target.memory_id)
    × Combines self target.content source.content m.content
    × OneEach evidence_key (target.evidence_refs ++ source.evidence_refs) m.evidence_refs

-- What an action stores for the source.
abbrev pub Stores : EtecConsolidator → ConsolidationAction → MemoryRecord → MemoryRecord → Type 0
Stores self ConsolidationAction.add source m = IsSource source m
Stores self ConsolidationAction.supersede source m = IsSource source m
Stores self ConsolidationAction.merge source m = Joins self source m
Stores self ConsolidationAction.reject source m = ⊥

pub Stores-action :
    (self : EtecConsolidator) (action action' : ConsolidationAction) (source m : MemoryRecord)
    → action ≡ action'
    → Stores self action' source m
    → Stores self action source m
Stores-action self action action' source m same h = subst (λ a. Stores self a source m) (sym same) h

module _ (self : EtecConsolidator) (source : MemoryRecord) where
  IsSource-validated :
      (copy : MemoryRecord) → IsSource source copy → Ensures (IsSource source) (validated self copy)
  IsSource-validated copy h = Ensures-of (IsSource source) (validated self copy) λ m done.
      let same = ((model_validate_iff self.platform.casefold copy m).0 done).1 in rw same h

  pub IsSource-store_superseded_memory :
      (other : MemoryRecord) (decision : EtecDecision) (ids : List ℕ) (now : ℕ)
      → Ensures (IsSource source) (store_superseded_memory self source other decision ids now)
  unfolding store_superseded_memory
  IsSource-store_superseded_memory other decision ids now =
      Ensures-bind (IsSource source) (supersession_cutoff other source) _
        λ cutoff _. IsSource-validated _ (refl, refl, refl, refl)

  pub IsSource-store_new_memory :
      (decision : EtecDecision) (ids : List ℕ) (now : ℕ)
      → Ensures (IsSource source) (store_new_memory self source decision ids now)
  unfolding store_new_memory
  IsSource-store_new_memory decision ids now = IsSource-validated _ (refl, refl, refl, refl)

  pub Joins-merge_memory :
      (target : MemoryRecord) (decision : EtecDecision) (now : ℕ)
      → InScope source target
      → Ensures (Joins self source) (merge_memory self target source decision now)
  Joins-merge_memory target decision now scoped =
      Ensures-of (Joins self source) (merge_memory self target source decision now) λ m ran.
        let (_, same_id, _, evidence, _, _, content, _, _, _, _, _) =
          merge_memory-Merged self target source m decision now ran in
        (target, scoped, same_id, content, evidence)

-- What the action stores does not depend on the links of the source.
pub Stores-of_same :
    (self : EtecConsolidator) (action : ConsolidationAction) (given source m : MemoryRecord)
    → source.user_id ≡ given.user_id
    → source.tenant_id ≡ given.tenant_id
    → IsSource given source
    → Stores self action source m
    → Stores self action given m
Stores-of_same self ConsolidationAction.add given source m u t (i, c, e, n) (i', c', e', n') =
    (i' ∙ i, c' ∙ c, e' ∙ e, n' ∙ n)
Stores-of_same self ConsolidationAction.supersede given source m u t (i, c, e, n) (i', c', e', n') =
    (i' ∙ i, c' ∙ c, e' ∙ e, n' ∙ n)
Stores-of_same self ConsolidationAction.merge given source m u t (i, c, e, n)
      (target, scoped, same_id, content, evidence) =
    (
      target,
      (scoped.0 ∙ u, scoped.1 ∙ t),
      same_id,
      subst (λ text. Combines self target.content text m.content) c content,
      subst (λ refs. OneEach evidence_key (target.evidence_refs ++ refs) m.evidence_refs) e
          evidence,
    )
Stores-of_same self ConsolidationAction.reject given source m u t same h = h
