-- ===== src/Retrieval/Classify/Eligible.antt =====
-- What `_classify_memories` of src/evoeventmem/retrieval.py lets through.
use mathlib.Core.List.{Memᴰ}
use evoeventmem.Prelude.{
  count, map, All-imp, ℕ, ◌+◌, ◌≡◌, ◌<◌, refl, true, false, Option, none, some, List, [], ◌∷◌, All,
  not, ◌&&◌, leb, length, ◌==◌, nat_eq, arith, inl, inr, ◌⊎◌,
}
use evoeventmem.Domain.Models.{MemoryStatus, active, superseded, rejected, deleted, is_active}
use evoeventmem.Etec.Types.{QueryIntent}
use evoeventmem.Retrieval.Types.{ScoredMemory, ExclusionRecord, is_historical}
use evoeventmem.Retrieval.Classify.{is_superseded, exclusion, sorted_out, classify_memories}

module _ (intent : QueryIntent) where
  -- A memory that may be shown for the intent: active, or superseded under a historical intent, with
  -- evidence and a positive score.
  abbrev pub IsShowable : ScoredMemory → Type 0
  IsShowable item =
      ((item.memory.status ≡ active)
        ⊎ ((item.memory.status ≡ superseded) × (is_historical intent ≡ true)))
      × (0 < length item.evidence_refs)
      × (0 < item.final_score)

  status_cases :
      (status : MemoryStatus)
      → (not (is_active status) && not (is_superseded status)) ≡ false
      → (is_superseded status && not (is_historical intent)) ≡ false
      → (status ≡ active) ⊎ ((status ≡ superseded) × (is_historical intent ≡ true))
  status_cases active h k = inl refl
  status_cases superseded h k = inr (refl, ground arith)
  status_cases rejected h k = absurd (cc)
  status_cases deleted h k = absurd (cc)

  IsShowable-exclusion : (item : ScoredMemory) → exclusion intent item ≡ none → IsShowable item
  unfolding exclusion
  IsShowable-exclusion item h =
      let status = item.memory.status in
      let current : (not (is_active status) && not (is_superseded status)) ≡ false = ground arith in
      let timely : (is_superseded status && not (is_historical intent)) ≡ false = ground arith in
      let evidence : (length item.evidence_refs == 0) ≡ false = ground arith in
      let positive : leb item.final_score 0 ≡ false = ground arith in
      (status_cases status current timely, ground arith, ground arith)

  exclusion-IsShowable : (item : ScoredMemory) → IsShowable item → exclusion intent item ≡ none
  unfolding exclusion
  exclusion-IsShowable item (inl current, evidence, positive) = rw current (ground arith)
  exclusion-IsShowable item (inr (past, historical), evidence, positive) = rw past (ground arith)

  excluded_id :
      (item : ScoredMemory) (e : ExclusionRecord)
      → exclusion intent item ≡ some e
      → e.memory_id ≡ item.memory.memory_id
  unfolding exclusion
  excluded_id item e h = ground arith

  -- An exclusion is of one of the items, which may not be shown.
  abbrev pub Refuses : List ScoredMemory → ExclusionRecord → Type 0
  Refuses items e =
      (item : ScoredMemory) × Memᴰ item items
      × (e.memory_id ≡ item.memory.memory_id)
      × (¬ IsShowable item)

  Refuses-tail :
      (item : ScoredMemory) (items : List ScoredMemory) (e : ExclusionRecord)
      → Refuses items e
      → Refuses (item ∷ items) e
  Refuses-tail item items e (x, there, same, not_showable) =
      (x, Memᴰ.tail there, same, not_showable)

  abbrev pub memory_ids : List ScoredMemory → List ℕ
  memory_ids = map (λ item. item.memory.memory_id)

  abbrev pub excluded_ids : List ExclusionRecord → List ℕ
  excluded_ids = map (λ e. e.memory_id)

  -- Eligible items, exclusions with a cause, and each id as often as it is there.
  abbrev pub Sorted : List ScoredMemory → List ScoredMemory × List ExclusionRecord → Type 0
  Sorted items result =
      All IsShowable result.0
      × All (Refuses items) result.1
      × ((id : ℕ)
          → count id (memory_ids result.0) + count id (excluded_ids result.1)
            ≡ count id (memory_ids items))

  Sorted-sorted_out :
      (item : ScoredMemory) (items : List ScoredMemory) (o : Option ExclusionRecord)
      (result : List ScoredMemory × List ExclusionRecord)
      → exclusion intent item ≡ o
      → Sorted items result
      → Sorted (item ∷ items) (sorted_out item o result)
  unfolding count
  Sorted-sorted_out item items none result e (showable, refused, n) = (
    (IsShowable-exclusion item e, showable),
    All-imp (Refuses items) (Refuses (item ∷ items)) result.1 (Refuses-tail item items) refused,
    λ id. ground (arith, n id),
  )
  Sorted-sorted_out item items (some x) result e (showable, refused, n) =
      let same = excluded_id item x e in
      (
        showable,
        (
          (
            item,
            Memᴰ.head refl,
            same,
            λ may. absurd (let none_there = exclusion-IsShowable item may in cc),
          ),
          All-imp (Refuses items) (Refuses (item ∷ items)) result.1 (Refuses-tail item items)
              refused,
        ),
        λ id. ground (arith, n id, same),
      )

  -- Each scored memory is either eligible or excluded: among the eligible memories and the exclusions
  -- every id stands as often as among the scored ones. An eligible memory is active, or superseded under
  -- a historical intent, and has evidence and a positive score; the memory of an exclusion is a scored
  -- one that lacks one of these.
  pub Sorted-classify_memories :
      (items : List ScoredMemory) → Sorted items (classify_memories intent items)
  unfolding classify_memories count
  Sorted-classify_memories [] = (tt, tt, λ id. refl)
  Sorted-classify_memories (item ∷ items) =
      Sorted-sorted_out item items (exclusion intent item) (classify_memories intent items) refl
        (Sorted-classify_memories items)
