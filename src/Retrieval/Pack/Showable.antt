-- ===== src/Retrieval/Pack/Showable.antt =====
-- The packing of src/evoeventmem/retrieval.py after its classification.
use evoeventmem.Prelude.{
  String, ℕ, zero, suc, Bool, true, false, none, some, List, [], ◌∷◌, All, All-append,
  if◌then◌else◌,
}
use evoeventmem.Prelude.Sort.{All-sort}
use evoeventmem.Etec.Types.{QueryIntent}
use evoeventmem.Retrieval.Types.{EvidencePolicy, ScoredMemory}
use evoeventmem.Retrieval.Classify.{classify_memories}
use evoeventmem.Retrieval.Classify.Eligible.{IsShowable, Sorted-classify_memories}
use evoeventmem.Retrieval.Pack.{
  RetrievalHarness, PackState, Taken, skip, choose, take_best, fits, best_lt, pool_lt, packed,
  continue, pack_from, pack, initial, both_phases, pack_items,
}

module _ (P : ScoredMemory → Type 0) where
  abbrev TakenAll : Taken → Type 0
  TakenAll none = Unit
  TakenAll (some (best, rest)) = P best × All P rest

  TakenAll-choose :
      (lt : ScoredMemory → ScoredMemory → Bool) (item : ScoredMemory) (items : List ScoredMemory)
      (taken : Taken)
      → P item
      → All P items
      → TakenAll taken
      → TakenAll (choose lt item items taken)
  TakenAll-choose lt item items none p h t = (p, h)
  TakenAll-choose lt item items (some (best, rest)) p h (q, k) =
      elim (lt item best)
        as (λ b. TakenAll (if b then some (best, item ∷ rest) else some (item, items))) [
          | true ↦ (q, (p, k))
          | false ↦ (p, h)
        ]

  TakenAll-skip :
      (item : ScoredMemory) (taken : Taken) → P item → TakenAll taken → TakenAll (skip item taken)
  TakenAll-skip item none p t = tt
  TakenAll-skip item (some (best, rest)) p (q, k) = (q, (p, k))

  TakenAll-take_best :
      (test : ScoredMemory → Bool) (lt : ScoredMemory → ScoredMemory → Bool)
      (items : List ScoredMemory)
      → All P items
      → TakenAll (take_best test lt items)
  unfolding take_best
  TakenAll-take_best test lt [] h = tt
  TakenAll-take_best test lt (item ∷ items) h =
      let taken = take_best test lt items in
      let rest = TakenAll-take_best test lt items h.1 in
      elim (test item)
        as (λ b. TakenAll (if b then choose lt item items taken else skip item taken)) [
          | true ↦ TakenAll-choose lt item items taken h.0 h.1 rest
          | false ↦ TakenAll-skip item taken h.0 rest
        ]

  module _ (self : RetrievalHarness) (query : String) (budget : ℕ) (policy : EvidencePolicy) where
    abbrev Holds : PackState → Type 0
    Holds s = All P s.selected × All P s.pool

    Holds-continue :
        (loop : PackState → PackState) (s : PackState) (taken : Taken)
        → ((s' : PackState) → Holds s' → Holds (loop s'))
        → TakenAll taken
        → Holds s
        → Holds (continue self query budget policy loop s taken)
    Holds-continue loop s none keeps t h = h
    Holds-continue loop s (some (best, rest)) keeps (p, k) h =
        keeps (packed self query budget policy s best rest)
          (All-append P s.selected (best ∷ []) h.0 (p, tt), k)

    Holds-pack_from :
        (fuel : ℕ) (allow : Bool) (s : PackState)
        → Holds s
        → Holds (pack_from self query budget policy fuel allow s)
    unfolding pack_from
    Holds-pack_from zero allow s h = h
    Holds-pack_from (suc fuel) allow s h =
        Holds-continue (pack_from self query budget policy fuel allow) s
          (take_best (fits self query budget policy allow s) (best_lt self query budget policy s)
            s.pool)
          (Holds-pack_from fuel allow)
          (TakenAll-take_best (fits self query budget policy allow s)
            (best_lt self query budget policy s) s.pool h.1)
          h

    pub All-pack_items :
        (eligible : List ScoredMemory)
        → All P eligible
        → All P (pack_items self query budget policy eligible).0
    unfolding pack_items both_phases pack
    All-pack_items eligible h =
        let start = initial self query budget policy eligible in
        (Holds-pack_from _ true (pack self query budget policy false start)
          (Holds-pack_from _ false start (tt, All-sort (pool_lt self query) P eligible h))).0

-- Whatever memories have been scored, what is packed after their classification is active, or superseded
-- where the intent is historical, and has evidence and a positive score: no deleted or rejected memory
-- reaches the reader.
pub packed-IsShowable :
    (self : RetrievalHarness) (query : String) (budget : ℕ) (policy : EvidencePolicy)
    (intent : QueryIntent) (scored : List ScoredMemory)
    → All
        (IsShowable intent)
        (pack_items self query budget policy (classify_memories intent scored).0).0
packed-IsShowable self query budget policy intent scored =
    All-pack_items (IsShowable intent) self query budget policy (classify_memories intent scored).0
      (Sorted-classify_memories intent scored).0
