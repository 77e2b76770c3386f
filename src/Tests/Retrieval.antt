-- ===== src/Tests/Retrieval.antt =====
-- The theorems on retrieval at concrete inputs.
use evoeventmem.Prelude.{ℕ, refl, any, none, some, true, false, [], ◌∷◌, List, All}
use evoeventmem.Float.{one}
use evoeventmem.Domain.Models.{MemoryRecord, MemoryStatus}
use evoeventmem.Domain.Text.{split}
use evoeventmem.Etec.Types.{QueryIntent}
use evoeventmem.Tokens.{DeterministicTokenEstimator}
use evoeventmem.Retrieval.Types.{
  ScoredMemory, constrained, Candidate, dense, temporal, before, QueryRoutingDecision,
}
use evoeventmem.Retrieval.Temporal.{interval_bounds, apply_temporal_constraint}
use evoeventmem.Retrieval.Temporal.InInterval.{CountsInside, apply_temporal_constraint_lem}
use evoeventmem.Retrieval.Classify.{classify_memories}
use evoeventmem.Retrieval.Classify.Eligible.{IsShowable, Sorted, Sorted-classify_memories}
use evoeventmem.Retrieval.Pack.{RetrievalHarness, pack_items}
use evoeventmem.Retrieval.Pack.Complete.{Packed, pack_items_lem}
use evoeventmem.Retrieval.Pack.Showable.{packed-IsShowable}
use evoeventmem.Tests.Samples.{platform, tea, coffee, message}

abbrev estimator : DeterministicTokenEstimator
estimator = record { name = "tokens"; version = "v1"; isalnum = λ c. true }

abbrev harness : RetrievalHarness
harness = record {
  platform = platform;
  int_str = λ n. "1";
  estimator = estimator;
  max_items_per_source = 4;
}

abbrev about_tea : ScoredMemory
about_tea = record {
  memory = tea;
  source_scores = [];
  final_score = one;
  historical = false;
  token_count = 2;
  evidence_refs = message ∷ [];
}

-- A record that has been forgotten.
abbrev forgotten : ScoredMemory
forgotten = record about_tea { memory = record coffee { status = MemoryStatus.deleted } }

abbrev items : List ScoredMemory
items = about_tea ∷ forgotten ∷ []

Sorted-classify_memories_example :
    Sorted QueryIntent.semantic items (classify_memories QueryIntent.semantic items)
Sorted-classify_memories_example = Sorted-classify_memories QueryIntent.semantic items

pack_items_lem_example :
    Packed harness "tea" 300 constrained
      (about_tea ∷ [])
      (pack_items harness "tea" 300 constrained (about_tea ∷ [])).0
      (pack_items harness "tea" 300 constrained (about_tea ∷ [])).1.1.1
pack_items_lem_example = pack_items_lem harness "tea" 300 constrained (about_tea ∷ [])

packed-IsShowable_example :
    All
      (IsShowable QueryIntent.semantic)
      (pack_items harness "tea" 300 constrained (classify_memories QueryIntent.semantic items).0).0
packed-IsShowable_example =
    packed-IsShowable harness "tea" 300 constrained QueryIntent.semantic items

abbrev dense_tea : Candidate
dense_tea = record {
  memory = tea;
  source = dense;
  raw_score = one;
  normalized_score = 0;
  reason = "dense-cosine-similarity";
}

abbrev temporal_tea : Candidate
temporal_tea = record dense_tea { source = temporal }

abbrev before_200 : QueryRoutingDecision
before_200 = record {
  query = "tea";
  intent = QueryIntent.temporal;
  temporal_constraint = record {
    operator = before;
    lower_bound_utc = none;
    upper_bound_utc = some 200;
  };
}

abbrev memory_of : ℕ → MemoryRecord
memory_of id = tea

apply_temporal_constraint_lem_example :
    All
      (CountsInside platform split
        (dense_tea ∷ temporal_tea ∷ [])
        before_200
        500
        memory_of
        none
        (some 200))
      (apply_temporal_constraint platform split (dense_tea ∷ temporal_tea ∷ []) before_200 500).0
unfolding interval_bounds any
apply_temporal_constraint_lem_example =
    apply_temporal_constraint_lem platform split (dense_tea ∷ temporal_tea ∷ []) before_200 500
      memory_of none (some 200) refl refl (refl, (refl, tt))
