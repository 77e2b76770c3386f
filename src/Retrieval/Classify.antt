-- ===== src/Retrieval/Classify.antt =====
-- `_classify_memories` of src/evoeventmem/retrieval.py.
pub mod Eligible
use evoeventmem.Prelude.{
  ℕ, Bool, true, false, Option, none, some, List, [], ◌∷◌, not, ◌&&◌, leb, length, ◌==◌, nat_eq,
  if◌then◌else◌,
}
use evoeventmem.Domain.Models.{MemoryStatus, active, superseded, EvidenceRef, is_active}
use evoeventmem.Etec.Types.{QueryIntent}
use evoeventmem.Retrieval.Types.{
  ScoredMemory, ExclusionRecord, ExclusionReason, ExclusionDetails, inactive_status_excluded,
  superseded_memory_not_current_fact, missing_evidence_refs, zero_final_score, no_details,
  of_status, of_superseded_by, of_final_score, is_historical,
}

abbrev pub is_superseded : MemoryStatus → Bool
is_superseded superseded = true
is_superseded _ = false

abbrev pub excluded : ScoredMemory → ExclusionReason → ExclusionDetails → Option ExclusionRecord
excluded item reason details =
    some (record { memory_id = item.memory.memory_id; reason = reason; details = details })

-- The exclusion of an item, if it is not eligible.
unfoldable pub exclusion : QueryIntent → ScoredMemory → Option ExclusionRecord
exclusion intent item =
    if not (is_active item.memory.status) && not (is_superseded item.memory.status)
    then excluded item inactive_status_excluded (of_status item.memory.status)
    else if is_superseded item.memory.status && not (is_historical intent)
    then excluded item superseded_memory_not_current_fact
        (of_superseded_by item.memory.superseded_by)
    else if length item.evidence_refs == 0
    then excluded item missing_evidence_refs no_details
    else if leb item.final_score 0
    then excluded item zero_final_score (of_final_score item.final_score)
    else none

abbrev pub sorted_out :
    ScoredMemory
    → Option ExclusionRecord
    → List ScoredMemory × List ExclusionRecord
    → List ScoredMemory × List ExclusionRecord
sorted_out item none (eligible, exclusions) = (item ∷ eligible, exclusions)
sorted_out item (some e) (eligible, exclusions) = (eligible, e ∷ exclusions)

-- `_classify_memories`
unfoldable pub classify_memories :
    QueryIntent → List ScoredMemory → List ScoredMemory × List ExclusionRecord
classify_memories intent [] = ([], [])
classify_memories intent (item ∷ items) =
    sorted_out item (exclusion intent item) (classify_memories intent items)
