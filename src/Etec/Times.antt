-- ===== src/Etec/Times.antt =====
-- Effective times and validity intervals. A time is the number of microseconds since the year 1.
use evoeventmem.Prelude.{ℕ, Bool, true, Option, none, some, ◌&&◌, ltb, leb, max, min, if◌then◌else◌}
use evoeventmem.Result.{Result, ok, err, value_error, ◌>>=◌}
use evoeventmem.Domain.Models.{MemoryRecord}

-- `datetime.max`
abbrev pub datetime_max : ℕ
datetime_max = 315537897599999999

-- `left or right`
abbrev pub or_else : Option ℕ → Option ℕ → Option ℕ
or_else none right = right
or_else (some left) right = some left

unfoldable pub fact_effective_time : MemoryRecord → Option ℕ
fact_effective_time memory = or_else memory.valid_from memory.event_time

abbrev pub require_time : Option ℕ → Result ℕ
require_time none = err (value_error "fact effective time is required")
require_time (some time) = ok time

unfoldable pub require_fact_effective_time : MemoryRecord → Result ℕ
require_fact_effective_time memory = require_time (fact_effective_time memory)

-- `_interval`: the start and the end, of the validity or else of the event.
abbrev interval_of : Option ℕ → Option ℕ → Option ℕ → Option ℕ × Option ℕ
interval_of (some from) to event = (some from, to)
interval_of none to (some event) = (some event, some event)
interval_of none to none = (none, to)

unfoldable pub interval : MemoryRecord → Option ℕ × Option ℕ
interval memory = interval_of memory.valid_from memory.valid_to memory.event_time

abbrev pub stop_of : Option ℕ → ℕ
stop_of none = datetime_max
stop_of (some stop) = stop

unfoldable pub intervals_overlap : ℕ → Option ℕ → ℕ → Option ℕ → Bool
intervals_overlap left_start left_end right_start right_end =
    leb left_start (stop_of right_end) && leb right_start (stop_of left_end)

-- Whether the intervals of two memories overlap; none where a start is not known.
abbrev compare_intervals : Option ℕ × Option ℕ → Option ℕ × Option ℕ → Option Bool
compare_intervals (some source_start, source_end) (some target_start, target_end) =
    some (intervals_overlap source_start source_end target_start target_end)
compare_intervals _ _ = none

unfoldable pub overlapping : MemoryRecord → MemoryRecord → Option Bool
overlapping source target = compare_intervals (interval source) (interval target)

-- `_merge_temporally_compatible`
unfoldable pub merge_temporally_compatible : MemoryRecord → MemoryRecord → Bool
merge_temporally_compatible source target = elim (overlapping source target) [
  | none ↦ true
  | some overlap ↦ overlap
]

unfoldable pub earliest_time : Option ℕ → Option ℕ → Option ℕ
earliest_time none right = right
earliest_time (some left) none = some left
earliest_time (some left) (some right) = some (min left right)

unfoldable pub latest_time : Option ℕ → Option ℕ → Option ℕ
latest_time (some left) (some right) = some (max left right)
latest_time _ _ = none

-- The cutoff is the effective time of the superseder, but not before the target's own start.
abbrev pub not_before : Option ℕ → ℕ → ℕ
not_before none cutoff = cutoff
not_before (some start) cutoff = if ltb cutoff start then start else cutoff

unfoldable pub supersession_cutoff : MemoryRecord → MemoryRecord → Result ℕ
supersession_cutoff source target = do
  cutoff ← require_fact_effective_time source
  ok (not_before (fact_effective_time target) cutoff)
