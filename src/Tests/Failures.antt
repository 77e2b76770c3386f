-- ===== src/Tests/Failures.antt =====
-- The theorem on reason codes at a concrete response.
use evoeventmem.Prelude.{◌≡◌, true, some, contains, string_eq}
use evoeventmem.Failures.{known_reasons, reason_for_status}
use evoeventmem.Failures.Known.{reason_for_status_again}

reason_for_status_again_example :
    (contains (reason_for_status 404 (some "no such record")) known_reasons ≡ true)
    × (reason_for_status 500 (some (reason_for_status 404 (some "no such record")))
        ≡ reason_for_status 404 (some "no such record"))
reason_for_status_again_example = reason_for_status_again 404 500 (some "no such record")
