-- ===== src/Tests/Services.antt =====
-- The theorems on the memory service at concrete inputs.
use evoeventmem.Prelude.{
  count, map, String, ◌↔◌, string_eq, ◌+◌, ◌≡◌, refl, none, some, false, ◌^◌, [], ◌∷◌, List, nat_eq,
  arith, length, select, find,
}
use evoeventmem.Prelude.Dict
use evoeventmem.Result.{ok, Ensures}
use evoeventmem.Domain.Text.{normalize_memory_content}
use evoeventmem.Rules.Scope.{in_scope}
use evoeventmem.Rules.Identity.{legacy_write_identity}
use evoeventmem.Rules.Events.{apply_forget}
use evoeventmem.Repository.Port.{transaction}
use evoeventmem.Repository.InMemory.{
  repository, laws, add, get, update, list_for_user, begin, commit,
}
use evoeventmem.Service.Single.{
  explain, forget, write, write_in, add_unless_duplicate, reuse, visible,
}
use evoeventmem.Service.Single.Write.{Written, write_lem, get-write, write_again, identity-write}
use evoeventmem.Service.Single.Scoped.{Explained, Hidden, explain_lem, Forgets, forget_lem, IsKeyed}
use evoeventmem.Service.Search.{SearchHit, score}
use evoeventmem.Service.Batch.Types.{WriteRequest, Candidate}
use evoeventmem.Service.Batch.Run.{Service, write_extracted_events}
use evoeventmem.Service.Batch.Counts.{decisions-metrics}
use evoeventmem.Service.Batch.Atomic.{Atomic, write_extracted_events-Atomic}
use evoeventmem.Tests.Samples.{platform, tea, coffee, one_item, two_items}

program : Unit {0}
unfolding add get update list_for_user begin commit transaction write write_in add_unless_duplicate
    reuse Dict.get Dict.put Dict.values select find
program = tt

adds : write platform repository one_item coffee ≡ ok (two_items, coffee)
unfolding program
adds = refl

keeps : write platform repository two_items coffee ≡ ok (two_items, coffee)
unfolding program legacy_write_identity normalize_memory_content
keeps = refl

write_lem_example : Written platform coffee one_item.items two_items.items coffee
write_lem_example = write_lem platform repository laws coffee one_item two_items coffee adds

get-write_example : Dict.get two_items.items 1 ≡ some tea
unfolding Dict.get
get-write_example =
    get-write platform repository laws coffee one_item two_items coffee tea 1 adds refl

write_again_example : (coffee ≡ coffee) × (two_items.items ≡ two_items.items)
write_again_example =
    write_again platform repository laws coffee one_item two_items two_items coffee coffee adds
      keeps

identity-write_example :
    legacy_write_identity platform coffee ≡ legacy_write_identity platform coffee
unfolding normalize_memory_content Dict.values
identity-write_example =
    identity-write platform repository laws coffee one_item two_items coffee refl (refl, tt) adds

looked_up : repository.get two_items 1 ≡ ok (some tea)
unfolding program
looked_up = refl

-- The tea is Ada's.
hides : explain repository two_items 1 (some "bob") none ≡ ok none
unfolding program explain visible in_scope
hides = refl

explain_lem_example :
    ((explain repository two_items 1 (some "bob") none ≡ ok none)
      ↔ Hidden (some tea) (some "bob") none)
    × Ensures
        (Explained repository laws two_items 1 (some "bob") none)
        (explain repository two_items 1 (some "bob") none)
explain_lem_example = explain_lem repository laws two_items 1 (some "bob") none (some tea) looked_up

one_item-IsKeyed : IsKeyed one_item.items
unfolding Dict.get
one_item-IsKeyed id m h = ground arith

forgets :
    forget platform repository one_item 1 (some "ada") none none 50
    ≡ ok (
      record { items = (1, apply_forget platform tea 50 none) ∷ []; transaction_active = false },
      some (apply_forget platform tea 50 none),
    )
unfolding program forget visible in_scope apply_forget
forgets = refl

forget_lem_example :
    Forgets platform one_item.items
      ((1, apply_forget platform tea 50 none) ∷ [])
      1
      (some "ada")
      none
      none
      50
      (some (apply_forget platform tea 50 none))
forget_lem_example =
    forget_lem repository laws platform one_item _ 1 (some "ada") none none 50 _ one_item-IsKeyed
      forgets

abbrev found : List SearchHit
found = record { memory = coffee; score = 2 ^ 1073; reason = "starter token-overlap baseline" } ∷ []

abbrev candidate : Candidate
candidate = record {
  candidate_id = "c1";
  memory = coffee;
  extractor_version = "rules.v1";
  raw_observations = [];
  raw_output = none;
  metadata = [];
}

abbrev request : WriteRequest
request = record {
  request_id = "r1";
  candidates = candidate ∷ record candidate { candidate_id = "" } ∷ [];
  raw_observations = [];
  metadata = [];
}

abbrev service : Service repository
service = record { repository = one_item; write_decisions = [] }

decisions-metrics_example :
    ((id : String)
      → count id (
          map
            (λ d. d.candidate_id)
            (write_extracted_events platform repository service request).1.decisions)
        ≡ count id ("c1" ∷ "" ∷ []))
    × (length (write_extracted_events platform repository service request).1.decisions ≡ 2)
    × ((write_extracted_events platform repository service request).1.metrics.requested_candidates
        ≡ 2)
    × ((write_extracted_events platform repository service request).1.metrics.accepted
          + (write_extracted_events platform repository service request).1.metrics.duplicates
          + (write_extracted_events platform repository service request).1.metrics.rejected
        ≡ (write_extracted_events platform repository service
            request).1.metrics.requested_candidates)
decisions-metrics_example = decisions-metrics platform repository service request

write_extracted_events-Atomic_example :
    Atomic one_item.items
      (write_extracted_events platform repository service request).0.repository.items
      (write_extracted_events platform repository service request).1.accepted_memories
      (write_extracted_events platform repository service request).1.decisions
write_extracted_events-Atomic_example =
    write_extracted_events-Atomic platform repository laws service request
