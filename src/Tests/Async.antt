-- ===== src/Tests/Async.antt =====
-- The theorems on the asynchronous repository and service at concrete inputs.
use evoeventmem.Prelude.{
  ◌≡◌, refl, ℕ, true, false, none, some, [], ◌∷◌, List, Option, nat_eq, find, select, take,
  contains,
}
use evoeventmem.Prelude.Dict
use evoeventmem.Prelude.Sort.{sort}
use evoeventmem.Float.Signed.{Signed, plus}
use evoeventmem.Result.{ok, err}
use evoeventmem.Domain.Text.{normalize_memory_content, split}
use evoeventmem.Domain.Models.{MemoryRecord, linked_ids}
use evoeventmem.Rules.Identity.{legacy_write_identity}
use evoeventmem.Rules.Events.{apply_forget}
use evoeventmem.Rules.Scope.{RequestScope, scope_matches, scope_matches_memory}
use evoeventmem.Async.Types.{EmbeddingVector, SearchHit, SearchVector, active_only, all, is_blank}
use evoeventmem.Async.Store
use evoeventmem.Async.Store.{AsyncStore, create, stored, check_vector}
use evoeventmem.Async.Store.Invariant.{
  Reached, created, called, adds, IsConsistent, Reached-IsConsistent,
}
use evoeventmem.Async.Store.Laws.{repository, laws}
use evoeventmem.Async.Store.Closed.{closed_error, close_raises}
use evoeventmem.Async.Service
use evoeventmem.Async.Service.{AsyncMemoryService, AsyncEmbeddingModel, embed_document}
use evoeventmem.Async.Service.Write.{Written, write_async_lem}
use evoeventmem.Async.Service.Forget.{Forgets, Succeeds, forget_async_lem, forget-Succeeds}
use evoeventmem.Async.Service.Reads.{Found, Explained, search_async_lem, explain_async_lem}
use evoeventmem.Service.Single.{MemoryExplainResult}
use evoeventmem.Service.Search as TokenSearch
use evoeventmem.Tests.Samples.{platform, tea, coffee}

abbrev vector : EmbeddingVector
vector = record { values = 0 ∷ []; model_id = "m"; dimension = 1 }

abbrev similar : List ℕ → List ℕ → Signed
similar left right = plus 0

abbrev service : AsyncMemoryService
service = record {
  platform = platform;
  embedding = some (record { embed_query = λ text. ok vector; embed_document = λ text. ok vector });
  token_overlap_policy = true;
}

abbrev ada : RequestScope
ada = record { tenant_id = "acme"; user_id = "ada"; session_id = none }

-- Another user of the tenant.
abbrev bob : RequestScope
bob = record ada { user_id = "bob" }

abbrev empty : AsyncStore
empty = record {
  model_id = "m";
  dimension = 1;
  schema_version = "memory.v1";
  items = [];
  vectors = [];
  closed = false;
}

abbrev one_item : AsyncStore
one_item = stored empty tea vector

program : Unit {0}
unfolding create is_blank split Store.add Store.get Store.update Store.check_vector
    Store.get_with_vector Store.with_vector Store.in_scope_only Store.matches_scope Store.list
    Store.find_by_normalized_content Service.write Service.add_new Service.write_unless_duplicate
    Service.embed_document Service.forget Service.update_visible Service.explain Service.search
    Service.search_token_overlap scope_matches scope_matches_memory normalize_memory_content
    legacy_write_identity apply_forget Dict.get Dict.put Dict.values find select
program = tt

creates : create "m" 1 "memory.v1" ≡ ok empty
unfolding program
creates = refl

adds_tea : Store.add empty ada tea vector ≡ ok (one_item, tea)
unfolding program
adds_tea = refl

reached : Reached one_item
reached = called (created "m" 1 "memory.v1" creates) (adds ada tea tea vector adds_tea)

Reached-IsConsistent_example : IsConsistent one_item
Reached-IsConsistent_example = Reached-IsConsistent reached

writes : Service.write service (repository similar) empty ada tea ≡ ok (one_item, tea)
unfolding program
writes = refl

write_async_lem_example : Written service ada tea [] ((1, tea) ∷ []) tea
unfolding program
write_async_lem_example =
    write_async_lem service (repository similar) (laws similar) ada tea empty one_item tea writes

-- Another user's record under the same id.
abbrev bobs : MemoryRecord
bobs = record coffee { memory_id = 1; user_id = "bob" }

forget-Succeeds_example : Succeeds service similar ada 1 none 50 60 one_item
forget-Succeeds_example = forget-Succeeds service similar ada 1 none 50 60 one_item reached refl

abbrev forgotten : MemoryRecord
forgotten = record (apply_forget platform tea 50 none) { updated_at = 60 }

forgets :
    Service.forget service (repository similar) one_item ada 1 none 50 60
    ≡ ok (stored one_item forgotten vector, some forgotten)
unfolding program
forgets = refl

forget_async_lem_example :
    Forgets service
      (repository similar)
      (laws similar)
      ada
      1
      none
      50
      60
      one_item.items
      (stored one_item forgotten vector).items
      (some forgotten)
forget_async_lem_example =
    forget_async_lem service (repository similar) (laws similar) ada 1 one_item
      (stored one_item forgotten vector) none 50 60 (some forgotten) forgets

abbrev by_vector : SearchVector
by_vector = record {
  query = vector;
  scope = ada;
  limit = record { state = active_only; max_results = 3 };
}

close_raises_example :
    (Store.add (Store.close one_item) ada coffee vector ≡ err closed_error)
    × (Store.get (Store.close one_item) ada 1 ≡ err closed_error)
    × (Store.get_with_vector (Store.close one_item) ada 1 ≡ err closed_error)
    × (Store.update (Store.close one_item) ada coffee vector 5 ≡ err closed_error)
    × (Store.list (Store.close one_item) ada (record { limit = 5; status = all })
        ≡ err closed_error)
    × (Store.find_by_normalized_content (Store.close one_item) ada "likes tea" ≡ err closed_error)
    × (Store.search_vector similar (Store.close one_item) by_vector ≡ err closed_error)
    × (Store.ping (Store.close one_item) ≡ err closed_error)
    × (Store.close (Store.close one_item) ≡ Store.close one_item)
close_raises_example =
    close_raises similar one_item ada coffee vector 1 5 (record { limit = 5; status = all })
      "likes tea" by_vector

abbrev found : List SearchHit
found = Service.overlap_hit (TokenSearch.hit platform "tea" tea) ∷ []

searches : Service.search service (repository similar) one_item ada "tea" 5 ≡ ok found
unfolding program take sort TokenSearch.hit TokenSearch.score split
searches = refl

search_async_lem_example : Found service (repository similar) (laws similar) one_item ada 5 found
search_async_lem_example =
    search_async_lem service (repository similar) (laws similar) one_item ada "tea" 5 found searches

abbrev explained : Option MemoryExplainResult
explained = some (record { memory = tea; related = [] })

explains : Service.explain service (repository similar) one_item ada 1 ≡ ok explained
unfolding program sort take contains linked_ids
explains = refl

explain_async_lem_example :
    Explained service (repository similar) (laws similar) one_item ada 1 explained
explain_async_lem_example =
    explain_async_lem service (repository similar) (laws similar) one_item ada 1 explained explains
