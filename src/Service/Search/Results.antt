-- ===== src/Service/Search/Results.antt =====
-- What `search` of `MemoryService` returns.
use mathlib.Core.List.{Perm}
use evoeventmem.Prelude.{
  ℕ, ◌≤◌, ◌<◌, String, true, List, [], ◌++◌, ◌≡◌, ◌≢◌, ◌↔◌, ◌⊎◌, Option, All, length, select, ◌==◌,
  nat_eq, string_eq, option_eq,
}
use evoeventmem.Prelude.Sort.{IsSorted}
use evoeventmem.Prelude.Dict.{values}
use evoeventmem.Domain.Models.{MemoryRecord, deleted}
use evoeventmem.Domain.Order.{memory_order_key, tuple_lt}
use evoeventmem.Platform.{Platform}
use evoeventmem.Repository.Port.{Repository, RepositoryLaws}
use evoeventmem.Service.Search.{SearchHit, score, is_hit, hit_lt, hits}

module _ (p : Platform) where
  module _ (r : Repository) (laws : RepositoryLaws r) (s : r.State) (user query : String)
      (limit : ℕ) (tenant : Option String) where
    open laws use {contents}

    -- A hit shows a record of the user and the tenant that is not deleted, with its score, which is positive.
    abbrev Shown : SearchHit → Type 0
    Shown h =
        (h.memory.user_id ≡ user)
        × (h.memory.tenant_id ≡ tenant)
        × (h.memory.status ≢ deleted)
        × (h.score ≡ score p query h.memory)
        × (0 < h.score)

    -- All hits among the records of the user.
    abbrev matches : List SearchHit
    matches = hits p tenant query (select (λ m. m.user_id == user) (values (contents s)))

    -- A higher score, or at equal scores the smaller key of the records.
    abbrev Precedes : SearchHit → SearchHit → Type 0
    Precedes a b =
        (b.score < a.score)
        ⊎ ((a.score ≡ b.score)
            × (tuple_lt (memory_order_key p.casefold a.memory)
                  (memory_order_key p.casefold b.memory)
                ≡ true))

    -- A record that is not deleted, of the tenant, and with a positive score.
    abbrev Matches : MemoryRecord → Type 0
    Matches m = (m.status ≢ deleted) × (m.tenant_id ≡ tenant) × (0 < score p query m)

    -- The results are the first of all matches in the order of the scores and keys.
    pub record Found (found : List SearchHit) : Type 0 where
      pub positive_limit : 0 < limit
      pub at_most_limit : length found ≤ limit
      pub shown : All Shown found
      pub others : List SearchHit
      pub complete : Perm (found ++ others) matches
      pub sorted : IsSorted (hit_lt p) (found ++ others)
      pub none_dropped : length found < limit → others ≡ []
      pub ranked : (a b : SearchHit) → (hit_lt p a b ≡ true) ↔ Precedes a b
      pub matched : (m : MemoryRecord) → (is_hit p tenant query m ≡ true) ↔ Matches m
