-- ===== src/Service/Search.antt =====
-- `search` of `MemoryService`: the token-overlap baseline.
pub mod Results
use evoeventmem.Prelude.{
  ℕ, ◌+◌, String, Bool, true, false, List, [], ◌∷◌, ◌++◌, map, ltb, leb, not, ◌&&◌, ◌||◌, ◌==◌,
  nat_eq, string_eq, option_eq, length, select, take, contains, if◌then◌else◌, Option, ◌+++◌,
}
use evoeventmem.Prelude.Sort.{sort}
use evoeventmem.Float
use evoeventmem.Result.{Result, ok, err, value_error, ◌>>=◌, ◌>>◌, raise_if}
use evoeventmem.Domain.Models.{MemoryRecord, EntityRef, is_deleted}
use evoeventmem.Domain.Text.{join}
use evoeventmem.Domain.Order.{memory_order_key, tuple_lt}
use evoeventmem.Platform.{Platform}
use evoeventmem.Repository.Port.{Repository}

pub record SearchHit : Type 0 where
  pub memory : MemoryRecord
  pub score : ℕ
  pub reason : String

-- The elements of a set, once each.
unfoldable pub as_set : List String → List String
unfolding contains
as_set [] = []
as_set (x ∷ xs) = let rest = as_set xs in if contains x xs then rest else x ∷ rest

-- `left & right` and `left | right` of sets
abbrev pub intersection : List String → List String → List String
intersection left right = select (λ x. contains x right) left

abbrev pub union : List String → List String → List String
union left right = left ++ select (λ x. not (contains x left)) right

-- `len(left & right) / len(left | right)`, and 0.0 for empty sets
unfoldable pub overlap : List String → List String → ℕ
unfolding contains select Float.div
overlap left right =
    if length (union left right) == 0
    then 0
    else Float.div (length (intersection left right)) (length (union left right))

module _ (p : Platform) where
  -- `_tokens`
  unfoldable pub token_set : String → List String
  unfolding as_set
  token_set text = as_set (p.tokens text)

  -- `memory.content + " " + " ".join(entity names)`
  unfoldable pub searched_text : MemoryRecord → String
  unfolding join
  searched_text memory =
      memory.content +++ (" " +++ join (map (λ (e : EntityRef). e.name) memory.entities))

  unfoldable pub score : String → MemoryRecord → ℕ
  unfolding overlap token_set searched_text
  score query memory = overlap (token_set query) (token_set (searched_text memory))

  unfoldable pub hit : String → MemoryRecord → SearchHit
  hit query memory = record {
    memory = memory;
    score = score query memory;
    reason = "starter token-overlap baseline";
  }

  -- The tests of the loop: not deleted, of the tenant, and with a positive score.
  unfoldable pub is_hit : Option String → String → MemoryRecord → Bool
  is_hit tenant query memory =
      not (is_deleted memory.status) && memory.tenant_id == tenant && ltb 0 (score query memory)

  -- The order of the keys `(-hit.score, *memory_order_key(hit.memory))`.
  unfoldable pub hit_lt : SearchHit → SearchHit → Bool
  unfolding memory_order_key tuple_lt
  hit_lt a b =
      ltb b.score a.score
      || a.score == b.score
        && tuple_lt (memory_order_key p.casefold a.memory) (memory_order_key p.casefold b.memory)

  -- The hits among the records, in the order of the records.
  unfoldable pub hits : Option String → String → List MemoryRecord → List SearchHit
  hits tenant query records = map (hit query) (select (is_hit tenant query) records)

  unfoldable pub search :
      (r : Repository) → r.State → String → String → ℕ → Option String → Result (List SearchHit)
  search r s user query limit tenant = do
    raise_if (ltb limit 1) (value_error "limit must be at least 1")
    records ← r.list_for_user s user
    ok (take limit (sort hit_lt (hits tenant query records)))
