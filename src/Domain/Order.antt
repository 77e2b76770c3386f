-- ===== src/Domain/Order.antt =====
-- `memory_order_key` of src/evoeventmem/domain/models.py, and Python's order on tuples of texts.
pub mod Asym
use Prim.Native.Char.{Char}
use Prim.Native.Nat.{Ordering}
use Prim.Native.String.{compare}
use evoeventmem.Prelude.{String, Bool, true, false, Option, none, some, List, [], ◌∷◌, ◌++◌}
use evoeventmem.Prelude.Sort.{sort}
use evoeventmem.Domain.Text.{normalize_memory_content}
use evoeventmem.Domain.Models.{EvidenceRef, MemoryRecord}

-- `left < right` on tuples of texts: the first texts that differ decide, a proper prefix is smaller.
unfoldable pub tuple_lt : List String → List String → Bool
tuple_lt [] [] = false
tuple_lt [] (t ∷ ts) = true
tuple_lt (s ∷ ss) [] = false
tuple_lt (s ∷ ss) (t ∷ ts) =
    let rest = tuple_lt ss ts in
    elim (compare s t) [ Ordering.lt ↦ true | Ordering.eq ↦ rest | Ordering.gt ↦ false ]

-- `x or ""`
abbrev pub or_empty : Option String → String
or_empty none = ""
or_empty (some s) = s

unfoldable pub evidence_parts : EvidenceRef → List String
evidence_parts ref =
    ref.source_type ∷ ref.source_id ∷ or_empty ref.locator ∷ or_empty ref.quote ∷ []

unfoldable pub all_parts : List EvidenceRef → List String
unfolding evidence_parts
all_parts [] = []
all_parts (ref ∷ refs) = evidence_parts ref ++ all_parts refs

abbrev pub evidence_lt : EvidenceRef → EvidenceRef → Bool
evidence_lt a b = tuple_lt (evidence_parts a) (evidence_parts b)

unfoldable pub memory_order_key : (Char → String) → MemoryRecord → List String
unfolding all_parts sort tuple_lt
memory_order_key fold memory =
    normalize_memory_content fold memory.content ∷ all_parts (sort evidence_lt memory.evidence_refs)
