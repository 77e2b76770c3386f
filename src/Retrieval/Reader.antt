-- ===== src/Retrieval/Reader.antt =====
-- The reader input of src/evoeventmem/retrieval.py.
use evoeventmem.Prelude.{
  ℕ, ◌+◌, String, Option, none, some, List, [], ◌∷◌, ◌++◌, map, if◌then◌else◌, ◌+++◌,
}
use evoeventmem.Platform.{Platform}
use evoeventmem.Domain.Text.{join}
use evoeventmem.Domain.Models.{
  MemoryRecord, MemoryStatus, EvidenceRef, active, superseded, rejected, deleted, nonempty,
}
use evoeventmem.Rules.Identity.{kind_value}
use evoeventmem.Tokens.{ChatMessage}
use evoeventmem.Retrieval.Types.{ScoredMemory}

abbrev pub status_value : MemoryStatus → String
status_value active = "active"
status_value superseded = "superseded"
status_value rejected = "rejected"
status_value deleted = "deleted"

-- `_temporal_anchor`
unfoldable pub temporal_anchor : MemoryRecord → Option ℕ
temporal_anchor memory = elim memory.valid_from [ none ↦ memory.event_time | some t ↦ some t ]

-- `separator.join(texts)`
unfoldable pub join_with : String → List String → String
join_with separator [] = ""
join_with separator (text ∷ []) = text
join_with separator (text ∷ next ∷ texts) =
    text +++ (separator +++ join_with separator (next ∷ texts))

-- The quotes that are there and not empty.
unfoldable pub quotes_of : List EvidenceRef → List String
quotes_of [] = []
quotes_of (ref ∷ refs) = elim ref.quote [
  | none ↦ quotes_of refs
  | some quote ↦ if nonempty quote then quote ∷ quotes_of refs else quotes_of refs
]

abbrev pub source_lines : List String → List String
source_lines [] = []
source_lines (quote ∷ quotes) = ("source: " +++ join_with " | " (quote ∷ quotes)) ∷ []

-- `_reader_entries`
unfoldable pub reader_entries : List ScoredMemory → List (MemoryRecord × List EvidenceRef)
reader_entries memories = map (λ (item : ScoredMemory). (item.memory, item.evidence_refs)) memories

-- `READER_SYSTEM_DIRECTIVE`
unfoldable pub reader_system_directive : String
reader_system_directive = join_with "\n" (
    "Use the cited evidence below to answer the question." ∷ "" ∷ "STRICT RULES:"
    ∷ "1. Answer with ONLY the answer - nothing else"
    ∷ "2. For time durations: 'N unit' (e.g., '7 days', '2 months')"
    ∷ "3. For counts: copy EXACTLY from evidence" ∷ "   - Evidence 'five' → answer 'five' (NOT '5')"
    ∷ "   - Evidence '38' → answer '38' (NOT 'thirty-eight')"
    ∷ "4. NEVER add: about, approximately, roughly, the, a, an"
    ∷ "5. NEVER add the question's subject word" ∷ "6. NEVER add explanations" ∷ "" ∷ "Examples:"
    ∷ "- Evidence 'User has five playlists' → five" ∷ "- Evidence 'User has 38 coins' → 38"
    ∷ "- Evidence 'User took classes for 6 weeks' → 6 weeks"
    ∷ "- Evidence 'User lives in Seattle' → Seattle" ∷ "" ∷ [])

module _ (p : Platform) (int_str : ℕ → String) where
  abbrev pub anchor_part : Option ℕ → List String
  anchor_part none = []
  anchor_part (some anchor) = ("anchor=" +++ p.isoformat anchor) ∷ []

  -- `_metadata_line`
  unfoldable pub metadata_line : MemoryRecord → String
  metadata_line memory = join (
      ("kind=" +++ kind_value memory.memory_kind)
      ∷ ("status=" +++ status_value memory.status)
      ∷ anchor_part (temporal_anchor memory))

  -- The lines of one block.
  unfoldable pub block : ℕ → MemoryRecord × List EvidenceRef → List String
  block index (memory, refs) =
      ("[" +++ (int_str index +++ ("] " +++ memory.content)))
      ∷ ("evidence="
          +++ (join_with "," (map (λ (ref : EvidenceRef). ref.source_id) refs)
              +++ (" " +++ metadata_line memory)))
      ∷ source_lines (quotes_of refs)

  unfoldable pub blocks : ℕ → List (MemoryRecord × List EvidenceRef) → List String
  blocks index [] = []
  blocks index (entry ∷ entries) = block index entry ++ blocks (index + 1) entries

  -- `_reader_messages`
  unfoldable pub reader_messages :
      String → List (MemoryRecord × List EvidenceRef) → List ChatMessage
  reader_messages query entries =
      record { role = "system"; content = reader_system_directive }
      ∷ record {
        role = "user";
        content = join_with "\n" (("Question: " +++ query) ∷ blocks 1 entries);
      }
      ∷ []
