-- ===== src/Tokens.antt =====
-- src/evoeventmem/tokenization.py. The character classes of its regular expressions are code point
-- ranges; `char.isalnum()` of other characters is a parameter.
use Prim.Native.Char.{Char, code}
use evoeventmem.Prelude.{
  ℕ, ◌+◌, ◌*◌, String, Bool, false, List, [], ◌∷◌, leb, not, ◌&&◌, ◌||◌, length, if◌then◌else◌,
}
use evoeventmem.Domain.Text.{is_space}

-- `ChatMessage` of src/evoeventmem/core/ports.py
pub record ChatMessage : Type 0 where
  pub role : String
  pub content : String

pub record TokenEstimate : Type 0 where
  pub content_tokens : ℕ
  pub message_overhead_tokens : ℕ
  pub total_tokens : ℕ
  pub estimator_name : String
  pub estimator_version : String

-- `DeterministicTokenEstimator`, with `str.isalnum` of a character
pub record DeterministicTokenEstimator : Type 0 where
  pub name : String
  pub version : String
  pub isalnum : Char → Bool

unfoldable pub message_overhead : ℕ
message_overhead = 4

abbrev pub between : ℕ → ℕ → ℕ → Bool
between low high c = leb low c && leb c high

-- `_CJK_RE`
unfoldable pub is_cjk : Char → Bool
is_cjk c =
    between 19968 40959 (code c) || between 12352 12543 (code c) || between 44032 55215 (code c)

-- A character of `_WORD_RE`
unfoldable pub is_word : Char → Bool
is_word c = between 65 90 (code c) || between 97 122 (code c) || between 48 57 (code c)

-- `len(_CJK_RE.findall(text))`
unfoldable pub count_cjk : String → ℕ
count_cjk String.[] = 0
count_cjk (String.◌∷◌ c text) = let rest = count_cjk text in if is_cjk c then rest + 1 else rest

-- `_CJK_RE.sub("", text)`
unfoldable pub without_cjk : String → String
without_cjk String.[] = String.[]
without_cjk (String.◌∷◌ c text) =
    let rest = without_cjk text in if is_cjk c then rest else String.◌∷◌ c rest

-- The matches of `_WORD_RE`: runs of its characters, counted where they begin.
unfoldable pub count_words : Bool → String → ℕ
count_words inside String.[] = 0
count_words inside (String.◌∷◌ c text) =
    let rest = count_words (is_word c) text in if is_word c && not inside then rest + 1 else rest

module _ (self : DeterministicTokenEstimator) where
  unfoldable pub count_punctuation : String → ℕ
  count_punctuation String.[] = 0
  count_punctuation (String.◌∷◌ c text) =
      let rest = count_punctuation text in
      if not (is_space c) && not (self.isalnum c) then rest + 1 else rest

  -- `_count_content_tokens`
  unfoldable pub count_content_tokens : String → ℕ
  count_content_tokens text =
      let non_cjk = without_cjk text in
      count_cjk text + count_words false non_cjk + count_punctuation non_cjk

  -- The sum over the messages.
  unfoldable pub sum_content_tokens : List ChatMessage → ℕ
  sum_content_tokens [] = 0
  sum_content_tokens (message ∷ messages) =
      count_content_tokens message.content + sum_content_tokens messages

  unfoldable pub count_messages : List ChatMessage → TokenEstimate
  count_messages messages = record {
    content_tokens = sum_content_tokens messages;
    message_overhead_tokens = message_overhead * length messages;
    total_tokens = sum_content_tokens messages + message_overhead * length messages;
    estimator_name = self.name;
    estimator_version = self.version;
  }
