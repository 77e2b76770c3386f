-- ===== src/Domain/Text.antt =====
-- `normalize_memory_content` of src/evoeventmem/domain/models.py: `str.split`, `str.join` and
-- `str.casefold` over code points. The Unicode case-folding table is a parameter: a function from
-- a character to the text that it folds to.
use Prim.Native.Char.{Char, code}
use Prim.Native.String.{String}
use evoeventmem.Prelude.{
  Bool, true, false, List, [], ◌∷◌, ◌||◌, ◌&&◌, leb, ◌==◌, nat_eq, if◌then◌else◌, ◌+++◌, ℕ, not,
  ◌≡◌, refl,
}

-- The white space of `str.split()`: a character `c` with `c.isspace()`.
unfoldable pub is_space_code : ℕ → Bool
is_space_code c =
    leb 9 c && leb c 13
    || leb 28 c && leb c 32
    || c == 133
    || c == 160
    || c == 5760
    || leb 8192 c && leb c 8202
    || c == 8232
    || c == 8233
    || c == 8239
    || c == 8287
    || c == 12288

unfoldable pub is_space : Char → Bool
unfolding is_space_code
is_space c = is_space_code (code c)

-- Whether the text begins in the middle of a word.
unfoldable pub begins_word : String → Bool
unfolding is_space
begins_word String.[] = false
begins_word (String.◌∷◌ c s) = not (is_space c)

-- A character in front of the first word, or a word of its own.
unfoldable pub extend : Char → Bool → List String → List String
extend c true (w ∷ ws) = String.◌∷◌ c w ∷ ws
extend c _ ws = String.◌∷◌ c String.[] ∷ ws

-- `content.split()`
unfoldable pub split : String → List String
unfolding is_space begins_word extend
split String.[] = []
split (String.◌∷◌ c s) =
    let rest = split s in if is_space c then rest else extend c (begins_word s) rest

-- `" ".join(words)`
unfoldable pub join : List String → String
join [] = ""
join (w ∷ []) = w
join (w ∷ v ∷ ws) = w +++ (" " +++ join (v ∷ ws))

-- `s.casefold()`
unfoldable pub casefold : (Char → String) → String → String
casefold fold String.[] = ""
casefold fold (String.◌∷◌ c s) = fold c +++ casefold fold s

unfoldable pub normalize_memory_content : (Char → String) → String → String
unfolding split join casefold
normalize_memory_content fold content = casefold fold (join (split content))

split_lem : split "  a b\tcd " ≡ "a" ∷ "b" ∷ "cd" ∷ []
unfolding split
split_lem = refl
