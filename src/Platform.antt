-- ===== src/Platform.antt =====
-- What the modelled modules call and do not implement: the Unicode tables behind `str.casefold` and
-- the `\w+` tokens, the texts of times and UUIDs, `json.dumps`, SHA-256, and pydantic's error texts.
use Prim.Native.Char.{Char}
use evoeventmem.Prelude.{ℕ, String, List}
use evoeventmem.Domain.Value.{Value}
use evoeventmem.Result.{Error}

pub record Platform : Type 0 where
  -- the case folding of a character
  pub casefold : Char → String
  -- `{token.lower() for token in _TOKEN_RE.findall(text)}`, in the order of the text
  pub tokens : String → List String
  -- `datetime.isoformat()`, and the form in which pydantic dumps a time
  pub isoformat : ℕ → String
  pub dump_time : ℕ → String
  -- `str(uuid)`
  pub uuid_str : ℕ → String
  -- `json.dumps(value, sort_keys=True, separators=(",", ":"))`
  pub dumps : Value → String
  -- `hashlib.sha256(text.encode("utf-8")).hexdigest()`
  pub sha256 : String → String
  -- `str(exc)` of a validation error
  pub error_text : Error → String
