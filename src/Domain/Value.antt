-- ===== src/Domain/Value.antt =====
-- The values of `metadata: dict[str, Any]` (src/evoeventmem/domain/models.py): JSON-like trees.
-- `float` holds a non-negative double as the number of units of 2 ^ -1074 that it is.
use evoeventmem.Prelude.{ℕ, String, Bool, true, false, List, [], ◌∷◌, Option, none, some}
use evoeventmem.Prelude.Dict.{Dict}

mutual
  -- the entries of a dict, in the order of insertion
  pub data Fields : Type 0 where
    end : Fields
    field : String → Value → Fields → Fields

  pub data Value : Type 0 where
    obj : Fields → Value
    arr : Items → Value
    str : String → Value
    float : ℕ → Value
    bool : Bool → Value
    null : Value

  pub data Items : Type 0 where
    nil : Items
    cons : Value → Items → Items

abbrev pub Metadata : Type 0
Metadata = Dict String Value

-- A list or a dict as a value.
unfoldable pub items : List Value → Items
items [] = nil
items (v ∷ vs) = cons v (items vs)

unfoldable pub fields : Metadata → Fields
fields [] = end
fields ((k, v) ∷ d) = field k v (fields d)

-- The elements and the entries of a value.
unfoldable pub elements : Items → List Value
elements nil = []
elements (cons v vs) = v ∷ elements vs

unfoldable pub entries : Fields → Metadata
entries end = []
entries (field k v fs) = (k, v) ∷ entries fs

-- `None` or a text.
unfoldable pub str_or_null : Option String → Value
str_or_null none = null
str_or_null (some s) = str s

unfoldable pub float_or_null : Option ℕ → Value
float_or_null none = null
float_or_null (some x) = float x

-- `isinstance(value, str)`, over `dict.get`.
unfoldable pub as_str : Option Value → Option String
as_str (some (str s)) = some s
as_str _ = none

-- `isinstance(value, dict)`
unfoldable pub as_obj : Option Value → Option Metadata
unfolding entries
as_obj (some (obj fs)) = some (entries fs)
as_obj _ = none

-- `isinstance(value, list)`
unfoldable pub as_arr : Option Value → Option (List Value)
unfolding elements
as_arr (some (arr vs)) = some (elements vs)
as_arr _ = none

-- `isinstance(event, dict)`, of a value that is there
unfoldable pub is_obj : Value → Bool
is_obj (obj fs) = true
is_obj _ = false
