-- ===== src/Rules/Scope.antt =====
-- `RequestScope` of src/evoeventmem/core/ports.py, and the scope rules of
-- src/evoeventmem/services/memory_rules.py.
pub mod Laws
use evoeventmem.Prelude.{
  String, Bool, true, false, Option, none, some, ◌&&◌, ◌||◌, not, ◌==◌, string_eq, option_eq, ◌+++◌,
  if◌then◌else◌,
}
use evoeventmem.Domain.Models.{MemoryRecord}

pub record RequestScope : Type 0 where
  pub tenant_id : String
  pub user_id : String
  pub session_id : Option String

pub data ScopeField : Type 0 where
  tenant_id user_id session_id : ScopeField

pub record ScopeMismatch : Type 0 where
  pub field : ScopeField
  pub scope_value : Option String
  pub body_value : Option String

-- `value is not None and value != expected`
abbrev pub disagrees : Option String → Option String → Bool
disagrees none expected = false
disagrees (some value) expected = not (expected == some value)

abbrev pub conflict : ScopeField → Option String → Option String → Option ScopeMismatch
conflict field scope_value body_value =
    some (record { field = field; scope_value = scope_value; body_value = body_value })

-- `RequestScope.mismatch`
unfoldable pub mismatch :
    RequestScope → Option String → Option String → Option String → Option ScopeMismatch
mismatch scope tenant user session =
    if disagrees tenant (some scope.tenant_id)
    then conflict tenant_id (some scope.tenant_id) tenant
    else if disagrees user (some scope.user_id)
    then conflict user_id (some scope.user_id) user
    else if disagrees session scope.session_id
    then conflict session_id scope.session_id session
    else none

-- `RequestScope.canonical_key`
unfoldable pub canonical_key : RequestScope → String
canonical_key scope = elim scope.session_id [
  | none ↦ scope.tenant_id +++ ("|" +++ scope.user_id)
  | some session ↦ scope.tenant_id +++ ("|" +++ (scope.user_id +++ ("|" +++ session)))
]

-- `RequestScope.with_session`
unfoldable pub with_session : RequestScope → Option String → RequestScope
with_session scope session = record scope { session_id = session }

-- `scope_key`
unfoldable pub scope_key : MemoryRecord → Option String × String × Option String
scope_key memory = (memory.tenant_id, memory.user_id, memory.session_id)

-- `scope_matches_memory`
unfoldable pub scope_matches_memory :
    MemoryRecord → Option String → Option String → Option String → Bool
scope_matches_memory memory tenant user session = not (
    disagrees tenant memory.tenant_id
    || disagrees user (some memory.user_id)
    || disagrees session memory.session_id)

-- `value is None or expected == value`
abbrev pub admits : Option String → Option String → Bool
admits none actual = true
admits (some value) actual = actual == some value

-- `in_scope`
unfoldable pub in_scope : MemoryRecord → Option String → Option String → Bool
in_scope memory user tenant = admits user (some memory.user_id) && admits tenant memory.tenant_id

-- `scope_matches`
unfoldable pub scope_matches : MemoryRecord → RequestScope → Bool
scope_matches memory scope =
    memory.tenant_id == some scope.tenant_id
    && memory.user_id == scope.user_id
    && admits scope.session_id memory.session_id
