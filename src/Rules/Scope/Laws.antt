-- ===== src/Rules/Scope/Laws.antt =====
-- How the scope rules agree with one another.
use evoeventmem.Prelude.{
  String, Option, none, some, ◌≡◌, ◌↔◌, ◌⊎◌, inl, inr, false, arith, refl, string_eq, option_eq,
  ==_iff, not, ◌+++◌,
}
use text.Mathlib.TextLemmas.{append_assoc}
use evoeventmem.Domain.Models.{MemoryRecord}
use evoeventmem.Rules.Scope.{
  RequestScope, mismatch, canonical_key, scope_matches_memory, in_scope, scope_matches, disagrees,
  admits,
}

-- Test by test: a constraint disagrees exactly when it does not admit.
disagrees-not-admits : (c actual : Option String) → disagrees c actual ≡ not (admits c actual)
disagrees-not-admits none actual = refl
disagrees-not-admits (some value) actual = refl

-- The exact test of the write path and the test of the read path agree: a record matches a scope just
-- when its tenant and user are those of the scope and its session that of a scope with a session.
pub scope_matches_memory_eq :
    (scope : RequestScope) (m : MemoryRecord)
    → scope_matches_memory m (some scope.tenant_id) (some scope.user_id) scope.session_id
      ≡ scope_matches m scope
unfolding scope_matches_memory scope_matches
scope_matches_memory_eq scope m = rw disagrees-not-admits (ground arith)

-- The exact test and the test of the synchronous service agree where the session is left open.
pub scope_matches_memory-eq-in_scope :
    (m : MemoryRecord) (tenant user : Option String)
    → scope_matches_memory m tenant user none ≡ in_scope m user tenant
unfolding scope_matches_memory in_scope
scope_matches_memory-eq-in_scope m tenant user =
    rw (disagrees-not-admits tenant, disagrees-not-admits user) (ground arith)

-- A body names no value, or the expected one.
abbrev pub Agrees : Option String → Option String → Type 0
Agrees named expected = (named ≡ none) ⊎ (named ≡ expected)

disagrees-Agrees :
    (named expected : Option String) → (disagrees named expected ≡ false) ↔ Agrees named expected
disagrees-Agrees none expected = (λ _. inl refl, λ _. refl)
disagrees-Agrees (some value) expected = (
  λ h. inr (ground (arith, ==_iff expected (some value))),
  λ h. elim h [
    | inl absent ↦ absurd (cc)
    | inr same ↦ ground (arith, ==_iff expected (some value))
  ],
)

-- A body has no mismatch with a scope exactly when each of the tenant, the user and the session is
-- either not named by the body or the one of the scope.
pub mismatch_lem :
    (scope : RequestScope) (tenant user session : Option String)
    → (mismatch scope tenant user session ≡ none) ↔ (
        Agrees tenant (some scope.tenant_id)
        × Agrees user (some scope.user_id)
        × Agrees session scope.session_id)
unfolding mismatch
mismatch_lem scope tenant user session =
    let t = disagrees-Agrees tenant (some scope.tenant_id) in
    let u = disagrees-Agrees user (some scope.user_id) in
    let s = disagrees-Agrees session scope.session_id in
    (
      λ h. (t.0 (ground arith), u.0 (ground arith), s.0 (ground arith)),
      λ (h, k, l). rw (t.1 h, u.1 k, s.1 l) refl,
    )

-- The key of a scope forgets where the tenant ends: two scopes with the bar in a name share their key.
pub canonical_key_collides :
    (a b c : String)
    → canonical_key (record { tenant_id = a +++ ("|" +++ b); user_id = c; session_id = none })
      ≡ canonical_key (record { tenant_id = a; user_id = b; session_id = some c })
unfolding canonical_key
canonical_key_collides a b c = simp append_assoc
