-- ===== src/Service/Single/Scoped.antt =====
-- What `explain`, `feedback` and `forget` of `MemoryService` show and change: nothing outside the scope.
use evoeventmem.Prelude.{
  ℕ, String, ◌≡◌, ◌≢◌, ◌↔◌, refl, ◌∙◌, ap, sym, select, select_passes, All, All-both, All-select,
  ◌⊎◌, inl, inr, true, false, Option, none, some, arith, nat_eq, string_eq, option_eq, ◌==◌, ==_iff,
  Bool-cases, contains,
}
use evoeventmem.Prelude.Dict
use evoeventmem.Prelude.Dict.{Dict, values, get-put}
use evoeventmem.Result.{ok, Ensures, Ensures-bind, ensured}
use evoeventmem.Domain.Models.{MemoryRecord, linked_ids, deleted}
use evoeventmem.Platform.{Platform}
use evoeventmem.Repository.Port.{Repository, RepositoryLaws}
use evoeventmem.Rules.Scope.{in_scope}
use evoeventmem.Rules.Events.{apply_forget}
use evoeventmem.Rules.Events.Forgotten.{Forgotten, Forgotten-apply_forget}
use evoeventmem.Service.Single.{
  MemoryExplainResult, is_related, visible, explain, update_visible, forget,
}

-- Every record stands under its own id.
abbrev pub IsKeyed : Dict ℕ MemoryRecord → Type 0
IsKeyed d = (id : ℕ) (m : MemoryRecord) → Dict.get d id ≡ some m → m.memory_id ≡ id

-- Absent, or there and out of the scope: a caller cannot tell.
abbrev pub Hidden : Option MemoryRecord → Option String → Option String → Type 0
Hidden found user tenant =
    (found ≡ none) ⊎ ((m : MemoryRecord) × (found ≡ some m) × (in_scope m user tenant ≡ false))

visible_cases :
    (found : Option MemoryRecord) (user tenant : Option String)
    → ((visible found user tenant ≡ none) × Hidden found user tenant)
      ⊎ ((m : MemoryRecord) × (visible found user tenant ≡ some m)
          × (found ≡ some m)
          × (in_scope m user tenant ≡ true))
unfolding visible
visible_cases none user tenant = inl (refl, inl refl)
visible_cases (some m) user tenant = elim (Bool-cases (in_scope m user tenant)) [
  | inl yields ↦ inr (m, rw yields, refl, yields)
  | inr fails ↦ inl (rw fails, inr (m, refl, fails))
]

-- A record that `explain` lists: of the user and the tenant of the record, linked to it, not deleted.
abbrev pub Related : MemoryRecord → MemoryRecord → Type 0
Related m x =
    (x.user_id ≡ m.user_id)
    × (x.tenant_id ≡ m.tenant_id)
    × (x.status ≢ deleted)
    × (contains x.memory_id (linked_ids m) ≡ true)

-- What a change of a visible record does.
abbrev pub Change :
    Dict ℕ MemoryRecord
    → Dict ℕ MemoryRecord
    → ℕ
    → Option String
    → Option String
    → (MemoryRecord → MemoryRecord)
    → Option MemoryRecord
    → Type 0
Change before after id user tenant change stored =
    ((stored ≡ none) × (after ≡ before) × Hidden (Dict.get before id) user tenant)
    ⊎ ((m : MemoryRecord) × (Dict.get before id ≡ some m)
        × (in_scope m user tenant ≡ true)
        × (stored ≡ some (change m))
        × (after ≡ Dict.put before (change m).memory_id (change m)))

Related-of_tests :
    (m x : MemoryRecord) → (x.user_id == m.user_id) ≡ true → is_related m x ≡ true → Related m x
Related-of_tests m x u h = (
  (==_iff x.user_id m.user_id).0 u,
  ground (arith, ==_iff x.tenant_id m.tenant_id),
  λ gone. absurd (ground arith),
  ground arith,
)

module _ (r : Repository) (laws : RepositoryLaws r) where
  open laws use {contents}

  module _ (s : r.State) (id : ℕ) (user tenant : Option String) where
    abbrev pub Explained : Option MemoryExplainResult → Type 0
    Explained none = Hidden (Dict.get (contents s) id) user tenant
    Explained (some e) =
        (Dict.get (contents s) id ≡ some e.memory)
        × (in_scope e.memory user tenant ≡ true)
        × All (Related e.memory) e.related

    abbrev pub Changed : (MemoryRecord → MemoryRecord) → r.State × Option MemoryRecord → Type 0
    Changed change e = Change (contents s) (contents e.0) id user tenant change e.1

    All-Related :
        (m : MemoryRecord)
        → All
            (Related m)
            (select (is_related m) (select (λ x. x.user_id == m.user_id) (values (contents s))))
    All-Related m =
        let mine = λ (x : MemoryRecord). x.user_id == m.user_id in
        All-both (λ x. mine x ≡ true) (λ x. is_related m x ≡ true) (Related m) _
          (Related-of_tests m)
          (All-select (is_related m) (λ x. mine x ≡ true) (select mine (values (contents s)))
            (select_passes mine (values (contents s))))
          (select_passes (is_related m) (select mine (values (contents s))))

    explain-Explained : Ensures Explained (explain r s id user tenant)
    unfolding explain
    explain-Explained = Ensures-bind Explained (r.get s id) _ λ found got.
        elim (visible_cases found user tenant) [
          | inl (unseen, hidden) ↦ rw unseen (rw (sym (laws.get_contents s id found got)) hidden)
          | inr (m, seen, there, inside) ↦ rw seen (
              Ensures-bind Explained (r.list_for_user s m.user_id) _ λ records listed.
                rw (laws.list_contents s m.user_id records listed)
                  (sym (laws.get_contents s id found got) ∙ there, inside, All-Related m))
        ]

    update_visible-Changed :
        (change : MemoryRecord → MemoryRecord)
        → Ensures (Changed change) (update_visible r s id user tenant change)
    unfolding update_visible
    update_visible-Changed change = Ensures-bind (Changed change) (r.get s id) _ λ found got.
        elim (visible_cases found user tenant) [
          | inl (unseen, hidden) ↦
              rw unseen (inl (refl, refl, rw (sym (laws.get_contents s id found got)) hidden))
          | inr (m, seen, there, inside) ↦ rw seen (
              Ensures-bind (Changed change) (r.update s (change m)) _ λ e done.
                let (same, put, _) = laws.update_contents s e.0 (change m) e.1 done in
                inr (m, sym (laws.get_contents s id found got) ∙ there, inside, ap some same, put))
        ]

-- What a forget did to the contents.
abbrev pub Forgets :
    Platform
    → Dict ℕ MemoryRecord
    → Dict ℕ MemoryRecord
    → ℕ
    → Option String
    → Option String
    → Option String
    → ℕ
    → Option MemoryRecord
    → Type 0
Forgets p before after id user tenant request_id now stored =
    ((stored ≡ none) × (after ≡ before) × Hidden (Dict.get before id) user tenant)
    ⊎ ((m : MemoryRecord) × (m' : MemoryRecord) × (Dict.get before id ≡ some m)
        × (in_scope m user tenant ≡ true)
        × (stored ≡ some m')
        × Forgotten p now now request_id m m'
        × (Dict.get after id ≡ some m')
        × ((j : ℕ) → j ≢ id → Dict.get after j ≡ Dict.get before j))

forgotten :
    (p : Platform) (before after : Dict ℕ MemoryRecord) (stored : Option MemoryRecord) (id : ℕ)
    (user tenant request_id : Option String) (now : ℕ)
    → IsKeyed before
    → Change before after id user tenant (λ m. apply_forget p m now request_id) stored
    → Forgets p before after id user tenant request_id now stored
unfolding apply_forget
forgotten p before after stored id user tenant request_id now keyed (inl unseen) = inl unseen
forgotten p before after stored id user tenant request_id now keyed
      (inr (m, there, inside, e, put)) =
    let m' = apply_forget p m now request_id in
    let f = Forgotten-apply_forget p m now now request_id in
    let same : m'.memory_id ≡ id =
      ap (λ (x : MemoryRecord). x.memory_id) f.changed ∙ keyed id m there in
    inr (
      m,
      m',
      there,
      inside,
      e,
      f,
      rw (put, get-put, same) (ground arith),
      λ j other. rw (put, get-put, same) (ground (arith, ==_iff id j)),
    )

module _ (r : Repository) (laws : RepositoryLaws r) where
  open laws use {contents}

  explains_nothing :
      (s : r.State) (id : ℕ) (user tenant : Option String) (found : Option MemoryRecord)
      → r.get s id ≡ ok found
      → Hidden found user tenant
      → explain r s id user tenant ≡ ok none
  unfolding explain visible
  explains_nothing s id user tenant none got hidden = rw got refl
  explains_nothing s id user tenant (some m) got (inl absent) = absurd (cc)
  explains_nothing s id user tenant (some m) got (inr (x, there, outside)) =
      let outside' : in_scope m user tenant ≡ false = cc in ground arith

  -- Where the repository answers the lookup of the id, the explanation is `None` exactly for an id that
  -- is absent or out of the scope of the caller: the two have the same result. An explanation that is
  -- returned shows the record, which is in the scope, and beside it only records of the same user and
  -- tenant that the record links to and that are not deleted.
  pub explain_lem :
      (s : r.State) (id : ℕ) (user tenant : Option String) (found : Option MemoryRecord)
      → r.get s id ≡ ok found
      → ((explain r s id user tenant ≡ ok none) ↔ Hidden found user tenant)
        × Ensures (Explained r laws s id user tenant) (explain r s id user tenant)
  explain_lem s id user tenant found got = (
    (
      λ h. rw (laws.get_contents s id found got) (
          ensured (Explained r laws s id user tenant) _ none
            (explain-Explained r laws s id user tenant) h),
      explains_nothing s id user tenant found got,
    ),
    explain-Explained r laws s id user tenant,
  )

  -- A forget that succeeds returns `None`, and changes nothing, exactly for an id that is absent or out of
  -- the scope of the caller. Otherwise the record under the id is marked as deleted: its state, the
  -- time of its last change and the metadata entries for the time and the request of the deletion are
  -- set, every other field and metadata entry is as it was, and so is every other record.
  pub forget_lem :
      (p : Platform) (s s' : r.State) (id : ℕ) (user tenant request_id : Option String) (now : ℕ)
      (stored : Option MemoryRecord)
      → IsKeyed (contents s)
      → forget p r s id user tenant request_id now ≡ ok (s', stored)
      → Forgets p (contents s) (contents s') id user tenant request_id now stored
  unfolding forget
  forget_lem p s s' id user tenant request_id now stored keyed h =
      forgotten p (contents s) (contents s') stored id user tenant request_id now keyed (
        ensured (Changed r laws s id user tenant (λ m. apply_forget p m now request_id)) _
          (s', stored)
          (update_visible-Changed r laws s id user tenant (λ m. apply_forget p m now request_id)) h)
