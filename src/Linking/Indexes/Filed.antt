-- ===== src/Linking/Indexes/Filed.antt =====
-- Postings of src/evoeventmem/linking.py: what holds of every item that is filed under a key.
use evoeventmem.Prelude.{
  ◌≡◌, refl, String, Bool, true, List, [], ◌∷◌, ◌++◌, All, All-append, ◌==◌, ==_iff, nat_eq,
  string_eq, arith, Bool-cases, inl, inr, contains, ==_refl,
}
use evoeventmem.Prelude.Dict
use evoeventmem.Prelude.Dict.{Dict, get-put}
use evoeventmem.Prelude.Sort.{sort, All-sort}
use evoeventmem.Linking.Indexes.{posting, append_to, append_to_all, sort_postings, or_nothing}
use mathlib.Core.Path.{subst}

module _ {ℓ κ} {A : Type ℓ} (P : String → A → Type κ) where
  abbrev pub IsFiled : Dict String (List A) → Type κ
  IsFiled index = (key : String) → All (P key) (posting index key)

  pub IsFiled-append_to :
      (index : Dict String (List A)) (key : String) (item : A)
      → P key item
      → IsFiled index
      → IsFiled (append_to index key item)
  unfolding posting append_to
  IsFiled-append_to index key item p h other = elim (Bool-cases (key == other)) [
    | inl same ↦
        let e : key ≡ other = (==_iff key other).0 same in
        rw (get-put, same)
          (subst (λ k. All (P k) (or_nothing (Dict.get index key) ++ item ∷ [])) e
            (All-append (P key) (or_nothing (Dict.get index key)) (item ∷ []) (h key) (p, tt)))
    | inr differs ↦ rw (get-put, differs) (h other)
  ]

  pub IsFiled-append_to_all :
      (index : Dict String (List A)) (keys : List String) (item : A)
      → All (λ key. P key item) keys
      → IsFiled index
      → IsFiled (append_to_all index keys item)
  unfolding append_to_all
  IsFiled-append_to_all index [] item p h = h
  IsFiled-append_to_all index (key ∷ keys) item p h =
      IsFiled-append_to_all (append_to index key item) keys item p.1
        (IsFiled-append_to index key item p.0 h)

  posting-sort_postings :
      (lt : A → A → Bool) (index : Dict String (List A)) (key : String)
      → posting (sort_postings lt index) key ≡ sort lt (posting index key)
  unfolding posting sort_postings Dict.get sort
  posting-sort_postings lt [] key = refl
  posting-sort_postings lt ((k, items) ∷ index) key =
      ground (arith, posting-sort_postings lt index key)

  pub IsFiled-sort_postings :
      (lt : A → A → Bool) (index : Dict String (List A))
      → IsFiled index
      → IsFiled (sort_postings lt index)
  IsFiled-sort_postings lt index h key =
      rw posting-sort_postings (All-sort lt (P key) (posting index key) (h key))

-- A list has its elements.
pub All-contains : (xs : List String) → All (λ x. contains x xs ≡ true) xs
unfolding contains
All-contains xs = within xs xs (λ x h. h)
  where
    within :
        (ys zs : List String)
        → ((x : String) → contains x ys ≡ true → contains x zs ≡ true)
        → All (λ x. contains x zs ≡ true) ys
    within [] zs f = tt
    within (y ∷ ys) zs f = (f y (rw (==_refl y) refl), within ys zs (λ x h. f x (ground arith)))
