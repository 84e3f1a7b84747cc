-- ===== src/Dynamic/Returns.antt =====
-- What it says of a value that an operation on it returned.
use chef_bcpc.Prelude.{
  Bool, String, List, [], ◌∷◌, Option, none, some, ◌≡◌, refl, sym, ap, ◌∙◌, inl, inr, Option-cases,
}
use chef_bcpc.Json.{Json, null, bool, num, str, arr, obj, Fields, lookup}
use chef_bcpc.Run.{key_error, type_error, attribute_error}
use chef_bcpc.Run.Returns.{Gave, pure-Gave, raise-Gave, or_raise-Gave}
use chef_bcpc.Dynamic.{item, get, iterate, is_in, items_of, holds, or_default}

-- The value at the end of a path of keys.
abbrev pub path : List String → Json → Option Json
path [] v = some v
path (k ∷ ks) (obj fs) = elim (lookup k fs) [ none ↦ none | some v ↦ path ks v ]
path (k ∷ ks) _ = none

module _ {S : Type 0} where
  pub item-Gave :
      (k : String) (v r : Json) (s t : S)
      → Gave (item k v s) r t
      → (fs : Fields) × (v ≡ obj fs) × (lookup k fs ≡ some r) × (s ≡ t)
  unfolding item
  item-Gave k (obj fs) r s t h =
      let (e, same) = or_raise-Gave key_error (lookup k fs) r s t h in (fs, refl, e, same)
  item-Gave k null r s t h = absurd (raise-Gave type_error r s t h)
  item-Gave k (bool b) r s t h = absurd (raise-Gave type_error r s t h)
  item-Gave k (num n) r s t h = absurd (raise-Gave type_error r s t h)
  item-Gave k (str x) r s t h = absurd (raise-Gave type_error r s t h)
  item-Gave k (arr xs) r s t h = absurd (raise-Gave type_error r s t h)

  pub get-Gave :
      (k : String) (d v r : Json) (s t : S)
      → Gave (get k d v s) r t
      → (fs : Fields) × (v ≡ obj fs) × (or_default d (lookup k fs) ≡ r) × (s ≡ t)
  unfolding get
  get-Gave k d (obj fs) r s t h = let (e, same) = pure-Gave _ r s t h in (fs, refl, e, same)
  get-Gave k d null r s t h = absurd (raise-Gave attribute_error r s t h)
  get-Gave k d (bool b) r s t h = absurd (raise-Gave attribute_error r s t h)
  get-Gave k d (num n) r s t h = absurd (raise-Gave attribute_error r s t h)
  get-Gave k d (str x) r s t h = absurd (raise-Gave attribute_error r s t h)
  get-Gave k d (arr xs) r s t h = absurd (raise-Gave attribute_error r s t h)

  pub iterate-Gave :
      (v : Json) (l : List Json) (s t : S)
      → Gave (iterate v s) l t
      → (items_of v ≡ some l) × (s ≡ t)
  unfolding iterate
  iterate-Gave v l s t h = or_raise-Gave type_error (items_of v) l s t h

  pub is_in-Gave :
      (v container : Json) (b : Bool) (s t : S)
      → Gave (is_in v container s) b t
      → (holds v container ≡ some b) × (s ≡ t)
  unfolding is_in
  is_in-Gave v container b s t h = or_raise-Gave type_error (holds v container) b s t h

-- A path through a key that is there.
pub path-cons :
    (k : String) (ks : List String) (fs : Fields) (v : Json)
    → lookup k fs ≡ some v
    → path (k ∷ ks) (obj fs) ≡ path ks v
path-cons k ks fs v h = rw (path, h) refl

path_on : (ks : List String) (o : Option Json) → Option Json
path_on ks none = none
path_on ks (some v) = path ks v

path-path_on :
    (k : String) (ks : List String) (fs : Fields)
    → path (k ∷ ks) (obj fs) ≡ path_on ks (lookup k fs)
unfolding path_on
path-path_on k ks fs = elim (Option-cases (lookup k fs)) [
  | inl e ↦ rw (path, path_on, e) refl
  | inr (v, e) ↦ rw (path, path_on, e) refl
]

-- A path looks at its first key.
pub path_same :
    (k : String) (ks : List String) (fs gs : Fields)
    → lookup k fs ≡ lookup k gs
    → path (k ∷ ks) (obj fs) ≡ path (k ∷ ks) (obj gs)
path_same k ks fs gs e = path-path_on k ks fs ∙ ap (path_on ks) e ∙ sym (path-path_on k ks gs)

path_on-end : (o : Option Json) → path_on [] o ≡ o
unfolding path_on
path_on-end none = refl
path_on-end (some v) = refl

pub path-lookup : (k : String) (fs : Fields) → path (k ∷ []) (obj fs) ≡ lookup k fs
path-lookup k fs = path-path_on k [] fs ∙ path_on-end (lookup k fs)

-- The rest of a path goes on from the value at its first key.
pub path_next :
    (k : String) (ks : List String) (v r : Json)
    → path (k ∷ []) v ≡ some r
    → path (k ∷ ks) v ≡ path ks r
unfolding path_on
path_next k ks (obj fs) r h = elim (Option-cases (lookup k fs)) [
  | inl e ↦ cc (sym (path-path_on k [] fs ∙ ap (path_on []) e) ∙ h)
  | inr (v, e) ↦
      path-path_on k ks fs
      ∙ ap (path_on ks) e
      ∙ ap (path_on ks) (sym (path-path_on k [] fs ∙ ap (path_on []) e) ∙ h)
]
path_next k ks null r h = cc h
path_next k ks (bool b) r h = cc h
path_next k ks (num n) r h = cc h
path_next k ks (str x) r h = cc h
path_next k ks (arr xs) r h = cc h

-- A subscript is the first step of a path.
pub item-path :
    {S : Type 0} (k : String) (v r : Json) (s t : S)
    → Gave (item k v s) r t
    → path (k ∷ []) v ≡ some r
item-path k v r s t h =
    let (fs, e, found, _) = item-Gave k v r s t h in
    ap (path (k ∷ [])) e ∙ path-cons k [] fs r found
