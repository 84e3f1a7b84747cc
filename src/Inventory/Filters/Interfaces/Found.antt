-- ===== src/Inventory/Filters/Interfaces/Found.antt =====
-- The interface that is found is one of the host's and carries the address.
use chef_bcpc.Prelude.{
  String, true, false, Option, none, some, List, [], ◌∷◌, ◌≡◌, ◌≢◌, ap, arith, refl, subst, sym,
  ◌∙◌, inl, inr,
}
use chef_bcpc.Json.{Json, null, obj, str, is_text, Fields, end, lookup}
use chef_bcpc.Run.{value_error}
use chef_bcpc.Run.Returns.{Gave, bind-Gave, raise-Gave, if-Gave}
use chef_bcpc.Dynamic.{item, get, iterate, or_default}
use chef_bcpc.Dynamic.Returns.{path, path-cons, path_next, item-Gave, get-Gave}
use chef_bcpc.Inventory.Filters.Interfaces.{is_skipped, names_of, search_interface, find_interface}

-- The facts have the interface `found`, under a name that is not skipped, and its address is `ip`.
pub record Carries (facts : Json) (ip : String) (found : Json) : Type 0 where
  pub name : String
  pub is_wanted : is_skipped name ≡ false
  pub in_facts : path (name ∷ []) facts ≡ some found
  pub has_address : path ("ipv4" ∷ "address" ∷ []) found ≡ some (str ip)

is_text-eq : (t : String) (v : Json) → is_text t v ≡ true → v ≡ str t
is_text-eq t v h = ground arith

-- A text that `get` found is not the default.
found_text :
    (o : Option Json) (d : Json) (t : String)
    → or_default d o ≡ str t
    → d ≢ str t
    → o ≡ some (str t)
found_text none d t h ne = absurd (ne h)
found_text (some v) d t h ne = ap some h

-- Below an entry that `get` found, or below an empty dictionary in its place.
found_below :
    (k : String) (o : Option Json) (v : Json) (t : String)
    → or_default (obj end) o ≡ v
    → path (k ∷ []) v ≡ some (str t)
    → o ≡ some v
found_below k none v t h p = cc (subst (λ x. path (k ∷ []) x ≡ some (str t)) (sym h) p)
found_below k (some w) v t h p = ap some h

module _ {S : Type 0} where
  address_path :
      (k : String) (v a : Json) (t : String) (s u : S)
      → Gave (get k null v s) a u
      → is_text t a ≡ true
      → path (k ∷ []) v ≡ some (str t)
  address_path k v a t s u h same =
      let (fs, e, found, _) = get-Gave k null v a s u h in
      subst (λ x. path (k ∷ []) x ≡ some (str t)) (sym e)
        (path-cons k [] fs (str t)
          (found_text (lookup k fs) null t (found ∙ is_text-eq t a same) (ground arith)))

  entry_path :
      (k j : String) (v r : Json) (t : String) (s u : S)
      → Gave (get k (obj end) v s) r u
      → path (j ∷ []) r ≡ some (str t)
      → path (k ∷ []) v ≡ some r
  entry_path k j v r t s u h p =
      let (fs, e, found, _) = get-Gave k (obj end) v r s u h in
      subst (λ x. path (k ∷ []) x ≡ some r) (sym e)
        (path-cons k [] fs r (found_below j (lookup k fs) r t found p))

  matched :
      (facts : Json) (ip name : String) (interface ipv4 address found : Json)
      (s0 s1 s2 s3 s4 s5 s6 s7 : S)
      → is_skipped name ≡ false
      → Gave (get name (obj end) facts s0) interface s1
      → Gave (get "ipv4" (obj end) interface s2) ipv4 s3
      → Gave (get "address" null ipv4 s4) address s5
      → is_text ip address ≡ true
      → Gave (item name facts s6) found s7
      → Carries facts ip found
  matched facts ip name interface ipv4 address found s0 s1 s2 s3 s4 s5 s6 s7 wanted h1 h2 h3 same
        h4 =
      let (fs, is_dict, entry, _) = item-Gave name facts found s6 s7 h4 in
      let (gs, is_dict', default, _) = get-Gave name (obj end) facts interface s0 s1 h1 in
      let address_there = address_path "address" ipv4 address ip s4 s5 h3 same in
      let ipv4_there = entry_path "ipv4" "address" interface ipv4 ip s2 s3 h2 address_there in
      record {
        name = name;
        is_wanted = wanted;
        in_facts =
            subst (λ v. path (name ∷ []) v ≡ some found) (sym is_dict)
              (path-cons name [] fs found entry);
        has_address =
            subst (λ v. path ("ipv4" ∷ "address" ∷ []) v ≡ some (str ip))
              (same_entry fs gs interface is_dict is_dict' default entry)
              (path_next "ipv4" ("address" ∷ []) interface ipv4 ipv4_there ∙ address_there);
      }
    where
      same_entry :
          (fs gs : Fields) (interface : Json)
          → facts ≡ obj fs
          → facts ≡ obj gs
          → or_default (obj end) (lookup name gs) ≡ interface
          → lookup name fs ≡ some found
          → interface ≡ found
      same_entry fs gs interface p q d e = cc (p, q, d, e)

  search_interface-Carries :
      (facts : Json) (ip : String) (names : List String) (s : S) (found : Json) (t : S)
      → Gave (search_interface facts ip names s) found t
      → Carries facts ip found
  unfolding search_interface
  search_interface-Carries facts ip [] s found t h = absurd (raise-Gave value_error found s t h)
  search_interface-Carries facts ip (name ∷ names) s found t h =
      elim (if-Gave (is_skipped name) (search_interface facts ip names) _ s found t h) [
        | inl (skipped, g) ↦ search_interface-Carries facts ip names s found t g
        | inr (wanted, g) ↦
            let (interface, e1, h1) = bind-Gave (get name (obj end) facts) _ s found t g in
            let (ipv4, e2, h2) = bind-Gave (get "ipv4" (obj end) interface) _ _ found t h1 in
            let (address, e3, h3) = bind-Gave (get "address" null ipv4) _ _ found t h2 in
            elim (if-Gave (is_text ip address) (item name facts) _ _ found t h3) [
              | inr (other, k) ↦ search_interface-Carries facts ip names _ found t k
              | inl (same, k) ↦
                  matched facts ip name interface ipv4 address found s _ _ _ _ _ _ t wanted
                    (e1, refl) (e2, refl) (e3, refl) same k
            ]
      ]

  -- `find_interface` returns only an interface of the facts that is not lo, service0 or usb0 and
  -- whose IPv4 address is the one that is looked for.
  pub find_interface-Carries :
      (facts : Json) (ip : String) (s : S) (found : Json) (t : S)
      → Gave (find_interface facts ip s) found t
      → Carries facts ip found
  unfolding find_interface
  find_interface-Carries facts ip s found t h =
      let (interfaces, _, h1) = bind-Gave (item "interfaces" facts) _ s found t h in
      let (items, _, h2) = bind-Gave (iterate interfaces) _ _ found t h1 in
      let (names, _, h3) = bind-Gave (names_of items) _ _ found t h2 in
      search_interface-Carries facts ip names _ found t h3
