-- ===== src/Inventory/Filters/Chef/Kept.antt =====
-- What `update_chef_node_host_vars` writes into the node, and what it keeps.
use chef_bcpc.Prelude.{
  String, true, false, Option, none, some, [], ◌∷◌, ◌≡◌, ◌≢◌, refl, sym, ◌∙◌, ap, subst,
  String-discrete, str_eq, str_eq_self, str_eq_other, if◌then◌else◌, arith, inl, inr,
}
use chef_bcpc.Json.{Json, null, bool, num, str, arr, obj, Fields, end, field, lookup}
use chef_bcpc.Run.{pure, type_error}
use chef_bcpc.Run.Returns.{Gave, bind-Gave, pure-Gave, raise-Gave, if-Gave}
use chef_bcpc.Dict.{override}
use chef_bcpc.Dynamic.{item, get, put, or_default}
use chef_bcpc.Dynamic.Returns.{
  path, path-cons, path_next, path_same, path-lookup, item-path, item-Gave, get-Gave,
}
use chef_bcpc.Inventory.Filters.{set_item}
use chef_bcpc.Inventory.Filters.Chef.{
  is_null, set_normal, copy_attribute, update_chef_node_host_vars,
}

-- An attribute `k` alone.
abbrev pub only : String → Option Json → String → Option Json
only k o j = if str_eq k j then o else none

-- The value of a variable that is set and not null.
abbrev pub set_value : Option Json → Option Json
set_value (some null) = none
set_value o = o

abbrev pub boxed : Option Json → Option Json
boxed none = none
boxed (some v) = some (obj (field "interfaces" v end))

-- The attributes that the variables of a host give its node.
abbrev pub attributes : Json → String → Option Json
attributes hostvars k = override (only "zone" (set_value (path ("zone" ∷ []) hostvars)) k) (
    override (only "aggregate" (set_value (path ("aggregate" ∷ []) hostvars)) k) (
      override (only "licenses" (set_value (path ("licenses" ∷ []) hostvars)) k) (
        override (only "host_vars" (boxed (path ("interfaces" ∷ []) hostvars)) k)
          (only "service_ip" (path ("interfaces" ∷ "service" ∷ "ip" ∷ []) hostvars) k))))

-- `node` became `node'`: only its entry "normal" changed, and in it the given attributes.
pub record Updated (given : String → Option Json) (node node' : Json) : Type 0 where
  pub normal : Fields
  pub normal' : Fields
  pub was : path ("normal" ∷ []) node ≡ some (obj normal)
  pub becomes : path ("normal" ∷ []) node' ≡ some (obj normal')
  pub others : (k : String) → "normal" ≢ k → path (k ∷ []) node' ≡ path (k ∷ []) node
  pub entries : (k : String) → lookup k normal' ≡ override (given k) (lookup k normal)

only_same : (k : String) (o : Option Json) → only k o k ≡ o
only_same k o = rw (only, str_eq_self k) refl

only_other : (k j : String) (o : Option Json) → k ≢ j → only k o j ≡ none
only_other k j o ne = rw (only, str_eq_other k j ne) refl

lookup-put_same : (k : String) (v : Json) (fs : Fields) → lookup k (put k v fs) ≡ some v
lookup-put_same k v end = rw (put, lookup, str_eq_self k) refl
lookup-put_same k v (field i w fs) = elim (String-discrete i k) [
  | yes e ↦ rw (put, lookup, e, str_eq_self k, lookup, str_eq_self k) refl
  | no ne ↦
      rw (put, lookup, str_eq_other i k ne, lookup, str_eq_other i k ne) (lookup-put_same k v fs)
]

lookup-put_other :
    (k j : String) (v : Json) (fs : Fields) → k ≢ j → lookup j (put k v fs) ≡ lookup j fs
lookup-put_other k j v end ne = rw (put, lookup, str_eq_other k j ne) refl
lookup-put_other k j v (field i w fs) ne = elim (String-discrete i k) [
  | yes e ↦ rw (put, lookup, e, str_eq_self k, str_eq_other k j ne) refl
  | no ne' ↦
      rw (put, lookup, str_eq_other i k ne')
        (ap (λ o. if str_eq i j then some w else o) (lookup-put_other k j v fs ne))
]

lookup-put :
    (k j : String) (v : Json) (fs : Fields)
    → lookup j (put k v fs) ≡ override (only k (some v) j) (lookup j fs)
lookup-put k j v fs = elim (String-discrete k j) [
  | yes e ↦
      subst (λ i. lookup i (put k v fs) ≡ override (only k (some v) i) (lookup i fs)) e
        (rw (only_same k (some v)) (lookup-put_same k v fs))
  | no ne ↦ rw (only_other k j (some v) ne) (lookup-put_other k j v fs ne)
]

override_assoc : (a b c : Option Json) → override a (override b c) ≡ override (override a b) c
override_assoc none b c = refl
override_assoc (some v) b c = refl

Updated-trans :
    (f g : String → Option Json) (a b c : Json)
    → Updated f a b
    → Updated g b c
    → Updated (λ k. override (g k) (f k)) a c
Updated-trans f g a b c u v = record {
  normal = u.normal;
  normal' = v.normal';
  was = u.was;
  becomes = v.becomes;
  others = λ k ne. v.others k ne ∙ u.others k ne;
  entries = λ k.
      v.entries k
      ∙ ap (override (g k))
          (ap (lookup k) (same u.normal' v.normal (sym u.becomes ∙ v.was)) ∙ u.entries k)
      ∙ override_assoc (g k) (f k) (lookup k u.normal);
}
  where
    same : (m n : Fields) → some (obj m) ≡ some (obj n) → n ≡ m
    same m n e = cc e

value_null :
    (o : Option Json) (v : Json) → or_default null o ≡ v → is_null v ≡ true → set_value o ≡ none
value_null o v e h = ground arith

value_set :
    (o : Option Json) (v : Json) → or_default null o ≡ v → is_null v ≡ false → set_value o ≡ some v
value_set o v e h = ground arith

-- An attribute that is not given leaves the others.
override-only : (k : String) (o : Option Json) (j : String) → o ≡ override (only k none j) o
override-only k o j = ground arith

Updated-same :
    (f g : String → Option Json) (a b : Json)
    → ((k : String) → f k ≡ g k)
    → Updated f a b
    → Updated g a b
Updated-same f g a b e u = record {
  normal = u.normal;
  normal' = u.normal';
  was = u.was;
  becomes = u.becomes;
  others = u.others;
  entries = λ k. u.entries k ∙ ap (λ o. override o (lookup k u.normal)) (e k);
}

module _ {S : Type 0} where
  set_item-Gave :
      (k : String) (new v r : Json) (s t : S)
      → Gave (set_item k new v s) r t
      → (fs : Fields) × (v ≡ obj fs) × (r ≡ obj (put k new fs))
  unfolding set_item
  set_item-Gave k new (obj fs) r s t h = (fs, refl, sym ((pure-Gave _ r s t h).0))
  set_item-Gave k new null r s t h = absurd (raise-Gave type_error r s t h)
  set_item-Gave k new (bool b) r s t h = absurd (raise-Gave type_error r s t h)
  set_item-Gave k new (num n) r s t h = absurd (raise-Gave type_error r s t h)
  set_item-Gave k new (str x) r s t h = absurd (raise-Gave type_error r s t h)
  set_item-Gave k new (arr xs) r s t h = absurd (raise-Gave type_error r s t h)

  set_normal-Updated :
      (k : String) (v node node' : Json) (s t : S)
      → Gave (set_normal k v node s) node' t
      → Updated (only k (some v)) node node'
  unfolding set_normal
  set_normal-Updated k v node node' s t h =
      let (n, e1, h1) = bind-Gave (item "normal" node) _ s node' t h in
      let (n', e2, h2) = bind-Gave (set_item k v n) _ _ node' t h1 in
      let (fs, is_dict, found, _) = item-Gave "normal" node n s _ (e1, refl) in
      let (ns, is_dict', set) = set_item-Gave k v n n' _ _ (e2, refl) in
      let (gs, is_dict'', set') = set_item-Gave "normal" n' node node' _ t h2 in
      record {
        normal = ns;
        normal' = put k v ns;
        was =
            subst (λ x. path ("normal" ∷ []) x ≡ some (obj ns)) (sym is_dict)
              (path-cons "normal" [] fs (obj ns) (found ∙ ap some is_dict'));
        becomes =
            subst (λ x. path ("normal" ∷ []) x ≡ some (obj (put k v ns))) (sym set')
              (path-cons "normal" [] (put "normal" n' gs) (obj (put k v ns))
                (lookup-put_same "normal" n' gs ∙ ap some set));
        others = λ j ne.
            ap (path (j ∷ [])) set'
            ∙ path_same j [] (put "normal" n' gs) gs (lookup-put_other "normal" j n' gs ne)
            ∙ ap (path (j ∷ [])) (sym is_dict'');
        entries = λ j. lookup-put k j v ns;
      }

  copy_attribute-Updated :
      (k : String) (hostvars node node' : Json) (f : String → Option Json) (before : Json) (s t : S)
      → Updated f before node
      → Gave (copy_attribute k hostvars node s) node' t
      → Updated (λ j. override (only k (set_value (path (k ∷ []) hostvars)) j) (f j)) before node'
  unfolding copy_attribute
  copy_attribute-Updated k hostvars node node' f before s t u h =
      let (v, e1, h1) = bind-Gave (get k null hostvars) _ s node' t h in
      let (fs, is_dict, found, _) = get-Gave k null hostvars v s _ (e1, refl) in
      let e = sym (ap (λ x. path (k ∷ []) x) is_dict ∙ path-lookup k fs) in
      elim (if-Gave (is_null v) (pure node) (set_normal k v node) _ node' t h1) [
        | inl (is_none, g) ↦
            subst
              (λ n.
                Updated (λ j. override (only k (set_value (path (k ∷ []) hostvars)) j) (f j)) before
                  n)
              ((pure-Gave node node' _ t g).0)
              (Updated-same f _ before node
                (λ j.
                  rw
                    (value_null (path (k ∷ []) hostvars) v (ap (or_default null) (sym e) ∙ found)
                      is_none)
                    (override-only k (f j) j))
                u)
        | inr (there, g) ↦
            rw (value_set (path (k ∷ []) hostvars) v (ap (or_default null) (sym e) ∙ found) there) (
              Updated-trans f (only k (some v)) before node node' u
                (set_normal-Updated k v node node' _ t g))
      ]

  -- Where `update_chef_node_host_vars` returns, the node has changed only in the entry "normal", and
  -- there only in the attributes service_ip and host_vars, and licenses, aggregate and zone where the
  -- host sets them and they are not null, which have the values of the host's variables.
  pub update_chef_node_host_vars-Updated :
      (node hostvars : Json) (s : S) (node' : Json) (t : S)
      → Gave (update_chef_node_host_vars node hostvars s) node' t
      → Updated (attributes hostvars) node node'
  unfolding update_chef_node_host_vars
  update_chef_node_host_vars-Updated node hostvars s node' t h =
      let (interfaces, e1, h1) = bind-Gave (item "interfaces" hostvars) _ s node' t h in
      let (service, e2, h2) = bind-Gave (item "service" interfaces) _ _ node' t h1 in
      let (ip, e3, h3) = bind-Gave (item "ip" service) _ _ node' t h2 in
      let (node1, e4, h4) = bind-Gave (set_normal "service_ip" ip node) _ _ node' t h3 in
      let (node2, e5, h5) =
        bind-Gave (set_normal "host_vars" (obj (field "interfaces" interfaces end)) node1) _ _ node'
          t h4 in
      let (node3, e6, h6) = bind-Gave (copy_attribute "licenses" hostvars node2) _ _ node' t h5 in
      let (node4, e7, h7) = bind-Gave (copy_attribute "aggregate" hostvars node3) _ _ node' t h6 in
      updated interfaces service ip node1 node2 node3 node4 _ _ _ _ _ _ _ _ _ _
        (item-path "interfaces" hostvars interfaces s _ (e1, refl))
        (item-path "service" interfaces service _ _ (e2, refl))
        (item-path "ip" service ip _ _ (e3, refl)) (e4, refl) (e5, refl) (e6, refl) (e7, refl) h7
    where
      updated :
          (interfaces service ip node1 node2 node3 node4 : Json) (s1 t1 s2 t2 s3 t3 s4 t4 s5 t5 : S)
          → path ("interfaces" ∷ []) hostvars ≡ some interfaces
          → path ("service" ∷ []) interfaces ≡ some service
          → path ("ip" ∷ []) service ≡ some ip
          → Gave (set_normal "service_ip" ip node s1) node1 t1
          → Gave
              (set_normal "host_vars" (obj (field "interfaces" interfaces end)) node1 s2)
              node2
              t2
          → Gave (copy_attribute "licenses" hostvars node2 s3) node3 t3
          → Gave (copy_attribute "aggregate" hostvars node3 s4) node4 t4
          → Gave (copy_attribute "zone" hostvars node4 s5) node' t5
          → Updated (attributes hostvars) node node'
      updated interfaces service ip node1 node2 node3 node4 s1 t1 s2 t2 s3 t3 s4 t4 s5 t5 a b c h1
            h2 h3 h4 h5 =
          let ip_path =
            path_next "interfaces" ("service" ∷ "ip" ∷ []) hostvars interfaces a
            ∙ path_next "service" ("ip" ∷ []) interfaces service b
            ∙ c in
          let u2 =
            Updated-trans _ _ node node1 node2
              (set_normal-Updated "service_ip" ip node node1 s1 t1 h1)
              (set_normal-Updated "host_vars" (obj (field "interfaces" interfaces end)) node1 node2
                s2 t2 h2) in
          let u5 =
            copy_attribute-Updated "zone" hostvars node4 node' _ node s5 t5
              (copy_attribute-Updated "aggregate" hostvars node3 node4 _ node s4 t4
                (copy_attribute-Updated "licenses" hostvars node2 node3 _ node s3 t3 u2 h3) h4)
              h5 in
          Updated-same _ (attributes hostvars) node node' (λ k. cc (ap boxed a, ip_path)) u5
