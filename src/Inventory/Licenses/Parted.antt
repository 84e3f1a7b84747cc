-- ===== src/Inventory/Licenses/Parted.antt =====
-- The aggregates that a host joins and those that it leaves.
use chef_bcpc.Prelude.{
  String, String-discrete, Bool, true, false, not, Option, none, some, List, [], ◌∷◌, keep_if,
  contains, ◌≡◌, ◌↔◌, refl, sym, ◌∙◌, ap, subst, if_pos, if_neg, arith, if◌then◌else◌,
}
use chef_bcpc.Run.{or_raise, key_error}
use chef_bcpc.Run.Returns.{Gave, bind-Gave, pure-Gave, or_raise-Gave}
use chef_bcpc.Dict.{Dict, find, IsDict}
use chef_bcpc.Inventory.Licenses.{keys_of, values_of, look_up, host_aggregates, other_aggregates}

abbrev pub has : List String → String → Bool
has xs a = contains String-discrete xs a

pub has_head : (a : String) (xs : List String) → has (a ∷ xs) a ≡ true
has_head a xs = if_pos (String-discrete a a) refl true (has xs a)

pub has_tail : (a x : String) (xs : List String) → has xs a ≡ true → has (x ∷ xs) a ≡ true
has_tail a x xs h = elim (String-discrete x a) [
  | yes e ↦ if_pos (String-discrete x a) e true (has xs a)
  | no ne ↦ if_neg (String-discrete x a) ne true (has xs a) ∙ h
]

-- A table has the value at a key of the list.
record ValueOf (table : Dict String) (keys : List String) (a : String) : Type 0 where
  license : String
  listed : has keys license ≡ true
  value : find license table ≡ some a

more :
    (table : Dict String) (keys : List String) (l a : String)
    → ValueOf table keys a
    → ValueOf table (l ∷ keys) a
more table keys l a v = record {
  license = v.license;
  listed = has_tail v.license l keys v.listed;
  value = v.value;
}

first :
    (table : Dict String) (keys : List String) (l a b : String)
    → find l table ≡ some a
    → a ≡ b
    → ValueOf table (l ∷ keys) b
first table keys l a b found e = record {
  license = l;
  listed = has_head l keys;
  value = found ∙ ap some e;
}

look_up_sound :
    {S : Type 0} (table : Dict String) (keys found : List String) (s t : S) (a : String)
    → Gave (look_up table keys s) found t
    → has found a ≡ true
    → ValueOf table keys a
unfolding look_up
look_up_sound table [] found s t a h m =
    cc (subst (λ x. has x a ≡ true) (sym ((pure-Gave [] found s t h).0)) m)
look_up_sound table (l ∷ keys) found s t a h m =
    let (v, e1, h1) = bind-Gave (or_raise key_error (find l table)) _ s found t h in
    let (rest, e2, h2) = bind-Gave (look_up table keys) _ _ found t h1 in
    let m' = subst (λ x. has x a ≡ true) (sym ((pure-Gave (v ∷ rest) found _ t h2).0)) m in
    let at = (or_raise-Gave key_error (find l table) v s _ (e1, refl)).0 in
    elim (String-discrete v a) [
      | yes e ↦ first table keys l v a at e
      | no ne ↦ more table keys l a (
          look_up_sound table keys rest _ _ a (e2, refl)
            (sym (if_neg (String-discrete v a) ne true (has rest a)) ∙ m'))
    ]

look_up_complete :
    {S : Type 0} (table : Dict String) (keys found : List String) (s t : S) (l a : String)
    → Gave (look_up table keys s) found t
    → has keys l ≡ true
    → find l table ≡ some a
    → has found a ≡ true
unfolding look_up
look_up_complete table [] found s t l a h m f = cc m
look_up_complete table (k ∷ keys) found s t l a h m f =
    let (v, e1, h1) = bind-Gave (or_raise key_error (find k table)) _ s found t h in
    let (rest, e2, h2) = bind-Gave (look_up table keys) _ _ found t h1 in
    let at = (or_raise-Gave key_error (find k table) v s _ (e1, refl)).0 in
    subst (λ x. has x a ≡ true) ((pure-Gave (v ∷ rest) found _ t h2).0)
      (elim (String-discrete k l) [
        | yes e ↦ subst (λ x. has (x ∷ rest) a ≡ true) (same_value k l v a e at f) (has_head a rest)
        | no ne ↦ has_tail a v rest (
            look_up_complete table keys rest _ _ l a (e2, refl)
              (sym (if_neg (String-discrete k l) ne true (has keys l)) ∙ m) f)
      ])
  where
    same_value : (k l v a : String) → k ≡ l → find k table ≡ some v → find l table ≡ some a → a ≡ v
    same_value k l v a e at f = cc (ap (λ x. find x table) e, at, f)

-- The licenses of a host.
abbrev pub holds : Option (List String) → String → Bool
holds none l = false
holds (some licenses) l = has licenses l

-- Python lists the elements of a set, in some order.
pub record IsListing (listing : List String → List String) : Type 0 where
  pub same : (xs : List String) (a : String) → has (listing xs) a ≡ has xs a

-- The table has the aggregate for a license that the host holds, or for one that it does not hold.
pub record For (table : Dict String) (licenses : Option (List String)) (held : Bool) (a : String)
    : Type 0 where
  pub license : String
  pub state : holds licenses license ≡ held
  pub value : find license table ≡ some a

has-keys_of :
    (table : Dict String) (l a : String) → find l table ≡ some a → has (keys_of table) l ≡ true
has-keys_of [] l a f = cc f
has-keys_of ((k, v) ∷ table) l a f = elim (String-discrete k l) [
  | yes e ↦ if_pos (String-discrete k l) e true (has (keys_of table) l)
  | no ne ↦
      has_tail l k (keys_of table)
        (has-keys_of table l a (sym (if_neg (String-discrete k l) ne (some v) (find l table)) ∙ f))
]

has-keep_if :
    (p : String → Bool) (xs : List String) (l : String)
    → has (keep_if p xs) l ≡ (if p l then has xs l else false)
has-keep_if p [] l = ground arith
has-keep_if p (x ∷ xs) l = elim (String-discrete x l) [
  | yes e ↦ ground (arith, has-keep_if p xs l, ap p e)
  | no ne ↦ ground (arith, has-keep_if p xs l)
]

has-values_of :
    (table : Dict String) (l a : String) → find l table ≡ some a → has (values_of table) a ≡ true
has-values_of [] l a f = cc f
has-values_of ((k, v) ∷ table) l a f = elim (String-discrete k l) [
  | yes e ↦
      subst (λ x. has (x ∷ values_of table) a ≡ true)
        (value_at (sym (if_pos (String-discrete k l) e (some v) (find l table)) ∙ f))
        (has_head a (values_of table))
  | no ne ↦
      has_tail a v (values_of table) (
        has-values_of table l a (sym (if_neg (String-discrete k l) ne (some v) (find l table)) ∙ f))
]
  where
    value_at : some v ≡ some a → a ≡ v
    value_at e = cc e

values_of-find :
    (table : Dict String) (a : String)
    → IsDict table
    → has (values_of table) a ≡ true
    → (l : String) × (find l table ≡ some a)
values_of-find [] a d m = cc m
values_of-find ((k, v) ∷ table) a d m = elim (String-discrete v a) [
  | yes e ↦ (k, if_pos (String-discrete k k) refl (some v) (find k table) ∙ ap some e)
  | no ne ↦
      let (l, f) =
        values_of-find table a d.1
          (sym (if_neg (String-discrete v a) ne true (has (values_of table) a)) ∙ m) in
      (
        l,
        elim (String-discrete k l) [
          | yes e ↦ cc (d.0, f, ap (λ x. find x table) e)
          | no other ↦ if_neg (String-discrete k l) other (some v) (find l table) ∙ f
        ],
      )
]

not_held : (b c : Bool) → (if not b then c else false) ≡ true → b ≡ false
not_held true c h = cc h
not_held false c h = refl

module _ {S : Type 0} where
  host_aggregates-For :
      (licenses : Option (List String)) (table : Dict String) (s : S) (added : List String) (t : S)
      (a : String)
      → Gave (host_aggregates licenses table s) added t
      → (has added a ≡ true) ↔ For table licenses true a
  unfolding host_aggregates
  host_aggregates-For none table s added t a h = (
    (λ m. cc (subst (λ x. has x a ≡ true) (sym ((pure-Gave [] added s t h).0)) m)),
    λ f. cc f.state,
  )
  host_aggregates-For (some licenses) table s added t a h = (
    (λ m.
        let v = look_up_sound table licenses added s t a h m in
        record { license = v.license; state = v.listed; value = v.value }),
    λ f. look_up_complete table licenses added s t f.license a h f.state f.value,
  )

module _ (listing : List String → List String) (listed : IsListing listing) where
  -- The licenses that are looked up: those of the table that the host has not.
  left :
      (licenses : List String) (table : Dict String) (l : String)
      → has (listing (keep_if (λ k. not (has licenses k)) (keys_of table))) l
        ≡ (if not (has licenses l) then has (keys_of table) l else false)
  left licenses table l =
      listed.same (keep_if (λ k. not (has licenses k)) (keys_of table)) l
      ∙ has-keep_if (λ k. not (has licenses k)) (keys_of table) l

  other_aggregates-For :
      {S : Type 0} (licenses : Option (List String)) (table : Dict String) (s : S)
      (removed : List String) (t : S) (a : String)
      → IsDict table
      → Gave (other_aggregates listing licenses table s) removed t
      → (has removed a ≡ true) ↔ For table licenses false a
  unfolding other_aggregates
  other_aggregates-For none table s removed t a d h =
      let e = (pure-Gave (values_of table) removed s t h).0 in
      (
        (λ m.
            let (l, f) = values_of-find table a d (subst (λ x. has x a ≡ true) (sym e) m) in
            record { license = l; state = refl; value = f }),
        λ f. subst (λ x. has x a ≡ true) e (has-values_of table f.license a f.value),
      )
  other_aggregates-For (some licenses) table s removed t a d h = (
    (λ m.
        let v = look_up_sound table _ removed s t a h m in
        record {
          license = v.license;
          state =
              not_held (has licenses v.license) (has (keys_of table) v.license)
                (sym (left licenses table v.license) ∙ v.listed);
          value = v.value;
        }),
    λ f.
        look_up_complete table _ removed s t f.license a h
          (left licenses table f.license ∙ rw (f.state) (has-keys_of table f.license a f.value))
          f.value,
  )

  -- Where both filters find every license that they look up, the host is to join the aggregates of
  -- the licenses that it holds, and no other, and to leave the aggregates of the licenses of the
  -- table that it does not hold, and no other. In the table a license stands once.
  pub aggregates-For :
      {S : Type 0} (licenses : Option (List String)) (table : Dict String)
      (added removed : List String) (s t u v : S) (a : String)
      → IsDict table
      → Gave (host_aggregates licenses table s) added t
      → Gave (other_aggregates listing licenses table u) removed v
      → ((has added a ≡ true) ↔ For table licenses true a)
        × ((has removed a ≡ true) ↔ For table licenses false a)
  aggregates-For licenses table added removed s t u v a d h g = (
    host_aggregates-For licenses table s added t a h,
    other_aggregates-For licenses table u removed v a d g,
  )
