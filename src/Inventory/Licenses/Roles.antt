-- ===== src/Inventory/Licenses/Roles.antt =====
-- The hosts with a role.
use chef_bcpc.Prelude.{
  String, String-discrete, ◌<>◌, Bool, true, false, some, List, [], ◌∷◌, distinct,
  contains-distinct, ◌≡◌, ◌↔◌, refl, sym, ◌∙◌, ap, subst, if_pos, if_neg, if◌then◌else◌, Bool-cases,
  inl, inr, ℕ, zero, suc, get_elem?, ◌||◌, Option, arith,
}
use chef_bcpc.Json.{Json, str, Json-discrete}
use chef_bcpc.Run.Returns.{Gave, bind-Gave, pure-Gave}
use chef_bcpc.Dynamic.{item, iterate, items_of}
use chef_bcpc.Dynamic.Returns.{path, path_next, item-path, iterate-Gave}
use chef_bcpc.Inventory.Licenses.{has_role, hosts_with_role, get_hosts_chef_role}
use chef_bcpc.Inventory.Licenses.Parted.{has, has_tail, IsListing}

-- The role stands at some position of the host's run list.
pub record WithRole (host_variables : Json) (role host : String) : Type 0 where
  pub run_list : Json
  pub in_variables : path (host ∷ "run_list" ∷ []) host_variables ≡ some run_list
  pub roles : List Json
  pub has_members : items_of run_list ≡ some roles
  pub position : ℕ
  pub listed : get_elem? roles position ≡ some (str role)

role_at :
    (role : String) (roles : List Json)
    → has_role role roles ≡ true
    → (i : ℕ) × (get_elem? roles i ≡ some (str role))
role_at role [] h = cc h
role_at role (r ∷ roles) h = elim (Json-discrete r (str role)) [
  | yes e ↦ (0, ap some e)
  | no ne ↦
      let (i, e) = role_at role roles (
        sym (ap (λ b. b || has_role role roles) (if_neg (Json-discrete r (str role)) ne true false))
        ∙ h) in
      (suc i, e)
]

at_role :
    (role : String) (roles : List Json) (i : ℕ)
    → get_elem? roles i ≡ some (str role)
    → has_role role roles ≡ true
at_role role [] i h = cc h
at_role role (r ∷ roles) zero h =
    ap (λ b. b || has_role role roles) (if_pos (Json-discrete r (str role)) (cc h) true false)
at_role role (r ∷ roles) (suc i) h = rw (at_role role roles i h) (ground arith)

-- What is read of a host in one turn of the loop.
record Turn (host_variables : Json) (role host : String) (rest found : List String) : Type 0 where
  run_list : Json
  in_variables : path (host ∷ "run_list" ∷ []) host_variables ≡ some run_list
  roles : List Json
  has_members : items_of run_list ≡ some roles
  kept : (if has_role role roles then host ∷ rest else rest) ≡ found

if_true : {A : Type 0} (b : Bool) (p q r : A) → b ≡ true → (if b then p else q) ≡ r → p ≡ r
if_true true p q r e h = h
if_true false p q r e h = cc e

if_false : {A : Type 0} (b : Bool) (p q r : A) → b ≡ false → (if b then p else q) ≡ r → q ≡ r
if_false true p q r e h = cc e
if_false false p q r e h = h

module _ (host_variables : Json) (role : String) where
  turn :
      {S : Type 0} (host : String) (hosts found : List String) (s t : S)
      → Gave (hosts_with_role (host ∷ hosts) host_variables role s) found t
      → (rest : List String) × (u : S) × (v : S) × Gave
          (hosts_with_role hosts host_variables role u)
          rest
          v
        × Turn host_variables role host rest found
  unfolding hosts_with_role
  turn host hosts found s t h =
      let (variables, e1, h1) = bind-Gave (item host host_variables) _ s found t h in
      let (run_list, e2, h2) = bind-Gave (item "run_list" variables) _ _ found t h1 in
      let (roles, e3, h3) = bind-Gave (iterate run_list) _ _ found t h2 in
      let (rest, e4, h4) = bind-Gave (hosts_with_role hosts host_variables role) _ _ found t h3 in
      let (members, _) = iterate-Gave run_list roles _ _ (e3, refl) in
      (
        rest,
        _,
        _,
        (e4, refl),
        record {
          run_list = run_list;
          in_variables =
              path_next host ("run_list" ∷ []) host_variables variables
                (item-path host host_variables variables s _ (e1, refl))
              ∙ item-path "run_list" variables run_list _ _ (e2, refl);
          roles = roles;
          has_members = members;
          kept = (pure-Gave (if has_role role roles then host ∷ rest else rest) found _ t h4).0;
        },
      )

  same_roles :
      (h : String) (v w : Json) (a b : List Json)
      → path (h ∷ "run_list" ∷ []) host_variables ≡ some v
      → path (h ∷ "run_list" ∷ []) host_variables ≡ some w
      → items_of v ≡ some a
      → items_of w ≡ some b
      → a ≡ b
  same_roles h v w a b p q m n = cc (sym m ∙ ap items_of (same_list v w (sym p ∙ q)) ∙ n)
    where
      same_list : (v w : Json) → ◌≡◌ {A = Option Json} (some v) (some w) → v ≡ w
      same_list v w e = cc e

  with_role :
      (host : String) (run_list : Json) (roles : List Json)
      → path (host ∷ "run_list" ∷ []) host_variables ≡ some run_list
      → items_of run_list ≡ some roles
      → has_role role roles ≡ true
      → WithRole host_variables role host
  with_role host run_list roles p members h =
      let (i, at) = role_at role roles h in
      record {
        run_list = run_list;
        in_variables = p;
        roles = roles;
        has_members = members;
        position = i;
        listed = at;
      }

  role_sound :
      {S : Type 0} (hosts found : List String) (s t : S) (h : String)
      → Gave (hosts_with_role hosts host_variables role s) found t
      → has found h ≡ true
      → (has hosts h ≡ true) × WithRole host_variables role h
  unfolding hosts_with_role
  role_sound [] found s t h g m =
      cc (subst (λ x. has x h ≡ true) (sym ((pure-Gave [] found s t g).0)) m)
  role_sound (x ∷ hosts) found s t h g m =
      let (rest, u, v, g', turned) = turn x hosts found s t g in
      elim (Bool-cases (has_role role turned.roles)) [
        | inl r ↦ elim (String-discrete x h) [
          | yes e ↦ (
            if_pos (String-discrete x h) e true (has hosts h),
            subst (WithRole host_variables role) e
                (with_role x turned.run_list turned.roles turned.in_variables turned.has_members r),
          )
          | no ne ↦
              let (m', w) = role_sound hosts rest u v h g' (
                sym (if_neg (String-discrete x h) ne true (has rest h))
                ∙ subst (λ l. has l h ≡ true) (sym (if_true _ (x ∷ rest) rest found r turned.kept))
                    m) in
              (has_tail h x hosts m', w)
        ]
        | inr r ↦
            let (m', w) = role_sound hosts rest u v h g' (
              subst (λ l. has l h ≡ true) (sym (if_false _ (x ∷ rest) rest found r turned.kept))
                m) in
            (has_tail h x hosts m', w)
      ]

  role_complete :
      {S : Type 0} (hosts found : List String) (s t : S) (h : String)
      → Gave (hosts_with_role hosts host_variables role s) found t
      → has hosts h ≡ true
      → WithRole host_variables role h
      → has found h ≡ true
  role_complete [] found s t h g m w = cc m
  role_complete (x ∷ hosts) found s t h g m w =
      let (rest, u, v, g', turned) = turn x hosts found s t g in
      let in_rest = role_complete hosts rest u v h g' in
      elim (Bool-cases (has_role role turned.roles)) [
        | inl r ↦
            subst (λ l. has l h ≡ true) (if_true _ (x ∷ rest) rest found r turned.kept)
              (elim (String-discrete x h) [
                | yes e ↦ if_pos (String-discrete x h) e true (has rest h)
                | no ne ↦
                    has_tail h x rest
                      (in_rest (sym (if_neg (String-discrete x h) ne true (has hosts h)) ∙ m) w)
              ])
        | inr r ↦
            subst (λ l. has l h ≡ true) (if_false _ (x ∷ rest) rest found r turned.kept)
              (elim (String-discrete x h) [
                | yes e ↦ cc (
                  r,
                  at_role role w.roles w.position w.listed,
                  ap (has_role role) (
                      same_roles x turned.run_list w.run_list turned.roles w.roles
                        turned.in_variables
                        (ap (λ k. path (k ∷ "run_list" ∷ []) host_variables) e ∙ w.in_variables)
                        turned.has_members w.has_members),
                )
                | no ne ↦ in_rest (sym (if_neg (String-discrete x h) ne true (has hosts h)) ∙ m) w
              ])
      ]

-- Where get_hosts_chef_role returns, whichever order Python lists a set in, a host is in the result
-- exactly if it is one of the given hosts and the role stands at some position of its run list.
pub get_hosts_chef_role-WithRole :
    {S : Type 0} (listing : List String → List String) (hosts : List String) (host_variables : Json)
    (chef_role : String) (s : S) (result : List String) (t : S) (h : String)
    → IsListing listing
    → Gave (get_hosts_chef_role listing hosts host_variables chef_role s) result t
    → (has result h ≡ true)
      ↔ ((has hosts h ≡ true) × WithRole host_variables ("role[" <> chef_role <> "]") h)
unfolding get_hosts_chef_role
get_hosts_chef_role-WithRole listing hosts host_variables chef_role s result t h listed g =
    let role = "role[" <> chef_role <> "]" in
    let (found, e, g1) = bind-Gave (hosts_with_role hosts host_variables role) _ s result t g in
    let same =
      ap (λ l. has l h) (sym ((pure-Gave _ result _ t g1).0))
      ∙ listed.same (distinct String-discrete found) h
      ∙ contains-distinct h found in
    (
      (λ m. role_sound host_variables role hosts found s _ h (e, refl) (sym same ∙ m)),
      λ w. same ∙ role_complete host_variables role hosts found s _ h (e, refl) w.0 w.1,
    )
