-- ===== src/Lightos/Acl/Opened.antt =====
-- What becomes of the values of an ACL and of an IP ACL that a host is added to.
use chef_bcpc.Prelude.{
  ◌≤◌, ◌&&◌, ◌||◌, not, Bool, true, false, some, List, [], ◌∷◌, ◌++◌, length, all, if◌then◌else◌,
  ◌≢◌, ◌≡◌, refl, sym, subst, ap, ◌∙◌, arith, Bool-cases, inl, inr,
}
use chef_bcpc.Json.{Json, null, bool, num, str, arr, obj, Items, to_list, of_list}
use chef_bcpc.Run.{pure, raise, attribute_error, type_error}
use chef_bcpc.Run.Returns.{Gave, bind-Gave, pure-Gave, raise-Gave}
use chef_bcpc.Dynamic.{iterate, is_in, is_hashable, holds}
use chef_bcpc.Dynamic.Returns.{is_in-Gave, iterate-Gave}
use chef_bcpc.Lightos.Session.{Env, Session, Action}
use chef_bcpc.Lightos.Acl.{member, add_host, add_ips, discard}
use chef_bcpc.Lightos.Acl.Laws.{member-append}
use chef_bcpc.Lightos.Acl.Bounds.{add_ips-length}
use chef_bcpc.Lightos.Acl.Values.{
  open_other, open_acl, hashed, open_other_ips, open_ip_acl, unless_called,
}
use chef_bcpc.Lightos.Volume.{allow_none}

to_list-of_list : (xs : List Json) → to_list (of_list xs) ≡ xs
to_list-of_list [] = refl
to_list-of_list (x ∷ xs) = ap (λ ys. x ∷ ys) (to_list-of_list xs)

member_self : (a : Json) → member a (a ∷ []) ≡ true
member_self a = ground arith

-- Who is added is in.
member-add_host : (host : Json) (acl : List Json) → member host (add_host host acl) ≡ true
unfolding add_host
member-add_host host acl = elim (Bool-cases (member host (discard allow_none acl))) [
  | inl old ↦ rw old old
  | inr new ↦
      rw (new, member-append host (discard allow_none acl) (host ∷ []), member_self host)
        (ground arith)
]

module _ (E : Env) where
  called :
      {A : Type 0} (b : Bool) (m : Action E A) (s : Session E) (a : A) (t : Session E)
      → Gave (unless_called E b m s) a t
      → (b ≡ false) × Gave (m s) a t
  called true m s a t h = absurd (raise-Gave attribute_error a s t h)
  called false m s a t h = (refl, h)

  open_other-Gave :
      (host values acl : Json) (s t : Session E)
      → Gave (open_other E host values s) acl t
      → (holds host acl ≡ some true) × (values ≡ acl) × (s ≡ t)
  unfolding open_other
  open_other-Gave host values acl s t h =
      let (closed, e1, h1) = bind-Gave (is_in allow_none values) _ s acl t h in
      let (_, h2) = called closed _ _ acl t h1 in
      let (listed, e3, h3) = bind-Gave (is_in host values) _ _ acl t h2 in
      let (there, h4) = called (not listed) _ _ acl t h3 in
      let (_, same1) = is_in-Gave allow_none values closed s _ (e1, refl) in
      let (is, same3) = is_in-Gave host values listed _ _ (e3, refl) in
      let (e, same) = pure-Gave values acl _ t h4 in
      (
        subst (λ v. holds host v ≡ some true) e (is ∙ ap some (is_true listed there)),
        e,
        same1 ∙ same3 ∙ same,
      )
    where
      is_true : (b : Bool) → not b ≡ false → b ≡ true
      is_true true e = refl
      is_true false e = cc e

  -- What is made of the values of the ACL: a list has what `add_host` makes of it.
  pub record Opened (host values acl : Json) : Type 0 where
    pub host_in : holds host acl ≡ some true
    pub of_a_list :
        (xs : Items) → values ≡ arr xs → acl ≡ arr (of_list (add_host host (to_list xs)))

  other-Opened :
      (host values acl : Json) (s t : Session E)
      → ((xs : Items) → values ≢ arr xs)
      → Gave (open_other E host values s) acl t
      → Opened host values acl × (s ≡ t)
  other-Opened host values acl s t ne h =
      let (is, _, same) = open_other-Gave host values acl s t h in
      (record { host_in = is; of_a_list = λ xs e. absurd (ne xs e) }, same)

  pub open_acl-Opened :
      (host values acl : Json) (s t : Session E)
      → Gave (open_acl E host values s) acl t
      → Opened host values acl × (s ≡ t)
  unfolding open_acl
  open_acl-Opened host (arr xs) acl s t h =
      let (e, same) = pure-Gave (arr (of_list (add_host host (to_list xs)))) acl s t h in
      (
        record {
          host_in =
              subst (λ v. holds host v ≡ some true) e
                (ap some (
                  ap (member host) (to_list-of_list (add_host host (to_list xs)))
                  ∙ member-add_host host (to_list xs)));
          of_a_list = λ ys p. sym e ∙ ap (λ l. arr (of_list (add_host host l))) (same_list xs ys p);
        },
        same,
      )
    where
      same_list : (xs ys : Items) → arr xs ≡ arr ys → to_list xs ≡ to_list ys
      same_list xs ys p = cc p
  open_acl-Opened host (obj fs) acl s t h = other-Opened host _ acl s t (λ xs e. cc e) h
  open_acl-Opened host (str x) acl s t h = other-Opened host _ acl s t (λ xs e. cc e) h
  open_acl-Opened host (num n) acl s t h = other-Opened host _ acl s t (λ xs e. cc e) h
  open_acl-Opened host (bool b) acl s t h = other-Opened host _ acl s t (λ xs e. cc e) h
  open_acl-Opened host null acl s t h = other-Opened host _ acl s t (λ xs e. cc e) h

  -- An IP ACL as it is written: sixteen entries at most, of a list what `add_ips` makes of it.
  pub record OpenedIps (host_ips : List Json) (values ip_acl : Json) : Type 0 where
    pub ips : List Json
    pub is_list : ip_acl ≡ arr (of_list ips)
    pub short : length ips ≤ 16
    pub from_list : (xs : Items) → values ≡ arr xs → ips ≡ add_ips E host_ips (to_list xs)

  hashed-Gave :
      (host_ips ips : List Json) (u : Unit) (s t : Session E)
      → Gave (hashed E host_ips ips s) u t
      → s ≡ t
  unfolding hashed
  hashed-Gave host_ips ips u s t h =
      go (E.config.lightos_use_ipacl && not (all is_hashable (ips ++ host_ips))) h
    where
      go : (b : Bool) → Gave ((if b then raise type_error else pure tt) s) u t → s ≡ t
      go true h = absurd (raise-Gave type_error u s t h)
      go false h = (pure-Gave tt u s t h).1

  other-OpenedIps :
      (host_ips : List Json) (values ip_acl : Json) (s t : Session E)
      → ((xs : Items) → values ≢ arr xs)
      → Gave (open_other_ips E host_ips values s) ip_acl t
      → OpenedIps host_ips values ip_acl × (s ≡ t)
  unfolding open_other_ips
  other-OpenedIps host_ips values ip_acl s t ne h =
      let (closed, e1, h1) = bind-Gave (is_in allow_none values) _ s ip_acl t h in
      let (_, h2) = called (closed || not E.config.lightos_use_ipacl) _ _ ip_acl t h1 in
      let (ips, e3, h3) = bind-Gave (iterate values) _ _ ip_acl t h2 in
      let (u, e4, h4) = bind-Gave (hashed E host_ips ips) _ _ ip_acl t h3 in
      let (e, same) = pure-Gave (arr (of_list (add_ips E host_ips ips))) ip_acl _ t h4 in
      (
        record {
          ips = add_ips E host_ips ips;
          is_list = sym e;
          short = add_ips-length E host_ips ips;
          from_list = λ xs p. absurd (ne xs p);
        },
        (is_in-Gave allow_none values closed s _ (e1, refl)).1
            ∙ (iterate-Gave values ips _ _ (e3, refl)).1
            ∙ hashed-Gave host_ips ips u _ _ (e4, refl)
            ∙ same,
      )

  pub open_ip_acl-OpenedIps :
      (host_ips : List Json) (values ip_acl : Json) (s t : Session E)
      → Gave (open_ip_acl E host_ips values s) ip_acl t
      → OpenedIps host_ips values ip_acl × (s ≡ t)
  unfolding open_ip_acl
  open_ip_acl-OpenedIps host_ips (arr xs) ip_acl s t h =
      let (u, e1, h1) = bind-Gave (hashed E host_ips (to_list xs)) _ s ip_acl t h in
      let (e, same) = pure-Gave (arr (of_list (add_ips E host_ips (to_list xs)))) ip_acl _ t h1 in
      (
        record {
          ips = add_ips E host_ips (to_list xs);
          is_list = sym e;
          short = add_ips-length E host_ips (to_list xs);
          from_list = λ ys p. ap (add_ips E host_ips) (same_list xs ys p);
        },
        hashed-Gave host_ips (to_list xs) u s _ (e1, refl) ∙ same,
      )
    where
      same_list : (xs ys : Items) → arr xs ≡ arr ys → to_list xs ≡ to_list ys
      same_list xs ys p = cc p
  open_ip_acl-OpenedIps ips (obj fs) acl s t h = other-OpenedIps ips _ acl s t (λ xs e. cc e) h
  open_ip_acl-OpenedIps ips (str x) acl s t h = other-OpenedIps ips _ acl s t (λ xs e. cc e) h
  open_ip_acl-OpenedIps ips (num n) acl s t h = other-OpenedIps ips _ acl s t (λ xs e. cc e) h
  open_ip_acl-OpenedIps ips (bool b) acl s t h = other-OpenedIps ips _ acl s t (λ xs e. cc e) h
  open_ip_acl-OpenedIps ips null acl s t h = other-OpenedIps ips _ acl s t (λ xs e. cc e) h
