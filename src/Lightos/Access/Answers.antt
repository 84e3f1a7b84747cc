-- ===== src/Lightos/Access/Answers.antt =====
-- The wait for a host to be in an ACL is over only once the cluster lists the host.
use chef_bcpc.Prelude.{
  ◌+◌, ◌==◌, not, String, Bool, true, false, ◌≡◌, refl, inl, inr, arith, if◌then◌else◌, ◌∙◌, subst,
  some, ap,
}
use mathlib.Core.Bool.{xor}
use chef_bcpc.Json.{Json, nil, null, str, arr, obj, Fields, lookup, truthy}
use chef_bcpc.Run.{Done, pure, ◌>>◌}
use chef_bcpc.Run.Loop.{Step, again, leave, while_before}
use chef_bcpc.Run.Returns.{Gave, bind-Gave, pure-Gave, while_before-Gave}
use chef_bcpc.Dynamic.Returns.{get-Gave, is_in-Gave}
use chef_bcpc.Dynamic.{get, is_in, holds, or_default}
use chef_bcpc.Lightos.Session.{Env, Session, Action, Reply, clock}
use chef_bcpc.Lightos.Client.Answers.{LastReply}
use chef_bcpc.Lightos.Lookup.{http_ok, op_timeout, now, sleep_second, get_lightos_volume}
use chef_bcpc.Lightos.Lookup.Answers.{get_lightos_volume-LastReply}
use chef_bcpc.Lightos.Access.{settle_round, settled, wait_for_volume_acl}

-- A reply that shows the host in the ACL (`listed` true) or not in it: as a member of a list, and
-- where the cluster sends a dict or a text in its place, as a key of the one or a part of the other.
pub record ShowsMember (host : Json) (listed : Bool) (reply : Reply) : Type 0 where
  pub status_ok : reply.0 ≡ 200
  pub fields : Fields
  pub is_dict : reply.1 ≡ obj fields
  pub acl : Fields
  pub acl_found : or_default null (lookup "acl" fields) ≡ obj acl
  pub hosts : Json
  pub hosts_found : or_default (arr nil) (lookup "values" acl) ≡ hosts
  pub membership : holds host hosts ≡ some listed

module _ (E : Env) where
  abbrev done_with : Bool → Step Done Bool
  done_with b = leave b

  again-not_done :
      (m : Action E Done) (s t : Session E) → Gave ((m >> pure (again tt)) s) (done_with true) t → ⊥
  again-not_done m s t h =
      let (_, _, g) = bind-Gave m (λ _. pure (again tt)) s (done_with true) t h in
      let (e, _) = pure-Gave (again tt) (done_with true) _ t g in cc e

  -- A round that ends with the answer `true` took neither of the ways out above its last test.
  otherwise :
      (b : Bool) (m : Action E (Step Done Bool)) (s t : Session E)
      → Gave ((if b then (sleep_second E >> pure (again tt)) else m) s) (done_with true) t
      → (b ≡ false) × Gave (m s) (done_with true) t
  otherwise true m s t h = absurd (again-not_done (sleep_second E) s t h)
  otherwise false m s t h = (refl, h)

  present :
      (b : Bool) (m : Action E (Step Done Bool)) (s t : Session E)
      → Gave ((if b then pure (done_with false) else m) s) (done_with true) t
      → Gave (m s) (done_with true) t
  present true m s t h = let (e, _) = pure-Gave (done_with false) (done_with true) s t h in cc e
  present false m s t h = h

  same_bool : (a b : Bool) → xor a b ≡ false → a ≡ b
  unfolding xor
  same_bool true true h = refl
  same_bool false false h = refl
  same_bool true false h = cc h
  same_bool false true h = cc h

  again-not_settled : (u : Done) → settled E (again u) ≡ true → ⊥
  again-not_settled u b = cc b

  was_settled : (last : Step Done Bool) → settled E last ≡ true → last ≡ done_with true
  was_settled (leave true) b = refl
  was_settled (leave false) b = cc b
  was_settled (again u) b = cc b

  settle_round-ShowsMember :
      (project : Json) (name : String) (host : Json) (requested : Bool) (u : Done) (s t : Session E)
      → Gave (settle_round E project name host requested u s) (done_with true) t
      → (reply : Reply) × LastReply E t reply × ShowsMember host requested reply
  unfolding settle_round
  settle_round-ShowsMember project name host requested u s t h =
      let (timeout, _, h1) = bind-Gave (op_timeout E) _ s _ t h in
      let (reply, e1, h2) =
        bind-Gave (get_lightos_volume E project timeout null (str name)) _ _ _ t h1 in
      let (ok_status, h3) = otherwise (not (reply.0 == http_ok)) _ _ t h2 in
      let h4 = present (not (truthy reply.1)) _ _ t h3 in
      let (acl, e5, h5) = bind-Gave (get "acl" null reply.1) _ _ _ t h4 in
      let h6 = present (not (truthy acl)) _ _ t h5 in
      let (values, e7, h7) = bind-Gave (get "values" (arr nil) acl) _ _ _ t h6 in
      let (present_there, e8, h8) = bind-Gave (is_in host values) _ _ _ t h7 in
      let (differs, h9) = otherwise (xor present_there requested) _ _ t h8 in
      let (_, same9) = pure-Gave _ _ _ t h9 in
      let (fields, d5, l5, same5) = get-Gave "acl" null reply.1 acl _ _ (e5, refl) in
      let (acl_fields, d7, l7, same7) = get-Gave "values" (arr nil) acl values _ _ (e7, refl) in
      let (l8, same8) = is_in-Gave host values present_there _ _ (e8, refl) in
      (
        reply,
        get_lightos_volume-LastReply E project timeout null (str name) _ reply t
            (e1, same5 ∙ same7 ∙ same8 ∙ same9),
        record {
          status_ok = ground arith;
          fields = fields;
          is_dict = d5;
          acl = acl_fields;
          acl_found = l5 ∙ d7;
          hosts = values;
          hosts_found = l7;
          membership = l8 ∙ ap some (same_bool present_there requested differs);
        },
      )

  -- `_wait_for_volume_acl` returns `true` only if the last request on record, a reply with status
  -- 200, shows the host in the ACL, or not in it, as it was asked; the values of the ACL are a list,
  -- or a dict or a text, in which Python's `in` looks for a key or a part.
  pub wait_for_volume_acl-ShowsMember :
      (project : Json) (name : String) (host : Json) (requested : Bool) (s t : Session E)
      → Gave (wait_for_volume_acl E project name host requested s) true t
      → (reply : Reply) × LastReply E t reply × ShowsMember host requested reply
  unfolding wait_for_volume_acl
  wait_for_volume_acl-ShowsMember project name host requested s t h =
      let (time, _, h1) = bind-Gave (now E) _ s true t h in
      let (timeout, _, h2) = bind-Gave (op_timeout E) _ _ true t h1 in
      let (last, e, h3) =
        bind-Gave
          (while_before (clock E) (time + timeout) (settle_round E project name host requested) tt)
          _ _ true t h2 in
      let (b, same) = pure-Gave (settled E last) true _ t h3 in
      let finished = was_settled last b in
      elim (while_before-Gave (settle_round E project name host requested) (clock E)
        (time + timeout) tt _ last t (e, same)) [
          | inl stopped ↦
              absurd (again-not_settled tt (subst (λ v. settled E v ≡ true) (stopped.0) b))
          | inr (u, r, g) ↦
              settle_round-ShowsMember project name host requested u r t
                (subst (λ v. Gave (settle_round E project name host requested u r) v t) finished g)
        ]
