-- ===== src/Lightos/Acl/Bounds.antt =====
-- The sixteen entries of an IP ACL.
use chef_bcpc.Prelude.{
  ℕ, zero, suc, ◌-◌, ◌≤◌, ◌<◌, Bool, true, false, List, [], ◌∷◌, ◌++◌, length, take, keep_if,
  replicate, distinct, length-append, length-take, length-keep_if, length-replicate, arith, ◌≡◌,
  ◌≢◌, refl, sym, eq_iff,
}
use mathlib.Core.Bool.{◌||◌}
use chef_bcpc.Json.{Json, Json-discrete}
use chef_bcpc.Lightos.Session.{Env}
use chef_bcpc.Lightos.Volume.{allow_none, allow_any}
use chef_bcpc.Lightos.Acl.{member, discard, shorten, open_ips, add_ips}
use chef_bcpc.Lightos.Acl.Laws.{member-discard_ne, member-append, discard_fresh}

member-distinct : (b : Json) (l : List Json) → member b (distinct Json-discrete l) ≡ member b l
member-distinct b [] = refl
member-distinct b (x ∷ l) = ground (arith, member-distinct b l, member-distinct x l)

any-ne-none : (n : ℕ) → member allow_none (replicate n allow_any) ≡ false
any-ne-none zero = refl
any-ne-none (suc n) = ground (arith, eq_iff "ALLOW_ANY" "ALLOW_NONE", any-ne-none n)

module _ (E : Env) where
  shorten-length : (l : List Json) → length (shorten E l) ≤ 16
  unfolding shorten
  shorten-length l = ground (
    arith,
    length-take 16 (keep_if E.is_valid_ipv4 l),
    length-append (keep_if E.is_valid_ipv4 l)
        (take (16 - length (keep_if E.is_valid_ipv4 l)) (keep_if E.is_valid_ipv6 l)),
    length-take (16 - length (keep_if E.is_valid_ipv4 l)) (keep_if E.is_valid_ipv6 l),
  )

  -- The IP ACL that is written has at most sixteen entries, whatever was read, whatever addresses
  -- the host has, with IP ACLs on or off.
  pub add_ips-length : (host_ips ip_acl : List Json) → length (add_ips E host_ips ip_acl) ≤ 16
  unfolding add_ips
  add_ips-length host_ips ip_acl = shorten-length (open_ips E host_ips ip_acl)

  shorten_short : (l : List Json) → length l ≤ 16 → shorten E l ≡ l
  unfolding shorten
  shorten_short l h = ground (arith, length-keep_if E.is_valid_ipv4 l)

  open_ips_on :
      (host_ips ip_acl : List Json)
      → E.config.lightos_use_ipacl ≡ true
      → open_ips E host_ips ip_acl
        ≡ E.set_order (distinct Json-discrete (discard allow_none ip_acl ++ host_ips))
  unfolding open_ips
  open_ips_on host_ips ip_acl on = ground arith

  open_ips_off :
      (host_ips ip_acl : List Json)
      → E.config.lightos_use_ipacl ≡ false
      → open_ips E host_ips ip_acl ≡ discard allow_none ip_acl ++ allow_any ∷ []
  unfolding open_ips
  open_ips_off host_ips ip_acl off = ground arith

  -- With IP ACLs on, and a set's order that has the set's elements, the entries of the list that was
  -- read and the host's addresses are all written where together they are at most sixteen, and
  -- ALLOW_NONE apart nothing else is.
  pub add_ips_members :
      (host_ips ip_acl : List Json) (ip : Json)
      → E.config.lightos_use_ipacl ≡ true
      → ((b : Json) (l : List Json) → member b (E.set_order l) ≡ member b l)
      → length (E.set_order (distinct Json-discrete (discard allow_none ip_acl ++ host_ips))) ≤ 16
      → ip ≢ allow_none
      → member ip (add_ips E host_ips ip_acl) ≡ (member ip ip_acl || member ip host_ips)
  unfolding add_ips
  add_ips_members host_ips ip_acl ip on order fits ne = rw (open_ips_on host_ips ip_acl on) (
      rw (shorten_short _ fits) (
        rw (
          order,
          member-distinct,
          member-append,
          member-discard_ne allow_none ip ip_acl (λ e. ne (sym e)),
        )))

  any_only :
      (n : ℕ) (p : Json → Bool) → p allow_any ≡ false → keep_if p (replicate n allow_any) ≡ []
  any_only zero p h = refl
  any_only (suc n) p h = rw h (any_only n p h)

  shorten_any :
      (n : ℕ)
      → 16 < n
      → E.is_valid_ipv4 allow_any ≡ false
      → E.is_valid_ipv6 allow_any ≡ false
      → shorten E (replicate n allow_any) ≡ []
  unfolding shorten
  shorten_any n h v4 v6 =
      rw (any_only n E.is_valid_ipv4 v4, any_only n E.is_valid_ipv6 v6)
        (ground (arith, length-replicate n allow_any))

  discard_any : (n : ℕ) → discard allow_none (replicate n allow_any) ≡ replicate n allow_any
  discard_any n = discard_fresh allow_none (replicate n allow_any) (any-ne-none n)

  append_any : (n : ℕ) → replicate n allow_any ++ allow_any ∷ [] ≡ replicate (suc n) allow_any
  append_any zero = refl
  append_any (suc n) = rw (append_any n)

  -- With IP ACLs off, a volume's IP ACL of `n` times ALLOW_ANY, as a volume that was created and
  -- attached `n - 1` times has, gets one ALLOW_ANY more, up to sixteen; the next attachment empties
  -- the list, since ALLOW_ANY is no address.
  pub add_ips_off :
      (host_ips : List Json) (n : ℕ)
      → E.config.lightos_use_ipacl ≡ false
      → E.is_valid_ipv4 allow_any ≡ false
      → E.is_valid_ipv6 allow_any ≡ false
      → (n < 16 → add_ips E host_ips (replicate n allow_any) ≡ replicate (suc n) allow_any)
        × (16 ≤ n → add_ips E host_ips (replicate n allow_any) ≡ [])
  unfolding add_ips
  add_ips_off host_ips n off v4 v6 =
      rw (open_ips_off host_ips _ off, discard_any n, append_any n)
        (
          λ h. shorten_short _ (omega (arith, length-replicate n allow_any)),
          λ h. shorten_any (suc n) (omega arith) v4 v6,
        )
