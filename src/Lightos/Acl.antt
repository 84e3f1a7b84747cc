-- ===== src/Lightos/Acl.antt =====
-- Access-control lists as lists of JSON values: what `__add_volume_acl` and `__remove_volume_acl` do
-- to the lists that they read, before they write them back.
pub mod Laws
pub mod Bounds
pub mod Values
pub mod Opened
use chef_bcpc.Prelude.{
  ℕ, ◌-◌, ltb, Bool, Option, none, some, List, [], ◌∷◌, ◌++◌, if◌then◌else◌, length, take, keep_if,
  contains, remove, distinct,
}
use chef_bcpc.Json.{Json, Json-discrete}
use chef_bcpc.Lightos.Session.{Env}
use chef_bcpc.Lightos.Volume.{allow_none, allow_any}

abbrev pub member : Json → List Json → Bool
member a acl = contains Json-discrete acl a

-- `acl.remove(a)` inside a `try` that only warns.
abbrev pub or_same : List Json → Option (List Json) → List Json
or_same acl none = acl
or_same acl (some rest) = rest

unfoldable pub discard : Json → List Json → List Json
discard a acl = or_same acl (remove Json-discrete a acl)

-- `if 'ALLOW_NONE' in acl: acl.remove('ALLOW_NONE')`, `if acl_to_add not in acl: acl.append(...)`
unfoldable pub add_host : Json → List Json → List Json
unfolding discard
add_host host acl =
    let open_acl = discard allow_none acl in
    if member host open_acl then open_acl else open_acl ++ host ∷ []

-- `if not acl: acl.append('ALLOW_NONE')`
unfoldable pub or_allow_none : List Json → List Json
or_allow_none [] = allow_none ∷ []
or_allow_none (a ∷ acl) = a ∷ acl

unfoldable pub remove_host : Json → List Json → List Json
unfolding discard or_allow_none
remove_host host acl = or_allow_none (discard host acl)

unfoldable pub discard_all : List Json → List Json → List Json
unfolding discard
discard_all [] acl = acl
discard_all (ip ∷ ips) acl = discard_all ips (discard ip acl)

unfoldable pub remove_ips : List Json → List Json → List Json
unfolding discard_all or_allow_none
remove_ips ips acl = or_allow_none (discard_all ips acl)

-- `IpAcl_size`
abbrev pub ip_acl_size : ℕ
ip_acl_size = 16

module _ (E : Env) where
  -- The addresses that fit into an IP ACL.
  unfoldable pub shorten : List Json → List Json
  shorten ip_acl =
      let ipv4addrs = keep_if E.is_valid_ipv4 ip_acl in
      let ipv6addrs = keep_if E.is_valid_ipv6 ip_acl in
      if ltb ip_acl_size (length ipv4addrs)
      then take ip_acl_size ipv4addrs
      else (if ltb ip_acl_size (length ip_acl)
          then ipv4addrs ++ take (ip_acl_size - length ipv4addrs) ipv6addrs
          else ip_acl)

  -- The IP ACL with the host's addresses. A set's elements come in the order of the environment.
  unfoldable pub open_ips : List Json → List Json → List Json
  unfolding discard
  open_ips host_ips ip_acl =
      let open_acl = discard allow_none ip_acl in
      if E.config.lightos_use_ipacl
      then E.set_order (distinct Json-discrete (open_acl ++ host_ips))
      else open_acl ++ allow_any ∷ []

  -- The IP ACL that `__add_volume_acl` writes.
  unfoldable pub add_ips : List Json → List Json → List Json
  add_ips host_ips ip_acl = shorten (open_ips host_ips ip_acl)
