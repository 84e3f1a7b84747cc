-- ===== src/Lightos/Acl/Values.antt =====
-- The updates of the ACLs on the values as they were read: lists, or what the cluster sent in their
-- place. A value that is no list stands where none of a list's methods is called on it.
use chef_bcpc.Prelude.{not, ◌&&◌, ◌||◌, Bool, List, [], ◌∷◌, ◌++◌, all, if◌then◌else◌}
use chef_bcpc.Json.{Json, arr, to_list, of_list, truthy}
use chef_bcpc.Run.{Done, pure, raise, ◌>>=◌, ◌>>◌, attribute_error, type_error}
use chef_bcpc.Dynamic.{as_list, iterate, is_in, is_hashable}
use chef_bcpc.Lightos.Session.{Env, Action}
use chef_bcpc.Lightos.Volume.{allow_none}
use chef_bcpc.Lightos.Acl.{add_host, add_ips, remove_ips}

module _ (E : Env) where
  -- `remove` and `append` on what is not a list.
  abbrev pub unless_called : {A : Type 0} → Bool → Action E A → Action E A
  unless_called called rest = if called then raise attribute_error else rest

  -- The ACL of `__add_volume_acl`: a value that is no list stands where neither `remove` nor
  -- `append` is called on it.
  unfoldable pub open_other : Json → Json → Action E Json
  open_other host values = do
    closed ← is_in allow_none values
    unless_called closed do listed ← is_in host values; unless_called (not listed) (pure values)

  unfoldable pub open_acl : Json → Json → Action E Json
  open_acl host (arr xs) = pure (arr (of_list (add_host host (to_list xs))))
  open_acl host values = open_other host values

  -- `set(ip_acl).union(set(host_ips))` refuses an element with no hash.
  unfoldable pub hashed : List Json → List Json → Action E Done
  hashed host_ips ips =
      if E.config.lightos_use_ipacl && not (all is_hashable (ips ++ host_ips))
      then raise type_error
      else pure tt

  -- The IP ACL of `__add_volume_acl`. What is no list has no `append`, and `set` takes it apart.
  unfoldable pub open_other_ips : List Json → Json → Action E Json
  open_other_ips host_ips values = do
    closed ← is_in allow_none values
    unless_called (closed || not E.config.lightos_use_ipacl)
        do ips ← iterate values; hashed host_ips ips; pure (arr (of_list (add_ips E host_ips ips)))

  unfoldable pub open_ip_acl : List Json → Json → Action E Json
  open_ip_acl host_ips (arr xs) = do
    hashed host_ips (to_list xs)
    pure (arr (of_list (add_ips E host_ips (to_list xs))))
  open_ip_acl host_ips values = open_other_ips host_ips values

  -- The IP ACL of `__remove_volume_acl`. Without addresses `remove` is not called, and `append` only
  -- on what is empty.
  unfoldable pub close_untouched : Json → Action E Json
  close_untouched (arr xs) = pure (arr (of_list (remove_ips [] (to_list xs))))
  close_untouched values = if truthy values then pure values else raise attribute_error

  unfoldable pub close_ip_acl : List Json → Json → Action E Json
  close_ip_acl [] values = close_untouched values
  close_ip_acl (ip ∷ ips) values = do
    ip_acl ← as_list attribute_error values
    pure (arr (of_list (remove_ips (ip ∷ ips) ip_acl)))
