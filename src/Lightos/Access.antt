-- ===== src/Lightos/Access.antt =====
-- Who may reach a volume: the ACL updates, retried while the API is busy, and the wait for them.
pub mod Pace
pub mod Answers
pub mod Update
pub mod Written
use chef_bcpc.Prelude.{
  ◌+◌, ◌-◌, ◌==◌, ◌&&◌, ◌||◌, leb, not, String, Bool, true, false, Option, none, some, List, [],
  ◌∷◌, if◌then◌else◌,
}
use mathlib.Core.Bool.{xor}
use chef_bcpc.Json.{Json, null, str, arr, nil, of_list, truthy, is_text}
use chef_bcpc.Run.{Done, pure, ◌>>=◌, ◌>>◌, attribute_error}
use chef_bcpc.Run.Loop.{Step, again, leave, while_before}
use chef_bcpc.Dynamic.{get, as_list, is_in}
use chef_bcpc.Lightos.Command.{no_kwargs}
use chef_bcpc.Lightos.Session.{Env, Action, Reply, clock}
use chef_bcpc.Lightos.Client.{send_cmd}
use chef_bcpc.Lightos.Lookup.{
  Volume, http_ok, lightos_volname, op_timeout, now, sleep_second, get_lightos_volume,
  wait_for_volume_available,
}
use chef_bcpc.Lightos.Volume.{allow_none}
use chef_bcpc.Lightos.Acl.{remove_host}
use chef_bcpc.Lightos.Acl.Values.{open_acl, open_ip_acl, close_ip_acl}

module _ (E : Env) where
  -- `set_volume_acl`
  unfoldable pub set_volume_acl : Json → Json → Json → Json → Json → Action E Reply
  set_volume_acl project uuid acl ip_acl etag = do
    timeout ← op_timeout E
    send_cmd E "update_volume" timeout (record no_kwargs {
      project_name = project;
      volume_uuid = uuid;
      acl = acl;
      ip_acl = ip_acl;
      etag = etag;
    })

  unfoldable pub write_back : Json → Json → Json → Json → Json → Action E (Option Reply)
  write_back project uuid found acl ip_acl = do
    etag ← get "ETag" (str "") found
    reply ← set_volume_acl project uuid acl ip_acl etag
    pure (some reply)

  -- `if not uuid: return False`, and the rest; in all three updates.
  abbrev pub unless_missing : Json → Action E (Option Reply) → Action E (Option Reply)
  unless_missing v rest = if truthy v then rest else pure none

  -- The lists of `__add_volume_acl`, with what it adds.
  unfoldable pub add_lists :
      Json → Json → List Json → Json → Json → Json → Json → Action E (Option Reply)
  add_lists project host host_ips found uuid acl ip_acl = do
    values ← get "values" (arr nil) acl
    ip_values ← get "values" (arr nil) ip_acl
    new_acl ← open_acl E host values
    new_ip_acl ← open_ip_acl E host_ips ip_values
    write_back project uuid found new_acl new_ip_acl

  -- `__add_volume_acl` on what was found; `none` is its `False`.
  unfoldable pub add_found : Json → Json → List Json → Json → Action E (Option Reply)
  add_found project host host_ips found = do
    uuid ← get "UUID" null found
    unless_missing uuid do
      acl ← get "acl" null found
      unless_missing acl do
        ip_acl ← get "IPAcl" null found
        if E.config.lightos_use_ipacl && not (truthy ip_acl)
            then pure none
            else add_lists project host host_ips found uuid acl ip_acl

  -- `__add_volume_acl`
  unfoldable pub try_add_acl : Json → String → Json → List Json → Action E (Option Reply)
  try_add_acl project name host host_ips = do
    timeout ← op_timeout E
    reply ← get_lightos_volume E project timeout null (str name)
    if not (reply.0 == http_ok) || not (truthy reply.1)
        then pure none
        else add_found project host host_ips reply.1

  -- The IP ACL of `__remove_volume_acl`, and the write.
  unfoldable pub remove_lists :
      Json → List Json → Json → Json → List Json → Json → Action E (Option Reply)
  remove_lists project host_ips found uuid hosts ip_acl = do
    ip_values ← get "values" null ip_acl
    if E.config.lightos_use_ipacl && not (truthy ip_values) then pure none else do
      new_ip_acl ← close_ip_acl E host_ips ip_values
      write_back project uuid found (arr (of_list hosts)) new_ip_acl

  unfoldable pub remove_from :
      Json → Json → List Json → Json → Json → Json → Action E (Option Reply)
  remove_from project host host_ips found uuid values = do
    hosts ← as_list attribute_error values
    ip_acl ← get "IPAcl" null found
    if E.config.lightos_use_ipacl && not (truthy ip_acl)
        then pure none
        else remove_lists project host_ips found uuid (remove_host host hosts) ip_acl

  -- `__remove_volume_acl` on what was found.
  unfoldable pub remove_found : Json → Json → List Json → Json → Action E (Option Reply)
  remove_found project host host_ips found = do
    uuid ← get "UUID" null found
    unless_missing uuid do
      acl ← get "acl" null found
      unless_missing acl do
        values ← get "values" null acl
        unless_missing values (remove_from project host host_ips found uuid values)

  -- `__remove_volume_acl`
  unfoldable pub try_remove_acl : Json → String → Json → List Json → Action E (Option Reply)
  try_remove_acl project name host host_ips = do
    timeout ← op_timeout E
    reply ← get_lightos_volume E project timeout null (str name)
    unless_missing reply.1 (remove_found project host host_ips reply.1)

  -- `__overwrite_volume_acl`
  unfoldable pub try_overwrite_acl : Json → String → List Json → List Json → Action E (Option Reply)
  try_overwrite_acl project name acl ip_acl = do
    timeout ← op_timeout E
    reply ← get_lightos_volume E project timeout null (str name)
    unless_missing reply.1 do
      uuid ← get "UUID" null reply.1
      unless_missing uuid
          (write_back project uuid reply.1 (arr (of_list acl)) (arr (of_list ip_acl)))

  -- A round of `update_volume_acl`; the loop's variable is `first_iteration`.
  abbrev pub accepted : Option Reply → Step Bool Done
  accepted none = again false
  accepted (some (status, resp)) = if status == http_ok then leave tt else again false

  unfoldable pub update_round : Action E (Option Reply) → Bool → Action E (Step Bool Done)
  update_round func first = do
    if first then pure tt else sleep_second E
    res ← func
    pure (accepted res)

  -- `update_volume_acl`
  unfoldable pub update_volume_acl : Action E (Option Reply) → Json → String → Action E Bool
  update_volume_acl func project name = do
    start ← now E
    timeout ← op_timeout E
    while_before (clock E) (start + timeout) (update_round func) true
    time ← now E
    if leb (start + timeout) time then pure false else do
      later ← now E
      state ← wait_for_volume_available E project (start + timeout - later) null (str name)
      pure (is_text "Available" state)

  -- `add_volume_acl`
  unfoldable pub add_volume_acl : Json → Volume → Json → List Json → Action E Bool
  add_volume_acl project volume host host_ips =
      update_volume_acl (try_add_acl project (lightos_volname E volume) host host_ips) project
        (lightos_volname E volume)

  -- `remove_volume_acl`
  unfoldable pub remove_volume_acl : Json → Volume → Json → List Json → Action E Bool
  remove_volume_acl project volume host host_ips =
      update_volume_acl (try_remove_acl project (lightos_volname E volume) host host_ips) project
        (lightos_volname E volume)

  -- `remove_all_volume_acls`
  unfoldable pub remove_all_volume_acls : Json → Volume → Action E Bool
  remove_all_volume_acls project volume =
      update_volume_acl
        (try_overwrite_acl project (lightos_volname E volume) (allow_none ∷ []) (allow_none ∷ []))
        project (lightos_volname E volume)

  -- The wait of `_wait_for_volume_acl` for `host` to be in the ACL, or not to be.
  unfoldable pub settle_round : Json → String → Json → Bool → Done → Action E (Step Done Bool)
  settle_round project name host requested _ = do
    timeout ← op_timeout E
    reply ← get_lightos_volume E project timeout null (str name)
    if not (reply.0 == http_ok)
        then (sleep_second E >> pure (again tt))
        else (if not (truthy reply.1) then pure (leave false) else do
          acl ← get "acl" null reply.1
          if not (truthy acl) then pure (leave false) else do
            values ← get "values" (arr nil) acl
            membership ← is_in host values
            if xor membership requested
                then (sleep_second E >> pure (again tt))
                else pure (leave true))

  abbrev pub settled : Step Done Bool → Bool
  settled (leave b) = b
  settled (again _) = false

  -- `_wait_for_volume_acl`
  unfoldable pub wait_for_volume_acl : Json → String → Json → Bool → Action E Bool
  wait_for_volume_acl project name host requested = do
    time ← now E
    timeout ← op_timeout E
    last ← while_before (clock E) (time + timeout) (settle_round project name host requested) tt
    pure (settled last)
