-- ===== src/Lightos/Frame/Access.antt =====
-- A relation between sessions that each step of the client keeps, carried to the updates of ACLs and the waits for them.
use chef_bcpc.Prelude.{Bool, Option, String, List, [], ◌∷◌}
use chef_bcpc.Json.{Json, arr}
use chef_bcpc.Run.{Done}
use chef_bcpc.Lightos.Session.{Env, Action, Reply}
use chef_bcpc.Lightos.Lookup.{Volume}
use chef_bcpc.Lightos.Frame.Lookup.{
  op_timeout-Framed, now-Framed, get_lightos_volume-Framed, sleep_second-Framed,
  sleep_second-Framed, wait_for_volume_available-Framed,
}
use chef_bcpc.Lightos.Acl.Values.{
  open_other, open_acl, hashed, open_other_ips, open_ip_acl, close_untouched, close_ip_acl,
}
use chef_bcpc.Lightos.Access.{
  set_volume_acl, write_back, unless_missing, add_lists, add_found, try_add_acl, remove_lists,
  remove_from, remove_found, try_remove_acl, try_overwrite_acl, update_round, update_volume_acl,
  add_volume_acl, remove_volume_acl, remove_all_volume_acls, settle_round, wait_for_volume_acl,
}
use chef_bcpc.Run.Keeps.{Keeps-pure, Keeps-bind, Keeps-if, Keeps-while_before}
use chef_bcpc.Lightos.Frame.{Frame, Framed, keeps_rules}

module _ (E : Env) (F : Frame E) where
  set_volume_acl-Framed :
      (project uuid acl ip_acl etag : Json)
      → Framed E F (set_volume_acl E project uuid acl ip_acl etag)
  unfolding set_volume_acl
  set_volume_acl-Framed project uuid acl ip_acl etag =
      search (Keeps-bind, op_timeout-Framed, F.sends)

  write_back-Framed :
      (project uuid found acl ip_acl : Json)
      → Framed E F (write_back E project uuid found acl ip_acl)
  unfolding write_back
  write_back-Framed project uuid found acl ip_acl = search (keeps_rules, set_volume_acl-Framed)

  unless_missing-Framed :
      (v : Json) (rest : Action E (Option Reply))
      → Framed E F rest
      → Framed E F (unless_missing E v rest)
  unless_missing-Framed v rest h = search (Keeps-if, Keeps-pure)

  open_other-Framed : (host values : Json) → Framed E F (open_other E host values)
  unfolding open_other
  open_other-Framed host values = search keeps_rules

  open_acl-Framed : (host values : Json) → Framed E F (open_acl E host values)
  unfolding open_acl
  open_acl-Framed host (arr xs) = search keeps_rules
  open_acl-Framed host _ = open_other-Framed host _

  hashed-Framed : (host_ips ips : List Json) → Framed E F (hashed E host_ips ips)
  unfolding hashed
  hashed-Framed host_ips ips = search keeps_rules

  open_other_ips-Framed :
      (host_ips : List Json) (values : Json) → Framed E F (open_other_ips E host_ips values)
  unfolding open_other_ips
  open_other_ips-Framed host_ips values = search (keeps_rules, hashed-Framed)

  open_ip_acl-Framed :
      (host_ips : List Json) (values : Json) → Framed E F (open_ip_acl E host_ips values)
  unfolding open_ip_acl
  open_ip_acl-Framed host_ips (arr xs) = search (keeps_rules, hashed-Framed)
  open_ip_acl-Framed host_ips _ = open_other_ips-Framed host_ips _

  close_untouched-Framed : (values : Json) → Framed E F (close_untouched E values)
  unfolding close_untouched
  close_untouched-Framed (arr xs) = search keeps_rules
  close_untouched-Framed _ = search keeps_rules

  close_ip_acl-Framed :
      (host_ips : List Json) (values : Json) → Framed E F (close_ip_acl E host_ips values)
  unfolding close_ip_acl
  close_ip_acl-Framed [] values = close_untouched-Framed values
  close_ip_acl-Framed (ip ∷ ips) values = search keeps_rules

  add_lists-Framed :
      (project host : Json) (host_ips : List Json) (found uuid acl ip_acl : Json)
      → Framed E F (add_lists E project host host_ips found uuid acl ip_acl)
  unfolding add_lists
  add_lists-Framed project host host_ips found uuid acl ip_acl =
      search (keeps_rules, open_acl-Framed, open_ip_acl-Framed, write_back-Framed) depth 8

  pub add_found-Framed :
      (project host : Json) (host_ips : List Json) (found : Json)
      → Framed E F (add_found E project host host_ips found)
  unfolding add_found
  add_found-Framed project host host_ips found =
      search (keeps_rules, unless_missing-Framed, add_lists-Framed) depth 9

  try_add_acl-Framed :
      (project : Json) (name : String) (host : Json) (host_ips : List Json)
      → Framed E F (try_add_acl E project name host host_ips)
  unfolding try_add_acl
  try_add_acl-Framed project name host host_ips =
      search (keeps_rules, op_timeout-Framed, get_lightos_volume-Framed, add_found-Framed)

  remove_lists-Framed :
      (project : Json) (host_ips : List Json) (found uuid : Json) (hosts : List Json)
      (ip_acl : Json)
      → Framed E F (remove_lists E project host_ips found uuid hosts ip_acl)
  unfolding remove_lists
  remove_lists-Framed project host_ips found uuid hosts ip_acl =
      search (keeps_rules, close_ip_acl-Framed, write_back-Framed) depth 8

  remove_from-Framed :
      (project host : Json) (host_ips : List Json) (found uuid values : Json)
      → Framed E F (remove_from E project host host_ips found uuid values)
  unfolding remove_from
  remove_from-Framed project host host_ips found uuid values =
      search (keeps_rules, remove_lists-Framed) depth 8

  remove_found-Framed :
      (project host : Json) (host_ips : List Json) (found : Json)
      → Framed E F (remove_found E project host host_ips found)
  unfolding remove_found
  remove_found-Framed project host host_ips found =
      search (keeps_rules, unless_missing-Framed, remove_from-Framed) depth 9

  try_remove_acl-Framed :
      (project : Json) (name : String) (host : Json) (host_ips : List Json)
      → Framed E F (try_remove_acl E project name host host_ips)
  unfolding try_remove_acl
  try_remove_acl-Framed project name host host_ips = search (
    keeps_rules, op_timeout-Framed, get_lightos_volume-Framed, unless_missing-Framed,
    remove_found-Framed,
  )

  overwrite_found-Framed :
      (project found acl ip_acl uuid : Json)
      → Framed E F (unless_missing E uuid (write_back E project uuid found acl ip_acl))
  overwrite_found-Framed project found acl ip_acl uuid =
      unless_missing-Framed uuid _ (write_back-Framed project uuid found acl ip_acl)

  try_overwrite_acl-Framed :
      (project : Json) (name : String) (acl ip_acl : List Json)
      → Framed E F (try_overwrite_acl E project name acl ip_acl)
  unfolding try_overwrite_acl
  try_overwrite_acl-Framed project name acl ip_acl =
      search
        (
          keeps_rules, op_timeout-Framed, get_lightos_volume-Framed, unless_missing-Framed,
          overwrite_found-Framed,
        )
        depth 7

  update_round-Framed :
      (func : Action E (Option Reply)) (first : Bool)
      → Framed E F func
      → Framed E F (update_round E func first)
  unfolding update_round
  update_round-Framed func first h = search (Keeps-bind, Keeps-if, Keeps-pure, sleep_second-Framed)

  update_volume_acl-Framed :
      (func : Action E (Option Reply)) (project : Json) (name : String)
      → Framed E F func
      → Framed E F (update_volume_acl E func project name)
  unfolding update_volume_acl
  update_volume_acl-Framed func project name h =
      search
        (
          keeps_rules, now-Framed, op_timeout-Framed, Keeps-while_before, update_round-Framed,
          wait_for_volume_available-Framed,
        )
        depth 10

  pub add_volume_acl-Framed :
      (project : Json) (volume : Volume) (host : Json) (host_ips : List Json)
      → Framed E F (add_volume_acl E project volume host host_ips)
  unfolding add_volume_acl
  add_volume_acl-Framed project volume host host_ips =
      search (update_volume_acl-Framed, try_add_acl-Framed)

  pub remove_volume_acl-Framed :
      (project : Json) (volume : Volume) (host : Json) (host_ips : List Json)
      → Framed E F (remove_volume_acl E project volume host host_ips)
  unfolding remove_volume_acl
  remove_volume_acl-Framed project volume host host_ips =
      search (update_volume_acl-Framed, try_remove_acl-Framed)

  pub remove_all_volume_acls-Framed :
      (project : Json) (volume : Volume) → Framed E F (remove_all_volume_acls E project volume)
  unfolding remove_all_volume_acls
  remove_all_volume_acls-Framed project volume =
      search (update_volume_acl-Framed, try_overwrite_acl-Framed)

  settle_round-Framed :
      (project : Json) (name : String) (host : Json) (requested : Bool) (u : Done)
      → Framed E F (settle_round E project name host requested u)
  unfolding settle_round
  settle_round-Framed project name host requested u =
      search (keeps_rules, op_timeout-Framed, get_lightos_volume-Framed, sleep_second-Framed) depth
        12

  pub wait_for_volume_acl-Framed :
      (project : Json) (name : String) (host : Json) (requested : Bool)
      → Framed E F (wait_for_volume_acl E project name host requested)
  unfolding wait_for_volume_acl
  wait_for_volume_acl-Framed project name host requested = search (
    Keeps-bind, now-Framed, op_timeout-Framed, Keeps-while_before, settle_round-Framed, Keeps-pure,
  )
