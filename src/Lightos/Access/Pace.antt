-- ===== src/Lightos/Access/Pace.antt =====
-- The updates of the ACLs, and the waits for them, end.
use chef_bcpc.Prelude.{Bool, Option, String, List, [], ◌∷◌}
use chef_bcpc.Json.{Json, arr}
use chef_bcpc.Run.{Done}
use chef_bcpc.Run.Pace.{
  Halts, Ticks, Rounds, Ticks-Halts, Halts-pure, Rounds-bind, Paced-bind, Paced-if,
}
use chef_bcpc.Run.Pace.Loops.{Halts-while_before}
use chef_bcpc.Lightos.Session.{Env, IsTimed, Action, Reply, clock}
use chef_bcpc.Lightos.Client.Pace.{send_cmd-Ticks}
use chef_bcpc.Lightos.Lookup.{Volume}
use chef_bcpc.Lightos.Lookup.Pace.{
  pace_rules, tick_rules, op_timeout-Halts, now-Halts, get_lightos_volume-Ticks, sleep_second-Halts,
  wait_for_volume_available-Halts,
}
use chef_bcpc.Lightos.Acl.Values.{
  open_other, open_acl, hashed, open_other_ips, open_ip_acl, close_untouched, close_ip_acl,
}
use chef_bcpc.Lightos.Access.{
  set_volume_acl, write_back, unless_missing, add_lists, add_found, try_add_acl, remove_lists,
  remove_from, remove_found, try_remove_acl, try_overwrite_acl, update_round, update_volume_acl,
  add_volume_acl, remove_volume_acl, remove_all_volume_acls, settle_round, wait_for_volume_acl,
}

module _ (E : Env) (timed : IsTimed E) where
  set_volume_acl-Halts :
      (project uuid acl ip_acl etag : Json)
      → Halts (clock E) (set_volume_acl E project uuid acl ip_acl etag)
  unfolding set_volume_acl
  set_volume_acl-Halts project uuid acl ip_acl etag =
      search (Paced-bind, op_timeout-Halts, Ticks-Halts, send_cmd-Ticks)

  write_back-Halts :
      (project uuid found acl ip_acl : Json)
      → Halts (clock E) (write_back E project uuid found acl ip_acl)
  unfolding write_back
  write_back-Halts project uuid found acl ip_acl = search (pace_rules, set_volume_acl-Halts)

  unless_missing-Halts :
      (v : Json) (rest : Action E (Option Reply))
      → Halts (clock E) rest
      → Halts (clock E) (unless_missing E v rest)
  unless_missing-Halts v rest h = search (Paced-if, Halts-pure)

  open_other-Halts : (host values : Json) → Halts (clock E) (open_other E host values)
  unfolding open_other
  open_other-Halts host values = search pace_rules

  open_acl-Halts : (host values : Json) → Halts (clock E) (open_acl E host values)
  unfolding open_acl
  open_acl-Halts host (arr xs) = search pace_rules
  open_acl-Halts host _ = open_other-Halts host _

  hashed-Halts : (host_ips ips : List Json) → Halts (clock E) (hashed E host_ips ips)
  unfolding hashed
  hashed-Halts host_ips ips = search pace_rules

  open_other_ips-Halts :
      (host_ips : List Json) (values : Json) → Halts (clock E) (open_other_ips E host_ips values)
  unfolding open_other_ips
  open_other_ips-Halts host_ips values = search (pace_rules, hashed-Halts)

  open_ip_acl-Halts :
      (host_ips : List Json) (values : Json) → Halts (clock E) (open_ip_acl E host_ips values)
  unfolding open_ip_acl
  open_ip_acl-Halts host_ips (arr xs) = search (pace_rules, hashed-Halts)
  open_ip_acl-Halts host_ips _ = open_other_ips-Halts host_ips _

  close_untouched-Halts : (values : Json) → Halts (clock E) (close_untouched E values)
  unfolding close_untouched
  close_untouched-Halts (arr xs) = search pace_rules
  close_untouched-Halts _ = search pace_rules

  close_ip_acl-Halts :
      (host_ips : List Json) (values : Json) → Halts (clock E) (close_ip_acl E host_ips values)
  unfolding close_ip_acl
  close_ip_acl-Halts [] values = close_untouched-Halts values
  close_ip_acl-Halts (ip ∷ ips) values = search pace_rules

  add_lists-Halts :
      (project host : Json) (host_ips : List Json) (found uuid acl ip_acl : Json)
      → Halts (clock E) (add_lists E project host host_ips found uuid acl ip_acl)
  unfolding add_lists
  add_lists-Halts project host host_ips found uuid acl ip_acl =
      search (pace_rules, open_acl-Halts, open_ip_acl-Halts, write_back-Halts) depth 8

  add_found-Halts :
      (project host : Json) (host_ips : List Json) (found : Json)
      → Halts (clock E) (add_found E project host host_ips found)
  unfolding add_found
  add_found-Halts project host host_ips found =
      search (pace_rules, unless_missing-Halts, add_lists-Halts) depth 9

  try_add_acl-Ticks :
      (project : Json) (name : String) (host : Json) (host_ips : List Json)
      → Ticks (clock E) (try_add_acl E project name host host_ips)
  unfolding try_add_acl
  try_add_acl-Ticks project name host host_ips =
      search (tick_rules, op_timeout-Halts, get_lightos_volume-Ticks, add_found-Halts)

  remove_lists-Halts :
      (project : Json) (host_ips : List Json) (found uuid : Json) (hosts : List Json)
      (ip_acl : Json)
      → Halts (clock E) (remove_lists E project host_ips found uuid hosts ip_acl)
  unfolding remove_lists
  remove_lists-Halts project host_ips found uuid hosts ip_acl =
      search (pace_rules, close_ip_acl-Halts, write_back-Halts) depth 8

  remove_from-Halts :
      (project host : Json) (host_ips : List Json) (found uuid values : Json)
      → Halts (clock E) (remove_from E project host host_ips found uuid values)
  unfolding remove_from
  remove_from-Halts project host host_ips found uuid values =
      search (pace_rules, remove_lists-Halts) depth 8

  remove_found-Halts :
      (project host : Json) (host_ips : List Json) (found : Json)
      → Halts (clock E) (remove_found E project host host_ips found)
  unfolding remove_found
  remove_found-Halts project host host_ips found =
      search (pace_rules, unless_missing-Halts, remove_from-Halts) depth 9

  try_remove_acl-Ticks :
      (project : Json) (name : String) (host : Json) (host_ips : List Json)
      → Ticks (clock E) (try_remove_acl E project name host host_ips)
  unfolding try_remove_acl
  try_remove_acl-Ticks project name host host_ips = search (
    tick_rules, op_timeout-Halts, get_lightos_volume-Ticks, unless_missing-Halts,
    remove_found-Halts,
  )

  overwrite_found-Halts :
      (project found acl ip_acl uuid : Json)
      → Halts (clock E) (unless_missing E uuid (write_back E project uuid found acl ip_acl))
  overwrite_found-Halts project found acl ip_acl uuid =
      unless_missing-Halts uuid _ (write_back-Halts project uuid found acl ip_acl)

  try_overwrite_acl-Ticks :
      (project : Json) (name : String) (acl ip_acl : List Json)
      → Ticks (clock E) (try_overwrite_acl E project name acl ip_acl)
  unfolding try_overwrite_acl
  try_overwrite_acl-Ticks project name acl ip_acl =
      search
        (
          tick_rules, op_timeout-Halts, get_lightos_volume-Ticks, unless_missing-Halts,
          overwrite_found-Halts,
        )
        depth 7

  update_round-Rounds :
      (func : Action E (Option Reply)) (first : Bool)
      → Ticks (clock E) func
      → Rounds (clock E) (update_round E func first)
  unfolding update_round
  update_round-Rounds func first h =
      search (Paced-bind, Rounds-bind, Paced-if, Halts-pure, sleep_second-Halts)

  update_volume_acl-Halts :
      (func : Action E (Option Reply)) (project : Json) (name : String)
      → Ticks (clock E) func
      → Halts (clock E) (update_volume_acl E func project name)
  unfolding update_volume_acl
  update_volume_acl-Halts func project name h =
      search
        (
          pace_rules, now-Halts, op_timeout-Halts, Halts-while_before, update_round-Rounds,
          wait_for_volume_available-Halts,
        )
        depth 10

  pub add_volume_acl-Halts :
      (project : Json) (volume : Volume) (host : Json) (host_ips : List Json)
      → Halts (clock E) (add_volume_acl E project volume host host_ips)
  unfolding add_volume_acl
  add_volume_acl-Halts project volume host host_ips =
      search (update_volume_acl-Halts, try_add_acl-Ticks)

  pub remove_volume_acl-Halts :
      (project : Json) (volume : Volume) (host : Json) (host_ips : List Json)
      → Halts (clock E) (remove_volume_acl E project volume host host_ips)
  unfolding remove_volume_acl
  remove_volume_acl-Halts project volume host host_ips =
      search (update_volume_acl-Halts, try_remove_acl-Ticks)

  pub remove_all_volume_acls-Halts :
      (project : Json) (volume : Volume) → Halts (clock E) (remove_all_volume_acls E project volume)
  unfolding remove_all_volume_acls
  remove_all_volume_acls-Halts project volume =
      search (update_volume_acl-Halts, try_overwrite_acl-Ticks)

  settle_round-Rounds :
      (project : Json) (name : String) (host : Json) (requested : Bool) (u : Done)
      → Rounds (clock E) (settle_round E project name host requested u)
  unfolding settle_round
  settle_round-Rounds project name host requested u =
      search
        (Rounds-bind, pace_rules, op_timeout-Halts, get_lightos_volume-Ticks, sleep_second-Halts)
        depth 12

  pub wait_for_volume_acl-Halts :
      (project : Json) (name : String) (host : Json) (requested : Bool)
      → Halts (clock E) (wait_for_volume_acl E project name host requested)
  unfolding wait_for_volume_acl
  wait_for_volume_acl-Halts project name host requested =
      search (
        Paced-bind, now-Halts, op_timeout-Halts, Halts-while_before, settle_round-Rounds,
        Halts-pure,
      )
