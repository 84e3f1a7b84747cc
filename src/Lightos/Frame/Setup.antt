-- ===== src/Lightos/Frame/Setup.antt =====
-- A relation between sessions that each step of the client keeps, carried to set-up and statistics.
use chef_bcpc.Prelude.{Bool, Option, none, some, List, [], ◌∷◌, refl}
use chef_bcpc.Json.{Json}
use chef_bcpc.Run.{Done, modify, unbound_local_error, volume_backend_api}
use chef_bcpc.Run.Loop.{Step, again, leave}
use chef_bcpc.Dynamic.{item}
use chef_bcpc.Lightos.Session.{Env}
use chef_bcpc.Lightos.Frame.Lookup.{op_timeout-Framed, now-Framed, sleep_second-Framed}
use chef_bcpc.Lightos.Setup.{
  get_cluster_info, get_cluster_stats, valid_nodes_info, nodes_round, nodes_or_raise,
  wait_for_lightos_cluster, add_targets, do_setup, check_for_setup_error, get_volume_stats,
}
use chef_bcpc.Run.Keeps.{
  Keeps-pure, Keeps-raise, Keeps-modify, Keeps-bind, Keeps-if, Keeps-while_before,
}
use chef_bcpc.Lightos.Frame.{Frame, Framed, keeps_rules, Framed-item, Framed-has_key}
use mathlib.Core.Path.{refl}
use chef_bcpc.Lightos.Client.Servers.{view}

module _ (E : Env) (F : Frame E) where
  get_cluster_info-Framed : Framed E F (get_cluster_info E)
  unfolding get_cluster_info
  get_cluster_info-Framed = search (keeps_rules, Keeps-modify, op_timeout-Framed, F.sends) depth 9

  pub get_cluster_stats-Framed : Framed E F (get_cluster_stats E)
  unfolding get_cluster_stats
  get_cluster_stats-Framed = search (keeps_rules, op_timeout-Framed, F.sends)

  valid_nodes_info-Framed : (nodes_info : Json) → Framed E F (valid_nodes_info E nodes_info)
  unfolding valid_nodes_info
  valid_nodes_info-Framed nodes_info = search (Keeps-if, Keeps-pure, Framed-has_key)

  nodes_round-Framed : (u : Option Done) → Framed E F (nodes_round E u)
  unfolding nodes_round
  nodes_round-Framed u =
      search (keeps_rules, op_timeout-Framed, F.sends, valid_nodes_info-Framed, sleep_second-Framed)
        depth 7

  nodes_or_raise-Framed : (last : Step (Option Done) Json) → Framed E F (nodes_or_raise E last)
  nodes_or_raise-Framed (leave nodes_info) = Keeps-pure (view E) F.relation nodes_info
  nodes_or_raise-Framed (again (some u)) = Keeps-raise (view E) F.relation volume_backend_api refl
  nodes_or_raise-Framed (again none) = Keeps-raise (view E) F.relation unbound_local_error refl

  wait_for_lightos_cluster-Framed : Framed E F (wait_for_lightos_cluster E)
  unfolding wait_for_lightos_cluster
  wait_for_lightos_cluster-Framed = search (
    Keeps-bind, now-Framed, op_timeout-Framed, Keeps-while_before, nodes_round-Framed,
    nodes_or_raise-Framed,
  )

  add_targets-Framed : (nodes : List Json) → Framed E F (add_targets E nodes)
  unfolding add_targets
  add_targets-Framed [] = Keeps-pure (view E) F.relation tt
  add_targets-Framed (node ∷ nodes) =
      Keeps-bind (view E) F.relation (item "UUID" node) _ (Framed-item E F "UUID" node) (λ uuid.
        Keeps-bind (view E) F.relation (modify _) _ (Keeps-modify (view E) F.relation _ (λ s. refl))
          (λ _. add_targets-Framed nodes))

  pub do_setup-Framed : Framed E F (do_setup E)
  unfolding do_setup
  do_setup-Framed =
      search
        (
          keeps_rules, Keeps-modify, get_cluster_info-Framed, wait_for_lightos_cluster-Framed,
          add_targets-Framed,
        )
        depth 9

  pub check_for_setup_error-Framed : (hostnqn : Json) → Framed E F (check_for_setup_error E hostnqn)
  unfolding check_for_setup_error
  check_for_setup_error-Framed hostnqn = search keeps_rules

  pub get_volume_stats-Framed : (refresh : Bool) → Framed E F (get_volume_stats E refresh)
  unfolding get_volume_stats
  get_volume_stats-Framed refresh = search (keeps_rules, Keeps-modify)
