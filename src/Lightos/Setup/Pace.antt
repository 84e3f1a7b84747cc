-- ===== src/Lightos/Setup/Pace.antt =====
-- The operations of the start end.
use chef_bcpc.Prelude.{Bool, Option, none, some, List, [], ◌∷◌, refl}
use chef_bcpc.Json.{Json}
use chef_bcpc.Run.{Done, modify, unbound_local_error, volume_backend_api}
use chef_bcpc.Run.Loop.{Step, again, leave}
use chef_bcpc.Run.Pace.{
  Halts, Rounds, Ticks-Halts, Halts-pure, Paced-raise, Paced-bind, Paced-if, Rounds-bind,
  Halts-modify,
}
use chef_bcpc.Run.Pace.Loops.{Halts-while_before}
use chef_bcpc.Dynamic.{item, Halts-item, Halts-has_key}
use chef_bcpc.Lightos.Session.{Env, IsTimed, clock}
use chef_bcpc.Lightos.Client.Pace.{send_cmd-Ticks}
use chef_bcpc.Lightos.Lookup.Pace.{pace_rules, op_timeout-Halts, now-Halts, sleep_second-Halts}
use chef_bcpc.Lightos.Setup.{
  get_cluster_info, get_cluster_stats, valid_nodes_info, nodes_round, nodes_or_raise,
  wait_for_lightos_cluster, add_targets, do_setup, check_for_setup_error, get_volume_stats,
}

module _ (E : Env) (timed : IsTimed E) where
  get_cluster_info-Halts : Halts (clock E) (get_cluster_info E)
  unfolding get_cluster_info
  get_cluster_info-Halts =
      search (pace_rules, Halts-modify, op_timeout-Halts, Ticks-Halts, send_cmd-Ticks) depth 9

  pub get_cluster_stats-Halts : Halts (clock E) (get_cluster_stats E)
  unfolding get_cluster_stats
  get_cluster_stats-Halts = search (pace_rules, op_timeout-Halts, Ticks-Halts, send_cmd-Ticks)

  valid_nodes_info-Halts : (nodes_info : Json) → Halts (clock E) (valid_nodes_info E nodes_info)
  unfolding valid_nodes_info
  valid_nodes_info-Halts nodes_info = search (Paced-if, Halts-pure, Halts-has_key)

  nodes_round-Rounds : (u : Option Done) → Rounds (clock E) (nodes_round E u)
  unfolding nodes_round
  nodes_round-Rounds u =
      search
        (
          Rounds-bind, pace_rules, op_timeout-Halts, send_cmd-Ticks, valid_nodes_info-Halts,
          sleep_second-Halts,
        )
        depth 7

  nodes_or_raise-Halts : (last : Step (Option Done) Json) → Halts (clock E) (nodes_or_raise E last)
  nodes_or_raise-Halts (leave nodes_info) = Halts-pure (clock E) nodes_info
  nodes_or_raise-Halts (again (some u)) = Paced-raise (clock E) _ volume_backend_api
  nodes_or_raise-Halts (again none) = Paced-raise (clock E) _ unbound_local_error

  wait_for_lightos_cluster-Halts : Halts (clock E) (wait_for_lightos_cluster E)
  unfolding wait_for_lightos_cluster
  wait_for_lightos_cluster-Halts = search (
    Paced-bind, now-Halts, op_timeout-Halts, Halts-while_before, nodes_round-Rounds,
    nodes_or_raise-Halts,
  )

  add_targets-Halts : (nodes : List Json) → Halts (clock E) (add_targets E nodes)
  unfolding add_targets
  add_targets-Halts [] = Halts-pure (clock E) tt
  add_targets-Halts (node ∷ nodes) =
      Paced-bind (clock E) _ (item "UUID" node) _ (Halts-item (clock E) "UUID" node) (λ uuid.
        Paced-bind (clock E) _ (modify _) _ (Halts-modify (clock E) _ (λ s. refl))
          (λ _. add_targets-Halts nodes))

  pub do_setup-Halts : Halts (clock E) (do_setup E)
  unfolding do_setup
  do_setup-Halts =
      search
        (
          pace_rules, Halts-modify, get_cluster_info-Halts, wait_for_lightos_cluster-Halts,
          add_targets-Halts,
        )
        depth 9

  pub check_for_setup_error-Halts :
      (hostnqn : Json) → Halts (clock E) (check_for_setup_error E hostnqn)
  unfolding check_for_setup_error
  check_for_setup_error-Halts hostnqn = search pace_rules

  pub get_volume_stats-Halts : (refresh : Bool) → Halts (clock E) (get_volume_stats E refresh)
  unfolding get_volume_stats
  get_volume_stats-Halts refresh = search (pace_rules, Halts-modify)
