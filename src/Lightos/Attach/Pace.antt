-- ===== src/Lightos/Attach/Pace.antt =====
-- Connecting and disconnecting end.
use chef_bcpc.Prelude.{Bool, Option, String, List, [], ◌∷◌}
use chef_bcpc.Json.{Json, Fields}
use chef_bcpc.Run.Pace.{Halts, Ticks-Halts, Halts-pure, Paced-raise, Paced-bind, Paced-if}
use chef_bcpc.Lightos.Session.{Env, IsTimed, clock}
use chef_bcpc.Lightos.Lookup.{Volume}
use chef_bcpc.Lightos.Lookup.Pace.{pace_rules, get_lightos_uuid-Ticks}
use chef_bcpc.Lightos.Access.Pace.{
  add_volume_acl-Halts, remove_volume_acl-Halts, remove_all_volume_acls-Halts,
  wait_for_volume_acl-Halts,
}
use chef_bcpc.Lightos.Attach.{
  Connector, data_address_of, lightos_targets, get_connection_properties, await_acl, attach,
  initialize_connection, terminate_connection, properties_of,
}
use chef_bcpc.Dynamic.{put}

module _ (E : Env) (timed : IsTimed E) where
  data_address_of-Halts : (target : Json) → Halts (clock E) (data_address_of E target)
  unfolding data_address_of
  data_address_of-Halts target = search pace_rules

  lightos_targets-Halts :
      (targets : List (Json × Json)) (nodes : Fields)
      → Halts (clock E) (lightos_targets E targets nodes)
  unfolding lightos_targets
  lightos_targets-Halts [] nodes = Halts-pure (clock E) nodes
  lightos_targets-Halts ((_, target) ∷ targets) nodes =
      Paced-bind (clock E) _ (data_address_of E target) _ (data_address_of-Halts target)
        (λ a. lightos_targets-Halts targets (put a (properties_of a) nodes))

  get_connection_properties-Halts :
      (project : Json) (volume : Volume)
      → Halts (clock E) (get_connection_properties E project volume)
  unfolding get_connection_properties
  get_connection_properties-Halts project volume =
      search (pace_rules, lightos_targets-Halts, Ticks-Halts, get_lightos_uuid-Ticks) depth 7

  await_acl-Halts :
      (success : Bool) (project : Json) (name : String) (host : Json) (requested : Bool)
      → Halts (clock E) (await_acl E success project name host requested)
  unfolding await_acl
  await_acl-Halts success project name host requested =
      search (Paced-if, Halts-pure, wait_for_volume_acl-Halts)

  attach-Halts :
      (volume : Volume) (connector : Connector) → Halts (clock E) (attach E volume connector)
  unfolding attach
  attach-Halts volume connector =
      search (pace_rules, add_volume_acl-Halts, await_acl-Halts, get_connection_properties-Halts)
        depth 7

  pub initialize_connection-Halts :
      (volume : Volume) (connector : Connector)
      → Halts (clock E) (initialize_connection E volume connector)
  unfolding initialize_connection
  initialize_connection-Halts volume connector = search (Paced-if, Paced-raise, attach-Halts)

  pub terminate_connection-Halts :
      (volume : Volume) (connector : Option Connector) (force : Bool)
      → Halts (clock E) (terminate_connection E volume connector force)
  unfolding terminate_connection
  terminate_connection-Halts volume connector force =
      search (pace_rules, remove_volume_acl-Halts, remove_all_volume_acls-Halts, await_acl-Halts)
        depth 7
