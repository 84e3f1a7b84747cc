-- ===== src/Lightos/Frame/Attach.antt =====
-- A relation between sessions that each step of the client keeps, carried to attaching and detaching a host.
use chef_bcpc.Prelude.{Bool, Option, String, List, [], ◌∷◌}
use chef_bcpc.Json.{Json, Fields}
use chef_bcpc.Lightos.Session.{Env}
use chef_bcpc.Lightos.Lookup.{Volume}
use chef_bcpc.Lightos.Frame.Lookup.{get_lightos_uuid-Framed}
use chef_bcpc.Lightos.Frame.Access.{
  add_volume_acl-Framed, remove_volume_acl-Framed, remove_all_volume_acls-Framed,
  wait_for_volume_acl-Framed,
}
use chef_bcpc.Lightos.Attach.{
  Connector, data_address_of, lightos_targets, get_connection_properties, await_acl, attach,
  initialize_connection, terminate_connection, properties_of,
}
use chef_bcpc.Dynamic.{put}
use chef_bcpc.Run.Keeps.{Keeps-pure, Keeps-raise, Keeps-bind, Keeps-if}
use chef_bcpc.Lightos.Frame.{Frame, Framed, keeps_rules}
use chef_bcpc.Lightos.Client.Servers.{view}

module _ (E : Env) (F : Frame E) where
  data_address_of-Framed : (target : Json) → Framed E F (data_address_of E target)
  unfolding data_address_of
  data_address_of-Framed target = search keeps_rules

  lightos_targets-Framed :
      (targets : List (Json × Json)) (nodes : Fields) → Framed E F (lightos_targets E targets nodes)
  unfolding lightos_targets
  lightos_targets-Framed [] nodes = Keeps-pure (view E) F.relation nodes
  lightos_targets-Framed ((_, target) ∷ targets) nodes =
      Keeps-bind (view E) F.relation (data_address_of E target) _ (data_address_of-Framed target)
        (λ a. lightos_targets-Framed targets (put a (properties_of a) nodes))

  pub get_connection_properties-Framed :
      (project : Json) (volume : Volume) → Framed E F (get_connection_properties E project volume)
  unfolding get_connection_properties
  get_connection_properties-Framed project volume =
      search (keeps_rules, lightos_targets-Framed, get_lightos_uuid-Framed) depth 7

  pub await_acl-Framed :
      (success : Bool) (project : Json) (name : String) (host : Json) (requested : Bool)
      → Framed E F (await_acl E success project name host requested)
  unfolding await_acl
  await_acl-Framed success project name host requested =
      search (Keeps-if, Keeps-pure, wait_for_volume_acl-Framed)

  attach-Framed : (volume : Volume) (connector : Connector) → Framed E F (attach E volume connector)
  unfolding attach
  attach-Framed volume connector =
      search
        (keeps_rules, add_volume_acl-Framed, await_acl-Framed, get_connection_properties-Framed)
        depth 7

  pub initialize_connection-Framed :
      (volume : Volume) (connector : Connector)
      → Framed E F (initialize_connection E volume connector)
  unfolding initialize_connection
  initialize_connection-Framed volume connector = search (Keeps-if, Keeps-raise, attach-Framed)

  pub terminate_connection-Framed :
      (volume : Volume) (connector : Option Connector) (force : Bool)
      → Framed E F (terminate_connection E volume connector force)
  unfolding terminate_connection
  terminate_connection-Framed volume connector force =
      search
        (keeps_rules, remove_volume_acl-Framed, remove_all_volume_acls-Framed, await_acl-Framed)
        depth 7
