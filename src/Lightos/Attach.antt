-- ===== src/Lightos/Attach.antt =====
-- Connecting a host to a volume and disconnecting it: `initialize_connection`,
-- `terminate_connection` and `_get_connection_properties`.
pub mod Pace
pub mod Listed
use chef_bcpc.Prelude.{
  ℕ, not, String, Bool, true, false, Option, none, some, List, [], ◌∷◌, if◌then◌else◌,
}
use chef_bcpc.Json.{Json, null, num, str, obj, Fields, end, field, truthy}
use chef_bcpc.Run.{
  Done, pure, raise, gets, or_raise, ◌>>=◌, ◌>>◌, volume_backend_api, value_error, attribute_error,
}
use chef_bcpc.Dynamic.{item, put, split_pair}
use chef_bcpc.Lightos.Session.{Env, Action}
use chef_bcpc.Lightos.Lookup.{Volume, project_name_of, lightos_volname, get_lightos_uuid}
use chef_bcpc.Lightos.Access.{
  add_volume_acl, remove_volume_acl, remove_all_volume_acls, wait_for_volume_acl,
}

-- The connector's dict: `null` for a key that it lacks, no address without `host_ips`.
pub record Connector : Type 0 where
  pub nqn : Json
  pub found_dsc : Json
  pub host_ips : List Json

abbrev pub is_empty {ℓ} : {A : Type ℓ} → List A → Bool
is_empty [] = true
is_empty (x ∷ xs) = false

-- `spec specified discovery port`
abbrev pub discovery_port : ℕ
discovery_port = 8009

abbrev pub properties_of : String → Json
properties_of data_address = obj (
    field "target_portal" (str data_address)
      (field "target_port" (num discovery_port) (field "transport_type" (str "tcp") end)))

-- `target['nvmeEndpoint'].split(':')` where it has a `split` method.
abbrev pub endpoint_text : Json → Option String
endpoint_text (str s) = some s
endpoint_text _ = none

module _ (E : Env) where
  -- The address of a target, the text before the one colon of its endpoint.
  unfoldable pub data_address_of : Json → Action E String
  data_address_of target = do
    endpoint ← item "nvmeEndpoint" target
    text ← or_raise attribute_error (endpoint_text endpoint)
    parts ← or_raise value_error (split_pair ":" text)
    pure parts.0

  -- The loop over `self.cluster.targets.values()`
  unfoldable pub lightos_targets : List (Json × Json) → Fields → Action E Fields
  lightos_targets [] nodes = pure nodes
  lightos_targets ((_, target) ∷ targets) nodes = do
    data_address ← data_address_of target
    lightos_targets targets (put data_address (properties_of data_address) nodes)

  -- `_get_connection_properties`
  unfoldable pub get_connection_properties : Json → Volume → Action E Json
  get_connection_properties project volume = do
    targets ← gets (λ s. s.targets)
    nodes ← lightos_targets targets end
    uuid ← get_lightos_uuid E project volume
    nqn ← gets (λ s. s.subsystem_nqn)
    pure (obj (field "lightos_nodes" (obj nodes) (field "uuid" uuid (field "subsysnqn" nqn end))))

  -- `success`, and then the wait for the ACL.
  unfoldable pub await_acl : Bool → Json → String → Json → Bool → Action E Bool
  await_acl success project name host requested =
      if success then wait_for_volume_acl E project name host requested else pure false

  -- `initialize_connection` with a connector that has all it needs.
  unfoldable pub attach : Volume → Connector → Action E Json
  attach volume connector = do
    success ← add_volume_acl E (project_name_of volume) volume connector.nqn connector.host_ips
    added ← await_acl success (project_name_of volume) (lightos_volname E volume) connector.nqn true
    if not added then raise volume_backend_api else do
      props ← get_connection_properties (project_name_of volume) volume
      pure (obj (field "driver_volume_type" (str "lightos") (field "data" props end)))

  -- `initialize_connection`
  unfoldable pub initialize_connection : Volume → Connector → Action E Json
  initialize_connection volume connector =
      if not (truthy connector.nqn)
      then raise volume_backend_api
      else (if not (truthy connector.found_dsc)
          then raise volume_backend_api
          else (if is_empty connector.host_ips
              then raise volume_backend_api
              else attach volume connector))

  abbrev pub nqn_of : Option Connector → Json
  nqn_of none = null
  nqn_of (some connector) = connector.nqn

  abbrev pub ips_of : Option Connector → List Json
  ips_of none = []
  ips_of (some connector) = connector.host_ips

  -- `terminate_connection`: a failure to remove the host is only logged.
  unfoldable pub terminate_connection : Volume → Option Connector → Bool → Action E Done
  terminate_connection volume connector force =
      if not (truthy (nqn_of connector))
      then (if force
          then (remove_all_volume_acls E (project_name_of volume) volume >> pure tt)
          else raise volume_backend_api)
      else (do
        success ←
            remove_volume_acl E (project_name_of volume) volume (nqn_of connector)
              (ips_of connector)
        await_acl success (project_name_of volume) (lightos_volname E volume) (nqn_of connector)
            false
        pure tt)
