-- ===== src/Lightos/Setup.antt =====
-- The driver's start: the cluster's identity, its nodes, and the statistics of the service.
pub mod Pace
use chef_bcpc.Prelude.{
  ℕ, ◌+◌, ◌/◌, ◌==◌, not, String, Bool, true, false, Option, none, some, List, [], ◌∷◌,
  if◌then◌else◌, ite, length, str_eq,
}
use chef_bcpc.Json.{Json, Json-discrete, bool, str, arr, obj, nil, cons, end, field, truthy}
use chef_bcpc.Run.{
  Done, pure, raise, gets, modify, ◌>>=◌, ◌>>◌, volume_backend_api, invalid_auth_key,
  unbound_local_error,
}
use chef_bcpc.Run.Loop.{Step, again, leave, while_before}
use chef_bcpc.Dynamic.{item, iterate, has_key}
use chef_bcpc.Lightos.Command.{no_kwargs}
use chef_bcpc.Lightos.Session.{Env, Action, clock}
use chef_bcpc.Lightos.Client.{send_cmd}
use chef_bcpc.Lightos.Lookup.{http_ok, op_timeout, now, sleep_second}

-- `targets[key] = value`
unfoldable pub set_target : Json → Json → List (Json × Json) → List (Json × Json)
set_target k v [] = (k, v) ∷ []
set_target k v ((j, w) ∷ ts) = ite (Json-discrete j k) ((j, v) ∷ ts) ((j, w) ∷ set_target k v ts)

-- `byte_to_gb`, of a number of bytes
unfoldable pub byte_to_gb : ℕ → ℕ
byte_to_gb bytes = bytes / 1073741824

module _ (E : Env) where
  -- `get_cluster_info`
  unfoldable pub get_cluster_info : Action E Done
  get_cluster_info = do
    timeout ← op_timeout E
    reply ← send_cmd E "get_cluster_info" timeout no_kwargs
    if reply.0 == 401
        then raise invalid_auth_key
        else (if not (reply.0 == http_ok) then raise volume_backend_api else do
          uuid ← item "UUID" reply.1
          nqn ← item "subsystemNQN" reply.1
          modify (λ s. record s { lightos_cluster_uuid = uuid; subsystem_nqn = nqn }))

  -- `get_cluster_stats`
  unfoldable pub get_cluster_stats : Action E Json
  get_cluster_stats = do
    timeout ← op_timeout E
    reply ← send_cmd E "get_cluster" timeout no_kwargs
    if not (reply.0 == http_ok) then raise volume_backend_api else item "statistics" reply.1

  -- `valid_nodes_info`
  unfoldable pub valid_nodes_info : Json → Action E Bool
  valid_nodes_info nodes_info =
      if not (truthy nodes_info) then pure false else has_key "nodes" nodes_info

  unfoldable pub nodes_round : Option Done → Action E (Step (Option Done) Json)
  nodes_round _ = do
    timeout ← op_timeout E
    reply ← send_cmd E "get_nodes" timeout no_kwargs
    valid ← if reply.0 == http_ok then valid_nodes_info reply.1 else pure false
    if valid then pure (leave reply.1) else (sleep_second E >> pure (again (some tt)))

  abbrev pub nodes_or_raise : Step (Option Done) Json → Action E Json
  nodes_or_raise (leave nodes_info) = pure nodes_info
  nodes_or_raise (again (some _)) = raise volume_backend_api
  nodes_or_raise (again none) = raise unbound_local_error

  -- `wait_for_lightos_cluster`
  unfoldable pub wait_for_lightos_cluster : Action E Json
  wait_for_lightos_cluster = do
    time ← now E
    timeout ← op_timeout E
    last ← while_before (clock E) (time + timeout) nodes_round none
    nodes_or_raise last

  -- The loop `for node in node_list` of `do_setup`.
  unfoldable pub add_targets : List Json → Action E Done
  add_targets [] = pure tt
  add_targets (node ∷ nodes) = do
    uuid ← item "UUID" node
    modify (λ s. record s { targets = set_target uuid node s.targets })
    add_targets nodes

  -- `do_setup`
  unfoldable pub do_setup : Action E Done
  do_setup = do
    get_cluster_info
    nodes_info ← wait_for_lightos_cluster
    modify (λ s. record s { targets = [] })
    nodes ← item "nodes" nodes_info
    node_list ← iterate nodes
    add_targets node_list
    modify (λ s. record s {
      logical_op_timeout =
          if length node_list == 1
          then E.config.lightos_api_service_timeout + 10
          else s.logical_op_timeout;
    })

  -- `check_for_setup_error`; `hostnqn` is what the connector's properties say under `nqn`.
  unfoldable pub check_for_setup_error : Json → Action E Done
  check_for_setup_error hostnqn = do
    subsysnqn ← gets (λ s. s.subsystem_nqn)
    if not (truthy subsysnqn)
        then raise volume_backend_api
        else (if not (truthy hostnqn) then raise volume_backend_api else pure tt)

  abbrev pub backend_name : Option String → String
  backend_name none = "LightOSVolumeDriver"
  backend_name (some name) = if str_eq name "" then "LightOSVolumeDriver" else name

  -- The statistics that `get_volume_stats` builds.
  unfoldable pub volume_stats : Json
  volume_stats = obj (
      field "vendor_name" (str "LightOS Storage") (
        field "volume_backend_name" (str (backend_name E.config.volume_backend_name)) (
          field "driver_version" (str "2.3.12") (
            field "storage_protocol" (str "lightos") (
              field "reserved_percentage" E.config.reserved_percentage (
                field "QoS_support" (bool false) (
                  field "online_extend_support" (bool true) (
                    field "thin_provisioning_support" (bool true) (
                      field "compression" (arr (cons (bool true) (cons (bool false) nil))) (
                        field "multiattach" (bool true)
                          (field "free_capacity_gb" (str "infinite") end)))))))))))

  -- `get_volume_stats`
  unfoldable pub get_volume_stats : Bool → Action E Json
  get_volume_stats refresh =
      if not refresh
      then gets (λ s. s.stats)
      else do modify (λ s. record s { stats = volume_stats }); gets (λ s. s.stats)
