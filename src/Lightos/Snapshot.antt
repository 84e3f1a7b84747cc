-- ===== src/Lightos/Snapshot.antt =====
-- Snapshots, and the clone of a volume through an intermediate snapshot. The lock of
-- `coordination.synchronized` round `_create_snapshot` is not modelled: one caller runs.
pub mod Pace
use chef_bcpc.Prelude.{
  ℕ, ◌+◌, ◌*◌, ◌==◌, ◌||◌, String, Bool, false, Option, none, some, if◌then◌else◌,
}
use chef_bcpc.Json.{Json, null, str, truthy, is_text}
use chef_bcpc.Run.{
  Done, pure, raise, ◌>>=◌, ◌>>◌, catch, try_finally, Error, is_cinder_exception,
  unbound_local_error, volume_backend_api,
}
use chef_bcpc.Run.Loop.{Step, again, leave, while_before}
use chef_bcpc.Dynamic.{get}
use chef_bcpc.Lightos.Command.{no_kwargs}
use chef_bcpc.Lightos.Session.{Env, Action, Reply, clock}
use chef_bcpc.Lightos.Client.{send_cmd}
use chef_bcpc.Lightos.Lookup.{
  Volume, http_ok, http_not_found, is_one_of, deleted_states, project_name_of, interm_snapshotname,
  lightos_volname, lightos_snapshotname, op_timeout, now, sleep_second, get_lightos_snapshot,
  wait_for_snapshot_available, wait_for_snapshot_deleted,
}
use chef_bcpc.Lightos.Volume.{create_volume_from}

-- What the driver reads of an OpenStack snapshot.
pub record Snapshot : Type 0 where
  pub id : String
  pub volume : Volume

module _ (E : Env) where
  -- The part of `_get_lightos_snapshot_uuid` after the request.
  unfoldable pub raise_unless_missing : ℕ → Action E (Option Json)
  raise_unless_missing status =
      if status == http_not_found then pure none else raise volume_backend_api

  unfoldable pub snapshot_uuid_of : Reply → Action E (Option Json)
  snapshot_uuid_of (status, answer) =
      if status == http_ok
      then (do
        uuid ← get "UUID" null answer
        if truthy uuid then pure (some uuid) else raise_unless_missing status)
      else raise_unless_missing status

  -- `_get_lightos_snapshot_uuid`
  unfoldable pub get_lightos_snapshot_uuid : Json → Json → Action E (Option Json)
  get_lightos_snapshot_uuid project name = do
    timeout ← op_timeout E
    reply ← get_lightos_snapshot E project timeout null name
    snapshot_uuid_of reply

  -- `_delete_lightos_snapshot`, once the UUID is known.
  unfoldable pub delete_known_snapshot : Json → Option Json → Action E Bool
  delete_known_snapshot project none = pure false
  delete_known_snapshot project (some uuid) = do
    timeout ← op_timeout E
    reply ←
        send_cmd E "delete_snapshot" timeout
          (record no_kwargs { project_name = project; snapshot_uuid = uuid })
    if reply.0 == http_ok
        then (do
          wait ← op_timeout E
          state ← wait_for_snapshot_deleted E project wait uuid
          pure (is_one_of deleted_states state))
        else pure false

  -- `_delete_lightos_snapshot`
  unfoldable pub delete_lightos_snapshot : Json → Json → Action E Bool
  delete_lightos_snapshot project name = do
    uuid ← get_lightos_snapshot_uuid project name
    delete_known_snapshot project uuid

  -- One request of the loop in `_create_snapshot`: errors 400 and 500 are tried again.
  unfoldable pub create_snapshot_round :
      Json → Json → Json → Option ℕ → Action E (Step (Option ℕ) ℕ)
  create_snapshot_round project name source _ = do
    timeout ← op_timeout E
    reply ←
        send_cmd E "create_snapshot" timeout
          (record no_kwargs { project_name = project; name = name; src_volume_name = source })
    if reply.0 == 400 || reply.0 == 500
        then (sleep_second E >> pure (again (some reply.0)))
        else pure (leave reply.0)

  abbrev pub require_ok : ℕ → Action E Done
  require_ok status = if status == http_ok then pure tt else raise volume_backend_api

  abbrev pub created : Step (Option ℕ) ℕ → Action E Done
  created (leave status) = require_ok status
  created (again (some status)) = require_ok status
  created (again none) = raise unbound_local_error

  -- The request for a snapshot that is not there, for 20 seconds more than an operation has.
  unfoldable pub request_snapshot : Json → Json → Json → Action E Done
  request_snapshot project name source = do
    time ← now E
    timeout ← op_timeout E
    last ←
        while_before (clock E) (time + timeout + 20 * E.second)
          (create_snapshot_round project name source) none
    created last

  -- `except CinderException`
  abbrev pub ignore_cinder_exception : Error → Action E Bool
  ignore_cinder_exception e = if is_cinder_exception e then pure false else raise e

  -- `_create_snapshot` by the state of the snapshot; one that did not come up is deleted.
  unfoldable pub conclude_snapshot : Json → Json → Json → Action E Done
  conclude_snapshot project name state =
      if is_text "Available" state
      then pure tt
      else (catch (delete_lightos_snapshot project name) ignore_cinder_exception
          >> raise volume_backend_api)

  -- `_create_snapshot`
  unfoldable pub create_lightos_snapshot : Json → Json → Json → Action E Done
  create_lightos_snapshot project name source = do
    timeout ← op_timeout E
    found ← get_lightos_snapshot E project timeout null name
    if found.0 == http_ok then pure tt else request_snapshot project name source
    wait ← op_timeout E
    state ← wait_for_snapshot_available E project wait null name
    conclude_snapshot project name state

  -- `create_snapshot`
  unfoldable pub create_snapshot : Snapshot → Action E Done
  create_snapshot snapshot =
      create_lightos_snapshot (project_name_of snapshot.volume)
        (str (lightos_snapshotname E snapshot.id)) (str (lightos_volname E snapshot.volume))

  -- `delete_snapshot`
  unfoldable pub delete_snapshot : Snapshot → Action E Done
  delete_snapshot snapshot =
      delete_lightos_snapshot (project_name_of snapshot.volume)
        (str (lightos_snapshotname E snapshot.id))
      >> pure tt

  -- `create_cloned_volume`: the intermediate snapshot goes whether the volume was created or not.
  unfoldable pub create_cloned_volume : Volume → Volume → Action E Done
  create_cloned_volume volume source = do
    create_lightos_snapshot (project_name_of volume) (str (interm_snapshotname volume))
        (str (lightos_volname E source))
    try_finally (create_volume_from E volume (str (interm_snapshotname volume)))
        (delete_lightos_snapshot (project_name_of volume) (str (interm_snapshotname volume)))
