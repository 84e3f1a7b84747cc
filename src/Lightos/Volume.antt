-- ===== src/Lightos/Volume.antt =====
-- Creating, deleting and extending a volume.
pub mod Pace
pub mod Created
use chef_bcpc.Prelude.{
  ℕ, ◌+◌, ◌==◌, ◌||◌, leb, not, String, ◌<>◌, Bool, true, false, Option, none, some, if◌then◌else◌,
  print_nat,
}
use chef_bcpc.Json.{Json, null, str, arr, nil, cons, truthy, is_text}
use chef_bcpc.Run.{
  Done, pure, raise, ◌>>=◌, ◌>>◌, catch, Error, is_volume_not_found, unbound_local_error,
  volume_not_found, volume_backend_api, extend_volume_error,
}
use chef_bcpc.Run.Loop.{Step, again, leave, while_before}
use chef_bcpc.Dynamic.{get, item}
use chef_bcpc.Lightos.Command.{no_kwargs}
use chef_bcpc.Lightos.Session.{Env, Action, Reply, clock}
use chef_bcpc.Lightos.Client.{send_cmd}
use chef_bcpc.Lightos.Lookup.{
  Volume, http_ok, http_created, http_not_found, is_one_of, deleted_states, project_name_of,
  lightos_volname, lightos_snapshotname, op_timeout, now, sleep_second, get_lightos_volume,
  wait_for_volume_available, wait_for_volume_deleted, get_lightos_uuid, get_volume_specs,
}

abbrev pub allow_none : Json
allow_none = str "ALLOW_NONE"

abbrev pub allow_any : Json
allow_any = str "ALLOW_ANY"

module _ (E : Env) where
  -- `_create_new_lightos_volume`; `snapshot` is `null` for a volume with no source.
  unfoldable pub create_new_lightos_volume : Volume → Json → String → Json → Action E Reply
  create_new_lightos_volume volume project name snapshot = do
    specs ← get_volume_specs E volume
    timeout ← op_timeout E
    send_cmd E "create_volume" timeout (record no_kwargs {
      project_name = project;
      name = str name;
      size = str (print_nat volume.size <> " gib");
      n_replicas = specs.1;
      compression = specs.0;
      src_snapshot_name = snapshot;
      acl = arr (cons allow_none nil);
      ip_acl = arr (cons (if E.config.lightos_use_ipacl then allow_none else allow_any) nil);
    })

  -- One request to delete, of the loop in `_delete_lightos_volume`.
  unfoldable pub delete_round : Json → Json → Option Done → Action E (Step (Option Done) Done)
  delete_round project uuid _ = do
    timeout ← op_timeout E
    reply ←
        send_cmd E "delete_volume" timeout
          (record no_kwargs { project_name = project; volume_uuid = uuid })
    if reply.0 == http_ok then pure (leave tt) else (sleep_second E >> pure (again (some tt)))

  -- What follows the loop. Its `else` logs the last status, which no round has bound if none ran.
  unfoldable pub delete_result : Json → Json → Step (Option Done) Done → Action E Bool
  delete_result project uuid (leave _) = do
    timeout ← op_timeout E
    state ← wait_for_volume_deleted E project timeout uuid
    pure (is_one_of deleted_states state)
  delete_result project uuid (again (some _)) = pure false
  delete_result project uuid (again none) = raise unbound_local_error

  -- `_delete_lightos_volume`
  unfoldable pub delete_lightos_volume : Json → Json → Action E Bool
  delete_lightos_volume project uuid = do
    time ← now E
    timeout ← op_timeout E
    last ← while_before (clock E) (time + timeout) (delete_round project uuid) none
    delete_result project uuid last

  -- What `_create_volume` does by the last state that it saw. A volume in a state that it knows and
  -- that is not `Available` is cleaned up; OpenStack is to call again.
  unfoldable pub conclude_create : Json → Json → Json → Action E Done
  conclude_create project uuid state =
      if is_text "Available" state
      then pure tt
      else (if is_text "UNKNOWN" state
          then raise volume_backend_api
          else (delete_lightos_volume project uuid >> raise volume_backend_api))

  -- `_create_volume`, once the volume was found or a request to create it was answered.
  unfoldable pub finish_create : Json → Reply → Action E Done
  finish_create project (status, resp) =
      if not (status == http_ok || status == http_created) then raise volume_backend_api else do
        uuid ← item "UUID" resp
        timeout ← op_timeout E
        state ← wait_for_volume_available E project timeout uuid null
        conclude_create project uuid state

  -- `_create_volume`
  unfoldable pub create_volume_from : Volume → Json → Action E Done
  create_volume_from volume snapshot = do
    timeout ← op_timeout E
    found ←
        get_lightos_volume E (project_name_of volume) timeout null (str (lightos_volname E volume))
    if found.0 == http_not_found
        then (create_new_lightos_volume volume (project_name_of volume) (lightos_volname E volume)
              snapshot
            >>= finish_create (project_name_of volume))
        else finish_create (project_name_of volume) found

  -- `create_volume`
  unfoldable pub create_volume : Volume → Action E Done
  create_volume volume = create_volume_from volume null

  -- `create_volume_from_snapshot`
  unfoldable pub create_volume_from_snapshot : Volume → String → Action E Done
  create_volume_from_snapshot volume snapshot_id =
      create_volume_from volume (str (lightos_snapshotname E snapshot_id))

  abbrev pub none_if_not_found : Error → Action E (Option Json)
  none_if_not_found e = if is_volume_not_found e then pure none else raise e

  -- `try: self._get_lightos_uuid(...) / except VolumeNotFound`
  unfoldable pub uuid_or_none : Volume → Action E (Option Json)
  uuid_or_none volume =
      catch (do id ← get_lightos_uuid E (project_name_of volume) volume; pure (some id))
        none_if_not_found

  abbrev pub delete_found : Json → Option Json → Action E Done
  delete_found project none = pure tt
  delete_found project (some uuid) = do
    deleted ← delete_lightos_volume project uuid
    if deleted then pure tt else raise volume_backend_api

  -- `delete_volume`: a volume that is not there counts as deleted.
  unfoldable pub delete_volume : Volume → Action E Done
  delete_volume volume = do uuid ← uuid_or_none volume; delete_found (project_name_of volume) uuid

  -- The second `try` of `_extend_volume`: every exception becomes an ExtendVolumeError.
  unfoldable pub request_extension : Json → ℕ → Json → Json → Action E Bool
  request_extension project size uuid etag =
      catch
        (do
          timeout ← op_timeout E
          reply ← send_cmd E "extend_volume" timeout (record no_kwargs {
            project_name = project;
            volume_uuid = uuid;
            size = str (print_nat size <> " gib");
            etag = etag;
          })
          if reply.0 == http_ok then pure true else raise extend_volume_error)
        (λ _. raise extend_volume_error)

  -- `_extend_volume`
  unfoldable pub try_extend : Volume → ℕ → Action E Bool
  try_extend volume size = do
    timeout ← op_timeout E
    found ←
        get_lightos_volume E (project_name_of volume) timeout null (str (lightos_volname E volume))
    if not (found.0 == http_ok) || not (truthy found.1) then raise volume_not_found else do
      uuid ← item "UUID" found.1
      etag ← get "ETag" (str "") found.1
      request_extension (project_name_of volume) size uuid etag

  -- The `except` clauses of the loop in `extend_volume`, which ends at `stop`.
  unfoldable pub extend_failed : ℕ → Error → Action E (Step Done Done)
  extend_failed stop e =
      if is_volume_not_found e
      then raise e
      else do time ← now E; if leb stop time then raise e else (sleep_second E >> pure (again tt))

  unfoldable pub extend_round : Volume → ℕ → ℕ → Done → Action E (Step Done Done)
  extend_round volume size stop _ =
      catch (do finished ← try_extend volume size; pure (if finished then leave tt else again tt))
        (extend_failed stop)

  -- `extend_volume`
  unfoldable pub extend_volume : Volume → ℕ → Action E Done
  extend_volume volume size = do
    time ← now E
    timeout ← op_timeout E
    while_before (clock E) (time + timeout) (extend_round volume size (time + timeout)) tt
    pure tt
