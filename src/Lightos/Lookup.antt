-- ===== src/Lightos/Lookup.antt =====
-- What the driver asks the cluster: a volume or a snapshot by its name or UUID, the polling loops
-- `_wait_for_*`, and the names and specifications of an OpenStack volume.
pub mod Pace
pub mod Answers
use chef_bcpc.Prelude.{
  ℕ, ◌+◌, ◌*◌, ◌==◌, ◌&&◌, ◌||◌, not, String, ◌<>◌, Bool, true, false, Option, none, some, List, [],
  ◌∷◌, if◌then◌else◌, print_nat,
}
use chef_bcpc.Json.{Json, null, str, obj, truthy, is_text, print, lookup}
use chef_bcpc.Run.{
  Done, pure, raise, gets, modify, ◌>>=◌, ◌>>◌, unbound_local_error, volume_not_found,
}
use chef_bcpc.Run.Loop.{Step, again, leave, while_until}
use chef_bcpc.Dynamic.{get, assert, codes, casefold, occurs, or_default}
use chef_bcpc.Lightos.Command.{no_kwargs}
use chef_bcpc.Lightos.Session.{Env, Action, Reply, clock}
use chef_bcpc.Lightos.Client.{send_cmd}

-- HTTP status codes
abbrev pub http_ok : ℕ
http_ok = 200

abbrev pub http_created : ℕ
http_created = 201

abbrev pub http_not_found : ℕ
http_not_found = 404

-- `volume.volume_type`, whose `extra_specs` are a dict or `None`.
pub record VolumeType : Type 0 where
  pub extra_specs : Json

-- What the driver reads of an OpenStack volume.
pub record Volume : Type 0 where
  pub id : String
  pub name_id : String
  pub size : ℕ
  pub volume_type : Option VolumeType

abbrev pub is_one_of : List String → Json → Bool
is_one_of [] v = false
is_one_of (s ∷ ss) v = is_text s v || is_one_of ss v

-- The states that end a wait.
abbrev pub settled_states : List String
settled_states = "Available" ∷ "Deleting" ∷ "Deleted" ∷ "Failed" ∷ "UNKNOWN" ∷ []

abbrev pub deleted_states : List String
deleted_states = "Deleted" ∷ "Deleting" ∷ "UNKNOWN" ∷ []

interm_snapshot_prefix : String
interm_snapshot_prefix = "for_clone_"

-- `_interm_snapshotname`
unfoldable pub interm_snapshotname : Volume → String
unfolding interm_snapshot_prefix
interm_snapshotname volume = interm_snapshot_prefix <> volume.id

-- `extra_specs.get(key, default)`, `none` where it raises
spec_or : String → Json → Json → Option Json
spec_or k d (obj fs) = some (or_default d (lookup k fs))
spec_or k d _ = none

-- `_get_lightos_project_name`: any exception gives the default.
unfoldable pub project_name_of : Volume → Json
unfolding spec_or
project_name_of volume = elim volume.volume_type [
  | none ↦ str "default"
  | some vt ↦
      or_default (str "default") (spec_or "lightos:project_name" (str "default") vt.extra_specs)
]

-- `_parse_extra_spec`
unfoldable pub parse_extra_spec : Json → Json → Json
parse_extra_spec value default =
    let folded = casefold (codes (print value)) in
    if occurs (codes "true") folded
    then str "True"
    else if occurs (codes "false") folded
    then str "False"
    else default

module _ (E : Env) where
  -- `_lightos_volname`
  unfoldable pub lightos_volname : Volume → String
  lightos_volname volume = E.config.volume_name_template volume.name_id

  -- `_lightos_snapshotname`
  unfoldable pub lightos_snapshotname : String → String
  lightos_snapshotname id = E.config.snapshot_name_template id

  -- `self.logical_op_timeout`, in ticks
  unfoldable pub op_timeout : Action E ℕ
  op_timeout = gets (λ s. s.logical_op_timeout * E.second)

  unfoldable pub now : Action E ℕ
  now = gets (clock E)

  -- `time.sleep(1)`
  unfoldable pub sleep_second : Action E Done
  sleep_second = modify (λ s. record s { world = E.sleep 1 s.world })

  -- `_get_lightos_volume`
  unfoldable pub get_lightos_volume : Json → ℕ → Json → Json → Action E Reply
  get_lightos_volume project timeout uuid name = do
    assert (truthy uuid || truthy name)
    if truthy uuid
        then send_cmd E "get_volume" timeout
            (record no_kwargs { project_name = project; volume_uuid = uuid })
        else send_cmd E "get_volume_by_name" timeout
            (record no_kwargs { project_name = project; volume_name = name })

  -- `_get_lightos_snapshot`
  unfoldable pub get_lightos_snapshot : Json → ℕ → Json → Json → Action E Reply
  get_lightos_snapshot project timeout uuid name = do
    assert (truthy uuid || truthy name)
    if truthy uuid
        then send_cmd E "get_snapshot" timeout
            (record no_kwargs { project_name = project; snapshot_uuid = uuid })
        else send_cmd E "get_snapshot_by_name" timeout
            (record no_kwargs { project_name = project; snapshot_name = name })

  -- `resp.get('state', 'UNKNOWN') if status_code == OK and resp else 'UNKNOWN'`
  unfoldable pub state_of : Reply → Action E Json
  state_of (status, resp) =
      if status == http_ok && truthy resp
      then get "state" (str "UNKNOWN") resp
      else pure (str "UNKNOWN")

  -- What the loop's variable `state` holds after it; a loop with no round leaves it unbound.
  abbrev pub last_state : Step (Option Json) Json → Action E Json
  last_state (leave state) = pure state
  last_state (again (some state)) = pure state
  last_state (again none) = raise unbound_local_error

  -- One round of the wait for availability; `ask` is the request for the volume or the snapshot.
  unfoldable pub available_round : Action E Reply → Option Json → Action E (Step (Option Json) Json)
  available_round ask _ = do
    reply ← ask
    state ← state_of reply
    if is_one_of settled_states state && not (reply.0 == http_not_found)
        then pure (leave state)
        else (sleep_second >> pure (again (some state)))

  -- One round of the wait for deletion.
  unfoldable pub deleted_round : Action E Reply → Option Json → Action E (Step (Option Json) Json)
  deleted_round ask _ = do
    reply ← ask
    if reply.0 == http_not_found then pure (leave (str "Deleted")) else do
      state ← state_of reply
      if is_one_of deleted_states state
          then pure (leave state)
          else (sleep_second >> pure (again (some state)))

  -- The loop of the four waits, for `timeout` ticks.
  unfoldable pub poll : ℕ → (Option Json → Action E (Step (Option Json) Json)) → Action E Json
  poll timeout round = do
    time ← now
    last ← while_until (clock E) (time + timeout) round none
    last_state last

  -- `_wait_for_volume_available`
  unfoldable pub wait_for_volume_available : Json → ℕ → Json → Json → Action E Json
  wait_for_volume_available project timeout uuid name = do
    assert (truthy uuid || truthy name)
    op ← op_timeout
    poll timeout (available_round (get_lightos_volume project op uuid name))

  -- `_wait_for_snapshot_available`
  unfoldable pub wait_for_snapshot_available : Json → ℕ → Json → Json → Action E Json
  wait_for_snapshot_available project timeout uuid name = do
    assert (truthy uuid || truthy name)
    op ← op_timeout
    poll timeout (available_round (get_lightos_snapshot project op uuid name))

  -- `_wait_for_snapshot_deleted`
  unfoldable pub wait_for_snapshot_deleted : Json → ℕ → Json → Action E Json
  wait_for_snapshot_deleted project timeout uuid = do
    assert (truthy uuid)
    op ← op_timeout
    poll timeout (deleted_round (get_lightos_snapshot project op uuid null))

  -- `_wait_for_volume_deleted`
  unfoldable pub wait_for_volume_deleted : Json → ℕ → Json → Action E Json
  wait_for_volume_deleted project timeout uuid = do
    assert (truthy uuid)
    op ← op_timeout
    poll timeout (deleted_round (get_lightos_volume project op uuid null))

  -- `_get_lightos_uuid`
  unfoldable pub get_lightos_uuid : Json → Volume → Action E Json
  get_lightos_uuid project volume = do
    timeout ← op_timeout
    reply ← get_lightos_volume project timeout null (str (lightos_volname volume))
    if not (reply.0 == http_ok) || not (truthy reply.1) then raise volume_not_found else do
      uuid ← get "UUID" null reply.1
      if truthy uuid then pure uuid else raise volume_not_found

  -- The compression and the number of replicas of `_get_volume_specs`; no caller reads the third.
  unfoldable pub get_volume_specs : Volume → Action E (Json × Json)
  get_volume_specs volume =
      let compression =
        str (if E.config.lightos_default_compression_enabled then "True" else "False") in
      let replicas = str (print_nat E.config.lightos_default_num_replicas) in
      elim volume.volume_type [
        | none ↦ pure (compression, replicas)
        | some vt ↦ do
          kind ← get "compression" compression vt.extra_specs
          number ← get "lightos:num_replicas" replicas vt.extra_specs
          pure (parse_extra_spec kind compression, str (print number))
      ]
