-- ===== src/Lightos/Snapshot/Pace.antt =====
-- The operations on snapshots, and the clone, end.
use chef_bcpc.Prelude.{ℕ, Option, none, some}
use chef_bcpc.Json.{Json}
use chef_bcpc.Run.{Error, unbound_local_error}
use chef_bcpc.Run.Loop.{Step, again, leave}
use chef_bcpc.Run.Pace.{
  Halts, Rounds, Ticks-Halts, Halts-pure, Paced-raise, Rounds-bind, Paced-catch, Paced-bind,
  Paced-if, Halts-try_finally,
}
use chef_bcpc.Run.Pace.Loops.{Halts-while_before}
use chef_bcpc.Lightos.Session.{Env, IsTimed, Reply, clock}
use chef_bcpc.Lightos.Client.Pace.{send_cmd-Ticks}
use chef_bcpc.Lightos.Lookup.{Volume}
use chef_bcpc.Lightos.Lookup.Pace.{
  pace_rules, op_timeout-Halts, now-Halts, get_lightos_snapshot-Ticks, sleep_second-Halts,
  wait_for_snapshot_available-Halts, wait_for_snapshot_deleted-Halts,
}
use chef_bcpc.Lightos.Volume.Pace.{create_volume_from-Halts}
use chef_bcpc.Lightos.Snapshot.{
  Snapshot, raise_unless_missing, snapshot_uuid_of, get_lightos_snapshot_uuid,
  delete_known_snapshot, delete_lightos_snapshot, create_snapshot_round, require_ok, created,
  request_snapshot, ignore_cinder_exception, conclude_snapshot, create_lightos_snapshot,
  create_snapshot, delete_snapshot, create_cloned_volume,
}

module _ (E : Env) (timed : IsTimed E) where
  raise_unless_missing-Halts : (status : ℕ) → Halts (clock E) (raise_unless_missing E status)
  unfolding raise_unless_missing
  raise_unless_missing-Halts status = search pace_rules

  snapshot_uuid_of-Halts : (reply : Reply) → Halts (clock E) (snapshot_uuid_of E reply)
  unfolding snapshot_uuid_of
  snapshot_uuid_of-Halts (status, answer) = search (pace_rules, raise_unless_missing-Halts)

  get_lightos_snapshot_uuid-Halts :
      (project name : Json) → Halts (clock E) (get_lightos_snapshot_uuid E project name)
  unfolding get_lightos_snapshot_uuid
  get_lightos_snapshot_uuid-Halts project name = search (
    Paced-bind, Ticks-Halts, op_timeout-Halts, get_lightos_snapshot-Ticks, snapshot_uuid_of-Halts,
  )

  delete_known_snapshot-Halts :
      (project : Json) (uuid : Option Json) → Halts (clock E) (delete_known_snapshot E project uuid)
  unfolding delete_known_snapshot
  delete_known_snapshot-Halts project none = Halts-pure (clock E) _
  delete_known_snapshot-Halts project (some uuid) =
      search
        (pace_rules, Ticks-Halts, op_timeout-Halts, send_cmd-Ticks, wait_for_snapshot_deleted-Halts)
        depth 8

  pub delete_lightos_snapshot-Halts :
      (project name : Json) → Halts (clock E) (delete_lightos_snapshot E project name)
  unfolding delete_lightos_snapshot
  delete_lightos_snapshot-Halts project name =
      search (Paced-bind, get_lightos_snapshot_uuid-Halts, delete_known_snapshot-Halts)

  create_snapshot_round-Rounds :
      (project name source : Json) (u : Option ℕ)
      → Rounds (clock E) (create_snapshot_round E project name source u)
  unfolding create_snapshot_round
  create_snapshot_round-Rounds project name source u =
      search (Rounds-bind, pace_rules, op_timeout-Halts, send_cmd-Ticks, sleep_second-Halts)

  require_ok-Halts : (status : ℕ) → Halts (clock E) (require_ok E status)
  require_ok-Halts status = search (Paced-if, Halts-pure, Paced-raise)

  created-Halts : (last : Step (Option ℕ) ℕ) → Halts (clock E) (created E last)
  created-Halts (leave status) = require_ok-Halts status
  created-Halts (again (some status)) = require_ok-Halts status
  created-Halts (again none) = Paced-raise (clock E) _ unbound_local_error

  request_snapshot-Halts :
      (project name source : Json) → Halts (clock E) (request_snapshot E project name source)
  unfolding request_snapshot
  request_snapshot-Halts project name source = search (
    Paced-bind, now-Halts, op_timeout-Halts, Halts-while_before, create_snapshot_round-Rounds,
    created-Halts,
  )

  ignore_cinder_exception-Halts : (e : Error) → Halts (clock E) (ignore_cinder_exception E e)
  ignore_cinder_exception-Halts e = search (Paced-if, Halts-pure, Paced-raise)

  conclude_snapshot-Halts :
      (project name state : Json) → Halts (clock E) (conclude_snapshot E project name state)
  unfolding conclude_snapshot
  conclude_snapshot-Halts project name state =
      search (pace_rules, Paced-catch, delete_lightos_snapshot-Halts, ignore_cinder_exception-Halts)

  pub create_lightos_snapshot-Halts :
      (project name source : Json) → Halts (clock E) (create_lightos_snapshot E project name source)
  unfolding create_lightos_snapshot
  create_lightos_snapshot-Halts project name source =
      search
        (
          Paced-bind, Paced-if, Halts-pure, Ticks-Halts, op_timeout-Halts,
          get_lightos_snapshot-Ticks, request_snapshot-Halts, wait_for_snapshot_available-Halts,
          conclude_snapshot-Halts,
        )
        depth 8

  pub create_snapshot-Halts : (snapshot : Snapshot) → Halts (clock E) (create_snapshot E snapshot)
  unfolding create_snapshot
  create_snapshot-Halts snapshot = create_lightos_snapshot-Halts _ _ _

  pub delete_snapshot-Halts : (snapshot : Snapshot) → Halts (clock E) (delete_snapshot E snapshot)
  unfolding delete_snapshot
  delete_snapshot-Halts snapshot = search (Paced-bind, Halts-pure, delete_lightos_snapshot-Halts)

  pub create_cloned_volume-Halts :
      (volume source : Volume) → Halts (clock E) (create_cloned_volume E volume source)
  unfolding create_cloned_volume
  create_cloned_volume-Halts volume source = search (
    Paced-bind, Halts-try_finally, create_lightos_snapshot-Halts, create_volume_from-Halts,
    delete_lightos_snapshot-Halts,
  )
