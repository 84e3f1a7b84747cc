-- ===== src/Lightos/Frame/Snapshot.antt =====
-- A relation between sessions that each step of the client keeps, carried to snapshots and clones.
use chef_bcpc.Prelude.{ℕ, Option, none, some}
use chef_bcpc.Json.{Json}
use chef_bcpc.Run.{Error, unbound_local_error}
use chef_bcpc.Run.Loop.{Step, again, leave}
use chef_bcpc.Lightos.Session.{Env, Reply}
use chef_bcpc.Lightos.Lookup.{Volume}
use chef_bcpc.Lightos.Frame.Lookup.{
  op_timeout-Framed, now-Framed, get_lightos_snapshot-Framed, sleep_second-Framed,
  wait_for_snapshot_available-Framed, wait_for_snapshot_deleted-Framed,
}
use chef_bcpc.Lightos.Frame.Volume.{create_volume_from-Framed}
use chef_bcpc.Lightos.Snapshot.{
  Snapshot, raise_unless_missing, snapshot_uuid_of, get_lightos_snapshot_uuid,
  delete_known_snapshot, delete_lightos_snapshot, create_snapshot_round, require_ok, created,
  request_snapshot, ignore_cinder_exception, conclude_snapshot, create_lightos_snapshot,
  create_snapshot, delete_snapshot, create_cloned_volume,
}
use chef_bcpc.Run.Keeps.{
  Keeps-pure, Keeps-raise, Keeps-bind, Keeps-if, Keeps-catch, Keeps-try_finally, Keeps-while_before,
  is_index_error,
}
use chef_bcpc.Lightos.Frame.{Frame, Framed, keeps_rules}
use mathlib.Core.Path.{refl, ◌≡◌}
use chef_bcpc.Lightos.Client.Servers.{view}
use mathlib.Core.Bool.{false}

module _ (E : Env) (F : Frame E) where
  raise_unless_missing-Framed : (status : ℕ) → Framed E F (raise_unless_missing E status)
  unfolding raise_unless_missing
  raise_unless_missing-Framed status = search keeps_rules

  snapshot_uuid_of-Framed : (reply : Reply) → Framed E F (snapshot_uuid_of E reply)
  unfolding snapshot_uuid_of
  snapshot_uuid_of-Framed (status, answer) = search (keeps_rules, raise_unless_missing-Framed)

  get_lightos_snapshot_uuid-Framed :
      (project name : Json) → Framed E F (get_lightos_snapshot_uuid E project name)
  unfolding get_lightos_snapshot_uuid
  get_lightos_snapshot_uuid-Framed project name =
      search (Keeps-bind, op_timeout-Framed, get_lightos_snapshot-Framed, snapshot_uuid_of-Framed)

  delete_known_snapshot-Framed :
      (project : Json) (uuid : Option Json) → Framed E F (delete_known_snapshot E project uuid)
  unfolding delete_known_snapshot
  delete_known_snapshot-Framed project none = Keeps-pure (view E) F.relation _
  delete_known_snapshot-Framed project (some uuid) =
      search (keeps_rules, op_timeout-Framed, F.sends, wait_for_snapshot_deleted-Framed) depth 8

  pub delete_lightos_snapshot-Framed :
      (project name : Json) → Framed E F (delete_lightos_snapshot E project name)
  unfolding delete_lightos_snapshot
  delete_lightos_snapshot-Framed project name =
      search (Keeps-bind, get_lightos_snapshot_uuid-Framed, delete_known_snapshot-Framed)

  create_snapshot_round-Framed :
      (project name source : Json) (u : Option ℕ)
      → Framed E F (create_snapshot_round E project name source u)
  unfolding create_snapshot_round
  create_snapshot_round-Framed project name source u =
      search (keeps_rules, op_timeout-Framed, F.sends, sleep_second-Framed)

  require_ok-Framed : (status : ℕ) → Framed E F (require_ok E status)
  require_ok-Framed status = search (Keeps-if, Keeps-pure, Keeps-raise)

  created-Framed : (last : Step (Option ℕ) ℕ) → Framed E F (created E last)
  created-Framed (leave status) = require_ok-Framed status
  created-Framed (again (some status)) = require_ok-Framed status
  created-Framed (again none) = Keeps-raise (view E) F.relation unbound_local_error refl

  request_snapshot-Framed :
      (project name source : Json) → Framed E F (request_snapshot E project name source)
  unfolding request_snapshot
  request_snapshot-Framed project name source = search (
    Keeps-bind, now-Framed, op_timeout-Framed, Keeps-while_before, create_snapshot_round-Framed,
    created-Framed,
  )

  ignore_cinder_exception-Framed :
      (e : Error) → is_index_error e ≡ false → Framed E F (ignore_cinder_exception E e)
  ignore_cinder_exception-Framed e h = search (Keeps-if, Keeps-pure, Keeps-raise)

  conclude_snapshot-Framed :
      (project name state : Json) → Framed E F (conclude_snapshot E project name state)
  unfolding conclude_snapshot
  conclude_snapshot-Framed project name state =
      search
        (keeps_rules, Keeps-catch, delete_lightos_snapshot-Framed, ignore_cinder_exception-Framed)

  pub create_lightos_snapshot-Framed :
      (project name source : Json) → Framed E F (create_lightos_snapshot E project name source)
  unfolding create_lightos_snapshot
  create_lightos_snapshot-Framed project name source =
      search
        (
          Keeps-bind, Keeps-if, Keeps-pure, op_timeout-Framed, get_lightos_snapshot-Framed,
          request_snapshot-Framed, wait_for_snapshot_available-Framed, conclude_snapshot-Framed,
        )
        depth 8

  pub create_snapshot-Framed : (snapshot : Snapshot) → Framed E F (create_snapshot E snapshot)
  unfolding create_snapshot
  create_snapshot-Framed snapshot = create_lightos_snapshot-Framed _ _ _

  pub delete_snapshot-Framed : (snapshot : Snapshot) → Framed E F (delete_snapshot E snapshot)
  unfolding delete_snapshot
  delete_snapshot-Framed snapshot = search (Keeps-bind, Keeps-pure, delete_lightos_snapshot-Framed)

  pub create_cloned_volume-Framed :
      (volume source : Volume) → Framed E F (create_cloned_volume E volume source)
  unfolding create_cloned_volume
  create_cloned_volume-Framed volume source = search (
    Keeps-bind, Keeps-try_finally, create_lightos_snapshot-Framed, create_volume_from-Framed,
    delete_lightos_snapshot-Framed,
  )
