-- ===== src/Lightos/Driver.antt =====
-- The operations that Cinder calls on a `LightOSVolumeDriver`, as one type, for what holds of all.
pub mod Pace
pub mod Requests
use chef_bcpc.Prelude.{ℕ, String, Bool, Option}
use chef_bcpc.Json.{Json}
use chef_bcpc.Run.{Done, pure, ◌>>=◌, ◌>>◌}
use chef_bcpc.Lightos.Session.{Env, Action}
use chef_bcpc.Lightos.Lookup.{Volume}
use chef_bcpc.Lightos.Volume as Volumes
use chef_bcpc.Lightos.Snapshot as Snapshots
use chef_bcpc.Lightos.Snapshot.{Snapshot}
use chef_bcpc.Lightos.Attach
use chef_bcpc.Lightos.Attach.{Connector}
use chef_bcpc.Lightos.Setup

pub data Operation : Type 0 where
  do_setup get_cluster_stats : Operation
  check_for_setup_error : Json → Operation
  get_volume_stats : Bool → Operation
  create_volume delete_volume : Volume → Operation
  create_volume_from_snapshot : Volume → String → Operation
  create_cloned_volume : Volume → Volume → Operation
  extend_volume : Volume → ℕ → Operation
  create_snapshot delete_snapshot : Snapshot → Operation
  initialize_connection : Volume → Connector → Operation
  terminate_connection : Volume → Option Connector → Bool → Operation

module _ (E : Env) where
  -- A call of the operation, its result left out.
  unfoldable pub perform : Operation → Action E Done
  perform Operation.do_setup = Setup.do_setup E
  perform Operation.get_cluster_stats = Setup.get_cluster_stats E >> pure tt
  perform (Operation.check_for_setup_error nqn) = Setup.check_for_setup_error E nqn
  perform (Operation.get_volume_stats refresh) = Setup.get_volume_stats E refresh >> pure tt
  perform (Operation.create_volume volume) = Volumes.create_volume E volume
  perform (Operation.delete_volume volume) = Volumes.delete_volume E volume
  perform (Operation.create_volume_from_snapshot volume id) =
      Volumes.create_volume_from_snapshot E volume id
  perform (Operation.create_cloned_volume volume source) =
      Snapshots.create_cloned_volume E volume source
  perform (Operation.extend_volume volume size) = Volumes.extend_volume E volume size
  perform (Operation.create_snapshot snapshot) = Snapshots.create_snapshot E snapshot
  perform (Operation.delete_snapshot snapshot) = Snapshots.delete_snapshot E snapshot
  perform (Operation.initialize_connection volume connector) =
      Attach.initialize_connection E volume connector >> pure tt
  perform (Operation.terminate_connection volume connector force) =
      Attach.terminate_connection E volume connector force
