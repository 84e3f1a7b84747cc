-- ===== src/Lightos/Frame/Driver.antt =====
-- A relation between sessions that each step of the client keeps, carried to all operations of the driver.
use chef_bcpc.Lightos.Session.{Env}
use chef_bcpc.Lightos.Volume.{create_volume, create_volume_from_snapshot}
use chef_bcpc.Lightos.Frame.Volume.{
  create_volume_from-Framed, delete_volume-Framed, extend_volume-Framed,
}
use chef_bcpc.Lightos.Frame.Snapshot.{
  create_snapshot-Framed, delete_snapshot-Framed, create_cloned_volume-Framed,
}
use chef_bcpc.Lightos.Frame.Attach.{initialize_connection-Framed, terminate_connection-Framed}
use chef_bcpc.Lightos.Frame.Setup.{
  do_setup-Framed, get_cluster_stats-Framed, check_for_setup_error-Framed, get_volume_stats-Framed,
}
use chef_bcpc.Lightos.Driver.{Operation, perform}
use chef_bcpc.Run.Keeps.{Keeps-pure, Keeps-bind}
use chef_bcpc.Lightos.Frame.{Frame, Framed}

module _ (E : Env) (F : Frame E) where
  pub perform-Framed : (op : Operation) → Framed E F (perform E op)
  unfolding perform create_volume create_volume_from_snapshot
  perform-Framed Operation.do_setup = do_setup-Framed E F
  perform-Framed Operation.get_cluster_stats =
      search (Keeps-bind, Keeps-pure, get_cluster_stats-Framed)
  perform-Framed (Operation.check_for_setup_error nqn) = check_for_setup_error-Framed E F nqn
  perform-Framed (Operation.get_volume_stats refresh) =
      search (Keeps-bind, Keeps-pure, get_volume_stats-Framed)
  perform-Framed (Operation.create_volume volume) = create_volume_from-Framed E F volume _
  perform-Framed (Operation.delete_volume volume) = delete_volume-Framed E F volume
  perform-Framed (Operation.create_volume_from_snapshot volume id) =
      create_volume_from-Framed E F volume _
  perform-Framed (Operation.create_cloned_volume volume source) =
      create_cloned_volume-Framed E F volume source
  perform-Framed (Operation.extend_volume volume size) = extend_volume-Framed E F volume size
  perform-Framed (Operation.create_snapshot snapshot) = create_snapshot-Framed E F snapshot
  perform-Framed (Operation.delete_snapshot snapshot) = delete_snapshot-Framed E F snapshot
  perform-Framed (Operation.initialize_connection volume connector) =
      search (Keeps-bind, Keeps-pure, initialize_connection-Framed)
  perform-Framed (Operation.terminate_connection volume connector force) =
      terminate_connection-Framed E F volume connector force
