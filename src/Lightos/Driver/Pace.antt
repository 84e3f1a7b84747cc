-- ===== src/Lightos/Driver/Pace.antt =====
-- Termination of the driver: the statement for every operation, out of the rules of `Run.Pace`.
use chef_bcpc.Prelude.{◌≤◌, ◌≢◌, arith}
use chef_bcpc.Run.{Outcome, ok, raised, diverged, Done}
use chef_bcpc.Run.Pace.{Halts, Ended, Halts-pure, Paced-bind}
use chef_bcpc.Lightos.Session.{Env, IsTimed, Session, clock}
use chef_bcpc.Lightos.Volume.{create_volume, create_volume_from_snapshot}
use chef_bcpc.Lightos.Volume.Pace.{
  create_volume_from-Halts, delete_volume-Halts, extend_volume-Halts,
}
use chef_bcpc.Lightos.Snapshot.Pace.{
  create_snapshot-Halts, delete_snapshot-Halts, create_cloned_volume-Halts,
}
use chef_bcpc.Lightos.Attach.Pace.{initialize_connection-Halts, terminate_connection-Halts}
use chef_bcpc.Lightos.Setup.Pace.{
  do_setup-Halts, get_cluster_stats-Halts, check_for_setup_error-Halts, get_volume_stats-Halts,
}
use chef_bcpc.Lightos.Driver.{Operation, perform}

module _ (E : Env) (timed : IsTimed E) where
  perform-Halts : (op : Operation) → Halts (clock E) (perform E op)
  unfolding perform create_volume create_volume_from_snapshot
  perform-Halts Operation.do_setup = do_setup-Halts E timed
  perform-Halts Operation.get_cluster_stats =
      search (Paced-bind, Halts-pure, get_cluster_stats-Halts)
  perform-Halts (Operation.check_for_setup_error nqn) = check_for_setup_error-Halts E timed nqn
  perform-Halts (Operation.get_volume_stats refresh) =
      search (Paced-bind, Halts-pure, get_volume_stats-Halts)
  perform-Halts (Operation.create_volume volume) = create_volume_from-Halts E timed volume _
  perform-Halts (Operation.delete_volume volume) = delete_volume-Halts E timed volume
  perform-Halts (Operation.create_volume_from_snapshot volume id) =
      create_volume_from-Halts E timed volume _
  perform-Halts (Operation.create_cloned_volume volume source) =
      create_cloned_volume-Halts E timed volume source
  perform-Halts (Operation.extend_volume volume size) = extend_volume-Halts E timed volume size
  perform-Halts (Operation.create_snapshot snapshot) = create_snapshot-Halts E timed snapshot
  perform-Halts (Operation.delete_snapshot snapshot) = delete_snapshot-Halts E timed snapshot
  perform-Halts (Operation.initialize_connection volume connector) =
      search (Paced-bind, Halts-pure, initialize_connection-Halts)
  perform-Halts (Operation.terminate_connection volume connector force) =
      terminate_connection-Halts E timed volume connector force

  Ended-cases :
      (s : Session E) (r : Outcome Done × Session E)
      → Ended (clock E) (λ _. 0) (clock E s) r
      → (r.0 ≢ diverged) × (clock E s ≤ clock E (r.1))
  Ended-cases s (ok u, t) e = ground arith
  Ended-cases s (raised x, t) e = ground arith
  Ended-cases s (diverged, t) e = absurd e

  -- Where a request and a sleep take time, every operation of the driver returns or raises, in
  -- whatever state it starts and whatever the API servers answer, and the clock does not go back.
  pub perform_ends :
      (op : Operation) (s : Session E)
      → ((perform E op s).0 ≢ diverged) × (clock E s ≤ clock E ((perform E op s).1))
  perform_ends op s = Ended-cases s (perform E op s) ((perform-Halts op).at s)
