-- ===== src/Lightos/Lookup/Pace.antt =====
-- The requests and the polling loops end.
use chef_bcpc.Prelude.{ℕ, Option, none, some, arith, inl, inr, Option-cases}
use chef_bcpc.Json.{Json}
use chef_bcpc.Run.{modify, unbound_local_error}
use chef_bcpc.Run.Loop.{Step, again, leave}
use chef_bcpc.Run.Pace.{
  Halts, Ticks, Rounds, Ticks-Halts, Halts-pure, Paced-raise, Halts-gets, Halts-or_raise,
  Paced-bind, Ticks-bind, Rounds-bind, Paced-if,
}
use chef_bcpc.Run.Pace.Loops.{Halts-while_until}
use chef_bcpc.Dynamic.{
  Halts-item, Halts-get, Halts-as_list, Halts-iterate, Halts-is_in, Halts-assert,
}
use chef_bcpc.Lightos.Session.{Env, IsTimed, Action, Reply, clock}
use chef_bcpc.Lightos.Client.Pace.{send_cmd-Ticks}
use chef_bcpc.Lightos.Lookup.{
  Volume, op_timeout, now, sleep_second, get_lightos_volume, get_lightos_snapshot, state_of,
  last_state, available_round, deleted_round, poll, wait_for_volume_available,
  wait_for_snapshot_available, wait_for_snapshot_deleted, wait_for_volume_deleted, get_lightos_uuid,
  get_volume_specs,
}

pub ruleset pace_rules = (
  Paced-bind, Paced-if, Halts-pure, Paced-raise, Halts-gets, Halts-or_raise, Halts-item, Halts-get,
  Halts-as_list, Halts-iterate, Halts-is_in, Halts-assert,
)

pub ruleset tick_rules = (Ticks-bind, pace_rules)

module _ (E : Env) (timed : IsTimed E) where
  pub op_timeout-Halts : Halts (clock E) (op_timeout E)
  unfolding op_timeout
  op_timeout-Halts = Halts-gets (clock E) _

  pub now-Halts : Halts (clock E) (now E)
  unfolding now
  now-Halts = Halts-gets (clock E) _

  pub get_lightos_volume-Ticks :
      (project : Json) (timeout : ℕ) (uuid name : Json)
      → Ticks (clock E) (get_lightos_volume E project timeout uuid name)
  unfolding get_lightos_volume
  get_lightos_volume-Ticks project timeout uuid name = search (tick_rules, send_cmd-Ticks)

  pub get_lightos_snapshot-Ticks :
      (project : Json) (timeout : ℕ) (uuid name : Json)
      → Ticks (clock E) (get_lightos_snapshot E project timeout uuid name)
  unfolding get_lightos_snapshot
  get_lightos_snapshot-Ticks project timeout uuid name = search (tick_rules, send_cmd-Ticks)

  pub state_of-Halts : (reply : Reply) → Halts (clock E) (state_of E reply)
  unfolding state_of
  state_of-Halts (status, resp) = search pace_rules

  pub last_state-Halts : (last : Step (Option Json) Json) → Halts (clock E) (last_state E last)
  last_state-Halts (leave state) = Halts-pure (clock E) state
  last_state-Halts (again (some state)) = Halts-pure (clock E) state
  last_state-Halts (again none) = Paced-raise (clock E) _ unbound_local_error

  pub sleep_second-Ticks : Ticks (clock E) (sleep_second E)
  unfolding sleep_second modify
  sleep_second-Ticks = record {
    at = λ s. omega (arith, timed.sleep_takes 1 s.world, timed.second_pos);
  }

  pub sleep_second-Halts : Halts (clock E) (sleep_second E)
  sleep_second-Halts = Ticks-Halts (clock E) _ sleep_second-Ticks

  pub available_round-Rounds :
      (ask : Action E Reply) (u : Option Json)
      → Ticks (clock E) ask
      → Rounds (clock E) (available_round E ask u)
  unfolding available_round
  available_round-Rounds ask u h =
      search (Rounds-bind, pace_rules, state_of-Halts, sleep_second-Halts)

  pub deleted_round-Rounds :
      (ask : Action E Reply) (u : Option Json)
      → Ticks (clock E) ask
      → Rounds (clock E) (deleted_round E ask u)
  unfolding deleted_round
  deleted_round-Rounds ask u h =
      search (Rounds-bind, pace_rules, state_of-Halts, sleep_second-Halts) depth 7

  pub poll-Halts :
      (timeout : ℕ) (round : Option Json → Action E (Step (Option Json) Json))
      → ((u : Option Json) → Rounds (clock E) (round u))
      → Halts (clock E) (poll E timeout round)
  unfolding poll
  poll-Halts timeout round h = search (Paced-bind, now-Halts, Halts-while_until, last_state-Halts)

  pub wait_for_volume_available-Halts :
      (project : Json) (timeout : ℕ) (uuid name : Json)
      → Halts (clock E) (wait_for_volume_available E project timeout uuid name)
  unfolding wait_for_volume_available
  wait_for_volume_available-Halts project timeout uuid name = search (
    Paced-bind, Halts-assert, op_timeout-Halts, poll-Halts, available_round-Rounds,
    get_lightos_volume-Ticks,
  )

  pub wait_for_snapshot_available-Halts :
      (project : Json) (timeout : ℕ) (uuid name : Json)
      → Halts (clock E) (wait_for_snapshot_available E project timeout uuid name)
  unfolding wait_for_snapshot_available
  wait_for_snapshot_available-Halts project timeout uuid name = search (
    Paced-bind, Halts-assert, op_timeout-Halts, poll-Halts, available_round-Rounds,
    get_lightos_snapshot-Ticks,
  )

  pub wait_for_volume_deleted-Halts :
      (project : Json) (timeout : ℕ) (uuid : Json)
      → Halts (clock E) (wait_for_volume_deleted E project timeout uuid)
  unfolding wait_for_volume_deleted
  wait_for_volume_deleted-Halts project timeout uuid = search (
    Paced-bind, Halts-assert, op_timeout-Halts, poll-Halts, deleted_round-Rounds,
    get_lightos_volume-Ticks,
  )

  pub wait_for_snapshot_deleted-Halts :
      (project : Json) (timeout : ℕ) (uuid : Json)
      → Halts (clock E) (wait_for_snapshot_deleted E project timeout uuid)
  unfolding wait_for_snapshot_deleted
  wait_for_snapshot_deleted-Halts project timeout uuid = search (
    Paced-bind, Halts-assert, op_timeout-Halts, poll-Halts, deleted_round-Rounds,
    get_lightos_snapshot-Ticks,
  )

  pub get_lightos_uuid-Ticks :
      (project : Json) (volume : Volume) → Ticks (clock E) (get_lightos_uuid E project volume)
  unfolding get_lightos_uuid
  get_lightos_uuid-Ticks project volume =
      search (tick_rules, op_timeout-Halts, get_lightos_volume-Ticks) depth 7

  pub get_volume_specs-Halts : (volume : Volume) → Halts (clock E) (get_volume_specs E volume)
  unfolding get_volume_specs
  get_volume_specs-Halts volume = elim (Option-cases volume.volume_type) [
    | inl absent ↦ rw absent (Halts-pure (clock E) _)
    | inr (vt, present) ↦ rw present (search pace_rules)
  ]
