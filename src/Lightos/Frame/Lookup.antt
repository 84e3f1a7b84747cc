-- ===== src/Lightos/Frame/Lookup.antt =====
-- A relation between sessions that each step of the client keeps, carried to the lookups and the waits for a state.
use chef_bcpc.Prelude.{ℕ, Option, none, some, inl, inr, Option-cases}
use chef_bcpc.Json.{Json}
use chef_bcpc.Run.{unbound_local_error}
use chef_bcpc.Run.Loop.{Step, again, leave}
use chef_bcpc.Lightos.Session.{Env, Action, Reply}
use chef_bcpc.Lightos.Lookup.{
  Volume, op_timeout, now, sleep_second, get_lightos_volume, get_lightos_snapshot, state_of,
  last_state, available_round, deleted_round, poll, wait_for_volume_available,
  wait_for_snapshot_available, wait_for_snapshot_deleted, wait_for_volume_deleted, get_lightos_uuid,
  get_volume_specs,
}
use chef_bcpc.Run.Keeps.{
  Keeps-pure, Keeps-raise, Keeps-gets, Keeps-modify, Keeps-bind, Keeps-while_until,
}
use chef_bcpc.Lightos.Frame.{Frame, Framed, keeps_rules, Framed-assert}
use mathlib.Core.Path.{refl}
use chef_bcpc.Lightos.Client.Servers.{view}

module _ (E : Env) (F : Frame E) where
  pub op_timeout-Framed : Framed E F (op_timeout E)
  unfolding op_timeout
  op_timeout-Framed = Keeps-gets (view E) F.relation _

  pub now-Framed : Framed E F (now E)
  unfolding now
  now-Framed = Keeps-gets (view E) F.relation _

  pub get_lightos_volume-Framed :
      (project : Json) (timeout : ℕ) (uuid name : Json)
      → Framed E F (get_lightos_volume E project timeout uuid name)
  unfolding get_lightos_volume
  get_lightos_volume-Framed project timeout uuid name = search (keeps_rules, F.sends)

  pub get_lightos_snapshot-Framed :
      (project : Json) (timeout : ℕ) (uuid name : Json)
      → Framed E F (get_lightos_snapshot E project timeout uuid name)
  unfolding get_lightos_snapshot
  get_lightos_snapshot-Framed project timeout uuid name = search (keeps_rules, F.sends)

  pub state_of-Framed : (reply : Reply) → Framed E F (state_of E reply)
  unfolding state_of
  state_of-Framed (status, resp) = search keeps_rules

  pub last_state-Framed : (last : Step (Option Json) Json) → Framed E F (last_state E last)
  last_state-Framed (leave state) = Keeps-pure (view E) F.relation state
  last_state-Framed (again (some state)) = Keeps-pure (view E) F.relation state
  last_state-Framed (again none) = Keeps-raise (view E) F.relation unbound_local_error refl

  pub sleep_second-Framed : Framed E F (sleep_second E)
  unfolding sleep_second
  sleep_second-Framed = Keeps-modify (view E) F.relation _ (λ s. refl)

  pub available_round-Framed :
      (ask : Action E Reply) (u : Option Json)
      → Framed E F ask
      → Framed E F (available_round E ask u)
  unfolding available_round
  available_round-Framed ask u h = search (keeps_rules, state_of-Framed, sleep_second-Framed)

  pub deleted_round-Framed :
      (ask : Action E Reply) (u : Option Json) → Framed E F ask → Framed E F (deleted_round E ask u)
  unfolding deleted_round
  deleted_round-Framed ask u h = search (keeps_rules, state_of-Framed, sleep_second-Framed) depth 7

  pub poll-Framed :
      (timeout : ℕ) (round : Option Json → Action E (Step (Option Json) Json))
      → ((u : Option Json) → Framed E F (round u))
      → Framed E F (poll E timeout round)
  unfolding poll
  poll-Framed timeout round h =
      search (Keeps-bind, now-Framed, Keeps-while_until, last_state-Framed)

  pub wait_for_volume_available-Framed :
      (project : Json) (timeout : ℕ) (uuid name : Json)
      → Framed E F (wait_for_volume_available E project timeout uuid name)
  unfolding wait_for_volume_available
  wait_for_volume_available-Framed project timeout uuid name = search (
    Keeps-bind, Framed-assert, op_timeout-Framed, poll-Framed, available_round-Framed,
    get_lightos_volume-Framed,
  )

  pub wait_for_snapshot_available-Framed :
      (project : Json) (timeout : ℕ) (uuid name : Json)
      → Framed E F (wait_for_snapshot_available E project timeout uuid name)
  unfolding wait_for_snapshot_available
  wait_for_snapshot_available-Framed project timeout uuid name = search (
    Keeps-bind, Framed-assert, op_timeout-Framed, poll-Framed, available_round-Framed,
    get_lightos_snapshot-Framed,
  )

  pub wait_for_volume_deleted-Framed :
      (project : Json) (timeout : ℕ) (uuid : Json)
      → Framed E F (wait_for_volume_deleted E project timeout uuid)
  unfolding wait_for_volume_deleted
  wait_for_volume_deleted-Framed project timeout uuid = search (
    Keeps-bind, Framed-assert, op_timeout-Framed, poll-Framed, deleted_round-Framed,
    get_lightos_volume-Framed,
  )

  pub wait_for_snapshot_deleted-Framed :
      (project : Json) (timeout : ℕ) (uuid : Json)
      → Framed E F (wait_for_snapshot_deleted E project timeout uuid)
  unfolding wait_for_snapshot_deleted
  wait_for_snapshot_deleted-Framed project timeout uuid = search (
    Keeps-bind, Framed-assert, op_timeout-Framed, poll-Framed, deleted_round-Framed,
    get_lightos_snapshot-Framed,
  )

  pub get_lightos_uuid-Framed :
      (project : Json) (volume : Volume) → Framed E F (get_lightos_uuid E project volume)
  unfolding get_lightos_uuid
  get_lightos_uuid-Framed project volume =
      search (keeps_rules, op_timeout-Framed, get_lightos_volume-Framed) depth 7

  pub get_volume_specs-Framed : (volume : Volume) → Framed E F (get_volume_specs E volume)
  unfolding get_volume_specs
  get_volume_specs-Framed volume = elim (Option-cases volume.volume_type) [
    | inl absent ↦ rw absent (Keeps-pure (view E) F.relation _)
    | inr (vt, present) ↦ rw present (search keeps_rules)
  ]
