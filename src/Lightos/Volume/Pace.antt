-- ===== src/Lightos/Volume/Pace.antt =====
-- Creating, deleting and extending a volume end.
use chef_bcpc.Prelude.{ℕ, Option, none, some, String}
use chef_bcpc.Json.{Json}
use chef_bcpc.Run.{Done, Error, unbound_local_error}
use chef_bcpc.Run.Loop.{Step, again, leave}
use chef_bcpc.Run.Pace.{
  Halts, Ticks, Rounds, Ticks-Halts, Halts-pure, Paced-raise, Rounds-bind, Paced-catch, Paced-bind,
  Paced-if,
}
use chef_bcpc.Run.Pace.Loops.{Halts-while_before}
use chef_bcpc.Lightos.Session.{Env, IsTimed, Reply, clock}
use chef_bcpc.Lightos.Client.Pace.{send_cmd-Ticks}
use chef_bcpc.Lightos.Lookup.{Volume}
use chef_bcpc.Lightos.Lookup.Pace.{
  pace_rules, tick_rules, op_timeout-Halts, now-Halts, get_lightos_volume-Ticks, sleep_second-Ticks,
  sleep_second-Halts, wait_for_volume_available-Halts, wait_for_volume_deleted-Halts,
  get_lightos_uuid-Ticks, get_volume_specs-Halts,
}
use chef_bcpc.Lightos.Volume.{
  create_new_lightos_volume, delete_round, delete_result, delete_lightos_volume, finish_create,
  create_volume_from, delete_found, delete_volume, try_extend, extend_failed, extend_round,
  extend_volume, uuid_or_none, conclude_create, request_extension,
}

module _ (E : Env) (timed : IsTimed E) where
  create_new-Ticks :
      (volume : Volume) (project : Json) (name : String) (snapshot : Json)
      → Ticks (clock E) (create_new_lightos_volume E volume project name snapshot)
  unfolding create_new_lightos_volume
  create_new-Ticks volume project name snapshot =
      search (Paced-bind, get_volume_specs-Halts, op_timeout-Halts, send_cmd-Ticks)

  delete_round-Rounds :
      (project uuid : Json) (u : Option Done) → Rounds (clock E) (delete_round E project uuid u)
  unfolding delete_round
  delete_round-Rounds project uuid u =
      search (Rounds-bind, pace_rules, op_timeout-Halts, send_cmd-Ticks, sleep_second-Halts)

  delete_result-Halts :
      (project uuid : Json) (last : Step (Option Done) Done)
      → Halts (clock E) (delete_result E project uuid last)
  unfolding delete_result
  delete_result-Halts project uuid (leave u) =
      search (Paced-bind, op_timeout-Halts, wait_for_volume_deleted-Halts, Halts-pure)
  delete_result-Halts project uuid (again (some u)) = Halts-pure (clock E) _
  delete_result-Halts project uuid (again none) = Paced-raise (clock E) _ unbound_local_error

  pub delete_lightos_volume-Halts :
      (project uuid : Json) → Halts (clock E) (delete_lightos_volume E project uuid)
  unfolding delete_lightos_volume
  delete_lightos_volume-Halts project uuid = search (
    Paced-bind, now-Halts, op_timeout-Halts, Halts-while_before, delete_round-Rounds,
    delete_result-Halts,
  )

  conclude_create-Halts :
      (project uuid state : Json) → Halts (clock E) (conclude_create E project uuid state)
  unfolding conclude_create
  conclude_create-Halts project uuid state =
      search (pace_rules, delete_lightos_volume-Halts) depth 7

  finish_create-Halts :
      (project : Json) (reply : Reply) → Halts (clock E) (finish_create E project reply)
  unfolding finish_create
  finish_create-Halts project (status, resp) =
      search (pace_rules, op_timeout-Halts, wait_for_volume_available-Halts, conclude_create-Halts)
        depth 8

  create_new-Halts :
      (volume : Volume) (project : Json) (name : String) (snapshot : Json)
      → Halts (clock E) (create_new_lightos_volume E volume project name snapshot)
  create_new-Halts volume project name snapshot =
      Ticks-Halts (clock E) _ (create_new-Ticks volume project name snapshot)

  pub create_volume_from-Halts :
      (volume : Volume) (snapshot : Json) → Halts (clock E) (create_volume_from E volume snapshot)
  unfolding create_volume_from
  create_volume_from-Halts volume snapshot = search (
    Paced-bind, Paced-if, op_timeout-Halts, Ticks-Halts, get_lightos_volume-Ticks,
    finish_create-Halts, create_new-Halts,
  )

  uuid_or_none-Halts : (volume : Volume) → Halts (clock E) (uuid_or_none E volume)
  unfolding uuid_or_none
  uuid_or_none-Halts volume = search (
    Paced-catch, Paced-bind, Paced-if, Ticks-Halts, get_lightos_uuid-Ticks, Halts-pure, Paced-raise,
  )

  delete_found-Halts :
      (project : Json) (uuid : Option Json) → Halts (clock E) (delete_found E project uuid)
  delete_found-Halts project none = Halts-pure (clock E) tt
  delete_found-Halts project (some uuid) = search (pace_rules, delete_lightos_volume-Halts)

  pub delete_volume-Halts : (volume : Volume) → Halts (clock E) (delete_volume E volume)
  unfolding delete_volume
  delete_volume-Halts volume = search (Paced-bind, uuid_or_none-Halts, delete_found-Halts)

  request_extension-Halts :
      (project : Json) (size : ℕ) (uuid etag : Json)
      → Halts (clock E) (request_extension E project size uuid etag)
  unfolding request_extension
  request_extension-Halts project size uuid etag =
      search (Paced-catch, pace_rules, op_timeout-Halts, Ticks-Halts, send_cmd-Ticks) depth 7

  try_extend-Ticks : (volume : Volume) (size : ℕ) → Ticks (clock E) (try_extend E volume size)
  unfolding try_extend
  try_extend-Ticks volume size =
      search (tick_rules, op_timeout-Halts, get_lightos_volume-Ticks, request_extension-Halts) depth
        8

  extend_failed-Rounds : (stop : ℕ) (e : Error) → Rounds (clock E) (extend_failed E stop e)
  unfolding extend_failed
  extend_failed-Rounds stop e =
      search
        (Paced-if, Paced-raise, Paced-bind, now-Halts, Rounds-bind, sleep_second-Ticks, Halts-pure)
        depth 8

  extend_round-Rounds :
      (volume : Volume) (size stop : ℕ) (u : Done)
      → Rounds (clock E) (extend_round E volume size stop u)
  unfolding extend_round
  extend_round-Rounds volume size stop u =
      search (Paced-catch, Rounds-bind, try_extend-Ticks, Halts-pure, extend_failed-Rounds)

  pub extend_volume-Halts :
      (volume : Volume) (size : ℕ) → Halts (clock E) (extend_volume E volume size)
  unfolding extend_volume
  extend_volume-Halts volume size =
      search (
        Paced-bind, now-Halts, op_timeout-Halts, Halts-while_before, extend_round-Rounds,
        Halts-pure,
      )
