-- ===== src/Lightos/Frame/Volume.antt =====
-- A relation between sessions that each step of the client keeps, carried to creating, deleting and extending volumes.
use chef_bcpc.Prelude.{ℕ, Option, none, some, String}
use chef_bcpc.Json.{Json}
use chef_bcpc.Run.{Done, Error, unbound_local_error}
use chef_bcpc.Run.Loop.{Step, again, leave}
use chef_bcpc.Lightos.Session.{Env, Reply}
use chef_bcpc.Lightos.Lookup.{Volume}
use chef_bcpc.Lightos.Frame.Lookup.{
  op_timeout-Framed, now-Framed, get_lightos_volume-Framed, sleep_second-Framed,
  sleep_second-Framed, wait_for_volume_available-Framed, wait_for_volume_deleted-Framed,
  get_lightos_uuid-Framed, get_volume_specs-Framed,
}
use chef_bcpc.Lightos.Volume.{
  create_new_lightos_volume, delete_round, delete_result, delete_lightos_volume, finish_create,
  create_volume_from, delete_found, delete_volume, try_extend, extend_failed, extend_round,
  extend_volume, uuid_or_none, conclude_create, request_extension,
}
use chef_bcpc.Run.Keeps.{
  Keeps-pure, Keeps-raise, Keeps-bind, Keeps-if, Keeps-catch, Keeps-while_before, is_index_error,
}
use chef_bcpc.Lightos.Frame.{Frame, Framed, keeps_rules}
use mathlib.Core.Path.{refl, ◌≡◌}
use chef_bcpc.Lightos.Client.Servers.{view}
use mathlib.Core.Bool.{false}

module _ (E : Env) (F : Frame E) where
  create_new-Framed :
      (volume : Volume) (project : Json) (name : String) (snapshot : Json)
      → Framed E F (create_new_lightos_volume E volume project name snapshot)
  unfolding create_new_lightos_volume
  create_new-Framed volume project name snapshot =
      search (Keeps-bind, get_volume_specs-Framed, op_timeout-Framed, F.sends)

  delete_round-Framed :
      (project uuid : Json) (u : Option Done) → Framed E F (delete_round E project uuid u)
  unfolding delete_round
  delete_round-Framed project uuid u =
      search (keeps_rules, op_timeout-Framed, F.sends, sleep_second-Framed)

  delete_result-Framed :
      (project uuid : Json) (last : Step (Option Done) Done)
      → Framed E F (delete_result E project uuid last)
  unfolding delete_result
  delete_result-Framed project uuid (leave u) =
      search (Keeps-bind, op_timeout-Framed, wait_for_volume_deleted-Framed, Keeps-pure)
  delete_result-Framed project uuid (again (some u)) = Keeps-pure (view E) F.relation _
  delete_result-Framed project uuid (again none) =
      Keeps-raise (view E) F.relation unbound_local_error refl

  pub delete_lightos_volume-Framed :
      (project uuid : Json) → Framed E F (delete_lightos_volume E project uuid)
  unfolding delete_lightos_volume
  delete_lightos_volume-Framed project uuid = search (
    Keeps-bind, now-Framed, op_timeout-Framed, Keeps-while_before, delete_round-Framed,
    delete_result-Framed,
  )

  conclude_create-Framed :
      (project uuid state : Json) → Framed E F (conclude_create E project uuid state)
  unfolding conclude_create
  conclude_create-Framed project uuid state =
      search (keeps_rules, delete_lightos_volume-Framed) depth 7

  finish_create-Framed :
      (project : Json) (reply : Reply) → Framed E F (finish_create E project reply)
  unfolding finish_create
  finish_create-Framed project (status, resp) =
      search
        (keeps_rules, op_timeout-Framed, wait_for_volume_available-Framed, conclude_create-Framed)
        depth 8

  pub create_volume_from-Framed :
      (volume : Volume) (snapshot : Json) → Framed E F (create_volume_from E volume snapshot)
  unfolding create_volume_from
  create_volume_from-Framed volume snapshot = search (
    Keeps-bind, Keeps-if, op_timeout-Framed, get_lightos_volume-Framed, finish_create-Framed,
    create_new-Framed,
  )

  uuid_or_none-Framed : (volume : Volume) → Framed E F (uuid_or_none E volume)
  unfolding uuid_or_none
  uuid_or_none-Framed volume =
      search (Keeps-catch, Keeps-bind, Keeps-if, get_lightos_uuid-Framed, Keeps-pure, Keeps-raise)

  delete_found-Framed :
      (project : Json) (uuid : Option Json) → Framed E F (delete_found E project uuid)
  delete_found-Framed project none = Keeps-pure (view E) F.relation tt
  delete_found-Framed project (some uuid) = search (keeps_rules, delete_lightos_volume-Framed)

  pub delete_volume-Framed : (volume : Volume) → Framed E F (delete_volume E volume)
  unfolding delete_volume
  delete_volume-Framed volume = search (Keeps-bind, uuid_or_none-Framed, delete_found-Framed)

  request_extension-Framed :
      (project : Json) (size : ℕ) (uuid etag : Json)
      → Framed E F (request_extension E project size uuid etag)
  unfolding request_extension
  request_extension-Framed project size uuid etag =
      search (Keeps-catch, keeps_rules, op_timeout-Framed, F.sends) depth 7

  try_extend-Framed : (volume : Volume) (size : ℕ) → Framed E F (try_extend E volume size)
  unfolding try_extend
  try_extend-Framed volume size =
      search (keeps_rules, op_timeout-Framed, get_lightos_volume-Framed, request_extension-Framed)
        depth 8

  extend_failed-Framed :
      (stop : ℕ) (e : Error) → is_index_error e ≡ false → Framed E F (extend_failed E stop e)
  unfolding extend_failed
  extend_failed-Framed stop e h =
      search
        (Keeps-if, Keeps-raise, Keeps-bind, now-Framed, Keeps-bind, sleep_second-Framed, Keeps-pure)
        depth 8

  extend_round-Framed :
      (volume : Volume) (size stop : ℕ) (u : Done) → Framed E F (extend_round E volume size stop u)
  unfolding extend_round
  extend_round-Framed volume size stop u =
      search (Keeps-catch, Keeps-bind, try_extend-Framed, Keeps-pure, extend_failed-Framed)

  pub extend_volume-Framed : (volume : Volume) (size : ℕ) → Framed E F (extend_volume E volume size)
  unfolding extend_volume
  extend_volume-Framed volume size = search (
    Keeps-bind, now-Framed, op_timeout-Framed, Keeps-while_before, extend_round-Framed, Keeps-pure,
  )
