-- ===== src/Brick/Device/Pace.antt =====
-- The search for a device ends, and so do the calls around it.
use chef_bcpc.Prelude.{String, ◌<>◌, Option, none, some, List, [], ◌∷◌, is_some, if◌then◌else◌}
use chef_bcpc.Json.{Json, obj, Fields, end, field}
use chef_bcpc.Run.{pure, catch, ◌>>=◌, ◌>>◌, Done}
use chef_bcpc.Run.Loop.{Step, again}
use chef_bcpc.Run.Pace.{
  Halts, Ticks, Rounds, Paced, cost, Paced-bind, Halts-pure, Paced-raise, Halts-gets,
  Halts-or_raise, Rounds-leave, Ticks-Rounds, Ticks-bind, Rounds-bind, Paced-if, Paced-catch,
}
use chef_bcpc.Run.Pace.Loops.{Halts-while_before}
use chef_bcpc.Dynamic.{item, Halts-item}
use chef_bcpc.Brick.{Host, IsPrompt, Call}
use chef_bcpc.Brick.Dsc.{
  dsc_lines, items_of, dsc_need_connect, write_dsc, dsc_connect_volume, dsc_disconnect_volume,
}
use chef_bcpc.Brick.Device.{
  found, check_device_exists_using_dev_lnk, read_wwid, is_match, first_match,
  check_device_exists_reading_block_class, unless_linked, device_round, get_device_by_uuid,
  read_size, get_size_by_uuid,
}

pub ruleset calls = (
  Paced-bind, Paced-if, Paced-catch, Halts-pure, Paced-raise, Halts-gets, Halts-or_raise,
  Halts-item,
)

module _ (H : Host) (prompt : IsPrompt H) where
  pub check_link-Halts : (uuid : String) → Halts H.clock (check_device_exists_using_dev_lnk H uuid)
  unfolding check_device_exists_using_dev_lnk
  check_link-Halts uuid = search (calls, prompt.exists_halts, prompt.realpath_halts)

  pub read_wwid-Halts : (path : String) → Halts H.clock (read_wwid H path)
  unfolding read_wwid
  read_wwid-Halts path = search (calls, prompt.read_line_halts)

  first_match-Halts :
      (uuid : String) (names : List String) → Halts H.clock (first_match H uuid names)
  unfolding first_match
  first_match-Halts uuid [] = Halts-pure H.clock none
  first_match-Halts uuid (name ∷ names) =
      Paced-bind H.clock _ (read_wwid H ("/sys/class/block/" <> name <> "/wwid")) _
        (read_wwid-Halts _)
        (λ wwid.
          Paced-if H.clock _ (is_match H uuid name wwid) (pure (some ("/dev/" <> name))) _
            (Halts-pure H.clock _) (first_match-Halts uuid names))

  check_class-Halts :
      (uuid : String) → Halts H.clock (check_device_exists_reading_block_class H uuid)
  unfolding check_device_exists_reading_block_class
  check_class-Halts uuid = search (calls, prompt.block_devices_halts, first_match-Halts)

  no_device : Step {0, 0} Done String
  no_device = again tt

  -- A round that found no device slept.
  slept-Rounds : Rounds H.clock (H.sleep 1 >> pure no_device)
  slept-Rounds =
      Ticks-Rounds H.clock _
        (Ticks-bind H.clock (H.sleep 1) _ (prompt.sleep_ticks 1) (λ _. Halts-pure H.clock _))

  found-Rounds :
      (device : Option String)
      → Rounds H.clock
          (if is_some device then pure (found device) else (H.sleep 1 >> pure (again tt)))
  unfolding no_device
  found-Rounds none = slept-Rounds
  found-Rounds (some d) = Rounds-leave H.clock d

  unless_linked-Rounds :
      (uuid : String) (device : Option String) → Rounds H.clock (unless_linked H uuid device)
  unfolding unless_linked
  unless_linked-Rounds uuid (some device) = Rounds-leave H.clock device
  unless_linked-Rounds uuid none =
      Paced-bind H.clock (cost H.clock) (check_device_exists_reading_block_class H uuid) _
        (check_class-Halts uuid) found-Rounds

  pub device_round-Rounds : (uuid : String) (u : Done) → Rounds H.clock (device_round H uuid u)
  unfolding device_round
  device_round-Rounds uuid u =
      Paced-bind H.clock (cost H.clock)
        (catch (check_device_exists_using_dev_lnk H uuid) (λ e. pure none)) _
        (Paced-catch H.clock _ _ _ (check_link-Halts uuid) (λ e. Halts-pure H.clock none))
        (unless_linked-Rounds uuid)

  pub get_device_by_uuid-Halts : (uuid : String) → Halts H.clock (get_device_by_uuid H uuid)
  unfolding get_device_by_uuid
  get_device_by_uuid-Halts uuid = search (calls, Halts-while_before, device_round-Rounds)

  read_size-Halts : (path : String) → Halts H.clock (read_size H path)
  unfolding read_size
  read_size-Halts path = search (calls, prompt.read_halts)

  pub get_size_by_uuid-Halts : (uuid : String) → Halts H.clock (get_size_by_uuid H uuid)
  unfolding get_size_by_uuid
  get_size_by_uuid-Halts uuid = search (calls, get_device_by_uuid-Halts, read_size-Halts)

  items_of-Halts : (v : Json) → Halts H.clock (items_of v)
  unfolding items_of
  items_of-Halts (obj fields) = Halts-pure H.clock fields
  items_of-Halts _ = Paced-raise H.clock _ _

  item-then :
      {A : Type 0} (k : String) (v : Json) (f : Json → Call H A)
      → ((a : Json) → Halts H.clock (f a))
      → Halts H.clock (item k v >>= f)
  item-then k v f h = Paced-bind H.clock _ (item k v) f (Halts-item H.clock k v) h

  dsc_lines-Halts :
      (nodes : Fields) (hostnqn : Option String) (subsysnqn : Json)
      → Halts H.clock (dsc_lines nodes hostnqn subsysnqn)
  unfolding dsc_lines
  dsc_lines-Halts end hostnqn subsysnqn = Halts-pure H.clock ""
  dsc_lines-Halts (field ip node nodes) hostnqn subsysnqn =
      item-then "transport_type" node _ (λ transport. item-then "target_portal" node _ (λ host.
        item-then "target_port" node _ (λ port.
          Paced-bind H.clock _ (dsc_lines nodes hostnqn subsysnqn) _
            (dsc_lines-Halts nodes hostnqn subsysnqn) (λ rest. Halts-pure H.clock _))))

  need_connect-Halts : (info : Json) → Halts H.clock (dsc_need_connect H info)
  unfolding dsc_need_connect
  need_connect-Halts info = search (calls, prompt.is_file_halts)

  write_dsc-Halts : (info : Json) → Halts H.clock (write_dsc H info)
  unfolding write_dsc
  write_dsc-Halts info = item-then "subsysnqn" info _ (λ subsysnqn. item-then "uuid" info _ (λ uuid.
      Paced-bind H.clock _ H.get_host_nqn _ prompt.get_host_nqn_halts (λ hostnqn.
        item-then "lightos_nodes" info _ (λ lightos_nodes.
          Paced-bind H.clock _ (items_of lightos_nodes) _ (items_of-Halts lightos_nodes) (λ nodes.
            Paced-bind H.clock _ (dsc_lines nodes hostnqn subsysnqn) _
              (dsc_lines-Halts nodes hostnqn subsysnqn)
              (λ lines. prompt.move_dsc_file_halts _ _))))))

  pub dsc_connect_volume-Halts : (info : Json) → Halts H.clock (dsc_connect_volume H info)
  unfolding dsc_connect_volume
  dsc_connect_volume-Halts info = search (calls, need_connect-Halts, write_dsc-Halts)

  pub dsc_disconnect_volume-Halts : (info : Json) → Halts H.clock (dsc_disconnect_volume H info)
  unfolding dsc_disconnect_volume
  dsc_disconnect_volume-Halts info = search (calls, prompt.delete_dsc_file_halts)
