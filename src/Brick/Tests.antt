-- ===== src/Brick/Tests.antt =====
-- A connector on a host where the link of every device is there from tick 5 on.
use chef_bcpc.Prelude.{
  ℕ, ◌+◌, ◌≤◌, ◌≡◌, ◌≢◌, refl, ap, leb, String, Bool, true, false, Option, none, some, List, [],
  ◌∷◌, ◌++◌, arith, Bool-cases, inl, inr,
}
use chef_bcpc.Json.{Json, null, str, num, obj, Fields, end, field}
use chef_bcpc.Run.{Outcome, ok, raised, diverged, Done, Exec}
use chef_bcpc.Run.Pace.{Halts}
use chef_bcpc.Run.Returns.{Gave}
use chef_bcpc.Dict.{Dict, IsDict, find}
use chef_bcpc.Brick.{Host, IsPrompt, Addresses}
use chef_bcpc.Brick.Device.{device_round, get_device_by_uuid}
use chef_bcpc.Brick.Device.Appears.{IsLinked, IsQuick, get_device_by_uuid-some}
use chef_bcpc.Brick.Volumes.{
  Message, add, delete, Connector, connect_volume, disconnect_volume, extend_volume,
}
use chef_bcpc.Brick.Volumes.Booked.{Booked, connect_volume-Booked}
use chef_bcpc.Brick.Volumes.Pace.{time, connector_ends}
use chef_bcpc.Brick.Monitor.{monitor_message_queue}
use chef_bcpc.Brick.Monitor.Kept.{key, told_all, monitor_message_queue-Told}
use chef_bcpc.Brick.Monitor.Connected.{connect_volume-find}

abbrev give : {A : Type 0} → A → Exec ℕ A
give a w = (ok a, w)

-- The world is the time.
abbrev pub host : Host
host = record {
  World = ℕ;
  clock = λ w. w;
  second = 1;
  sleep = λ n w. (ok tt, w + 1);
  get_host_nqn = give (some "nqn.host");
  head_metrics = give 200;
  is_file = λ path. give false;
  exists = λ path w. (ok (leb 5 w), w);
  realpath = λ path. give "/dev/nvme0n1";
  block_devices = give [];
  read_line = λ path. give "";
  read = λ path. give "2048\n";
  move_dsc_file = λ content name. give tt;
  delete_dsc_file = λ name. give tt;
  flush_device_io = λ path. give tt;
  is_ipv6_enabled = give false;
  interfaces = give [];
  ifaddresses = λ name. give (record { inet = []; inet6 = [] });
  is_valid_ipv4 = λ ip. true;
  is_valid_ipv6 = λ ip. false;
}

gives : {A : Type 0} (f : ℕ → A) → Halts (λ w. w) (λ w. (ok (f w), w))
gives f = record { at = λ w. omega arith }

host-IsPrompt : IsPrompt host
host-IsPrompt = record {
  sleep_ticks = λ n. record { at = λ w. omega arith };
  get_host_nqn_halts = gives _;
  head_metrics_halts = gives _;
  is_file_halts = λ path. gives _;
  exists_halts = λ path. gives _;
  realpath_halts = λ path. gives _;
  block_devices_halts = gives _;
  read_line_halts = λ path. gives _;
  read_halts = λ path. gives _;
  move_dsc_file_halts = λ content name. gives _;
  delete_dsc_file_halts = λ name. gives _;
  flush_device_io_halts = λ path. gives _;
}

late : (w : ℕ) → 5 ≤ w → leb 5 w ≡ true
late w h = ground arith

host-IsLinked : IsLinked host "v1" 5
host-IsLinked = record {
  there = λ w h. ap ok (late w h);
  leads = λ w h. ("/dev/nvme0n1", refl, refl);
}

round_time : (w : ℕ) → (device_round host "v1" tt w).1 ≤ w + 1
unfolding device_round chef_bcpc.Brick.Device.check_device_exists_using_dev_lnk
    chef_bcpc.Brick.Device.unless_linked
    chef_bcpc.Brick.Device.check_device_exists_reading_block_class
    chef_bcpc.Brick.Device.first_match chef_bcpc.Run.◌>>=◌ chef_bcpc.Run.catch chef_bcpc.Run.pure
round_time w = ground arith

host-IsQuick : IsQuick host "v1" 1
host-IsQuick = record {
  lists = record { gives = λ w. ([], refl) };
  sleeps = record { gives = λ w. (tt, refl) };
  rounds = round_time;
}

appears_example : (d : String) × ((get_device_by_uuid host "v1" 0).0 ≡ ok (some d))
appears_example =
    get_device_by_uuid-some host host-IsPrompt "v1" 5 1 host-IsLinked host-IsQuick 0 (omega arith)
      (omega arith)

abbrev properties : Json
properties = obj (
    field "lightos_nodes" (obj end)
      (field "uuid" (str "v1") (field "subsysnqn" (str "nqn.array") end)))

abbrev connector : Connector host
connector = record { world = 0; message_queue = some [] }

ends_example :
    (((connect_volume host properties connector).0 ≢ diverged)
      × (time host connector ≤ time host ((connect_volume host properties connector).1)))
    × (((disconnect_volume host properties false true connector).0 ≢ diverged)
        × (time host connector
            ≤ time host ((disconnect_volume host properties false true connector).1)))
    × (((extend_volume host properties connector).0 ≢ diverged)
        × (time host connector ≤ time host ((extend_volume host properties connector).1)))
ends_example = connector_ends host host-IsPrompt properties false true connector

queue_example : Booked host (add properties) (some []) (connect_volume host properties connector)
queue_example = connect_volume-Booked host properties connector

abbrev other : Json
other = obj (field "uuid" (str "v2") end)

abbrev books : Dict Json
books = ("v2", other) ∷ []

-- One volume comes, another goes.
abbrev messages : List Message
messages = add properties ∷ delete other ∷ []

messages-ok : Gave (monitor_message_queue messages books) tt (("v1", properties) ∷ [])
unfolding monitor_message_queue chef_bcpc.Run.◌>>=◌ chef_bcpc.Brick.Monitor.process
    chef_bcpc.Brick.Monitor.uuid_of chef_bcpc.Dynamic.item chef_bcpc.Run.or_raise chef_bcpc.Run.pure
    chef_bcpc.Run.modify chef_bcpc.Run.gets chef_bcpc.Prelude.String-discrete chef_bcpc.Json.print
messages-ok = (refl, refl)

told_example :
    IsDict (("v1", properties) ∷ [])
    × ((k : String) → find k (("v1", properties) ∷ []) ≡ told_all k messages (find k books))
told_example =
    monitor_message_queue-Told messages books (("v1", properties) ∷ []) tt (refl, tt) messages-ok

abbrev block : Json
block = obj (field "type" (str "block") (field "path" (str "/dev/nvme0n1") end))

connected-ok :
    Gave
      (connect_volume host properties connector)
      block
      (record { world = 5; message_queue = some (add properties ∷ []) })
unfolding connect_volume chef_bcpc.Run.◌>>=◌ chef_bcpc.Dynamic.item chef_bcpc.Run.or_raise
    chef_bcpc.Brick.Volumes.call chef_bcpc.Brick.Volumes.book chef_bcpc.Brick.Volumes.connected
    chef_bcpc.Run.modify chef_bcpc.Run.gets chef_bcpc.Run.pure chef_bcpc.Run.catch
    chef_bcpc.Run.Loop.while_before chef_bcpc.Run.Loop.while chef_bcpc.Json.print get_device_by_uuid
    device_round chef_bcpc.Brick.Device.check_device_exists_using_dev_lnk
    chef_bcpc.Brick.Device.unless_linked
    chef_bcpc.Brick.Device.check_device_exists_reading_block_class
    chef_bcpc.Brick.Device.first_match chef_bcpc.Brick.Dsc.dsc_connect_volume
    chef_bcpc.Brick.Dsc.dsc_need_connect chef_bcpc.Brick.Dsc.write_dsc chef_bcpc.Brick.Dsc.items_of
    chef_bcpc.Brick.Dsc.dsc_lines
connected-ok = (refl, refl)

waiting-ok :
    Gave
      (monitor_message_queue (add properties ∷ []) books)
      tt
      (("v2", other) ∷ ("v1", properties) ∷ [])
unfolding monitor_message_queue chef_bcpc.Run.◌>>=◌ chef_bcpc.Brick.Monitor.process
    chef_bcpc.Brick.Monitor.uuid_of chef_bcpc.Dynamic.item chef_bcpc.Run.or_raise chef_bcpc.Run.pure
    chef_bcpc.Run.modify chef_bcpc.Run.gets chef_bcpc.Prelude.String-discrete chef_bcpc.Json.print
waiting-ok = (refl, refl)

connect_example :
    (some (add properties ∷ []) ≡ some ([] ++ add properties ∷ []))
    × ((k : String) × (key properties ≡ some k)
        × (find k (("v2", other) ∷ ("v1", properties) ∷ []) ≡ some properties))
connect_example =
    connect_volume-find host properties block connector
      (record { world = 5; message_queue = some (add properties ∷ []) }) [] books
      (("v2", other) ∷ ("v1", properties) ∷ []) tt refl connected-ok (refl, tt) waiting-ok
