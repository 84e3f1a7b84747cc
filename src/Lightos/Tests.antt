-- ===== src/Lightos/Tests.antt =====
-- The LightOS driver on two API servers that answer every request with one volume, in a tick of the
-- clock: what the theorems say there.
use chef_bcpc.Prelude.{
  ℕ, ◌+◌, ◌*◌, ◌≤◌, ◌<◌, String, Bool, true, false, none, some, List, [], ◌∷◌, length, replicate,
  arith, ◌≡◌, ◌≢◌, refl, inr, eq_iff, is_some,
}
use chef_bcpc.Json.{Json, null, bool, num, str, arr, obj, nil, cons, end, field, is_text}
use chef_bcpc.Run.{ok, diverged, ◌>>=◌, ◌>>◌, pure, gets, or_raise}
use chef_bcpc.Lightos.Session.{Config, Reply, Env, IsTimed, Session, init, init_api_servers}
use chef_bcpc.Lightos.Lookup.{Volume}
use chef_bcpc.Lightos.Volume.{create_volume_from, allow_none, allow_any}
use chef_bcpc.Lightos.Driver.{Operation, perform}
use chef_bcpc.Lightos.Driver.Pace.{perform_ends}
use chef_bcpc.Lightos.Driver.Requests.{UsesServers, perform_requests}
use chef_bcpc.Lightos.Volume.Created.{EndsAvailable, create_volume_available}
use chef_bcpc.Lightos.Lookup.{wait_for_volume_available}
use chef_bcpc.Lightos.Lookup.Answers.{IsAvailable, wait_for_volume_available-IsAvailable}
use chef_bcpc.Lightos.Client.{send_cmd}
use chef_bcpc.Lightos.Client.Answers.{LastReply, send_cmd-LastReply}
use chef_bcpc.Lightos.Command.{
  Method, Request, no_kwargs, generate_lightos_cmd, lightos_commands, request_of,
}
use chef_bcpc.Lightos.Access.{wait_for_volume_acl, try_add_acl}
use chef_bcpc.Lightos.Access.Answers.{ShowsMember, wait_for_volume_acl-ShowsMember}
use chef_bcpc.Lightos.Acl.{member, add_host, remove_host, add_ips}
use chef_bcpc.Lightos.Acl.Laws.{IsAcl, add_host-IsAcl, remove_host-IsAcl, remove_host-add_host}
use chef_bcpc.Lightos.Acl.Bounds.{add_ips-length, add_ips_members, add_ips_off}
use chef_bcpc.Lightos.Attach.{
  Connector, initialize_connection, properties_of, get_connection_properties,
}
use chef_bcpc.Brick.Dsc.{dsc_connect_volume}
use chef_bcpc.Brick.Dsc.Accepted.{IsWilling, dsc_connect_volume-properties}
use chef_bcpc.Brick.Tests.{host as brick_host}
use chef_bcpc.Lightos.Attach.Listed.{IsWhole, IsListed, initialize_connection-IsListed}
use chef_bcpc.Lightos.Client.{prepare, has_content}
use chef_bcpc.Lightos.Client.Payload.{prepare-has_content}

abbrev config : Config
config = record {
  lightos_api_address = "10.0.0.1" ∷ "10.0.0.2" ∷ [];
  lightos_api_port = 443;
  lightos_jwt = some "token";
  lightos_default_num_replicas = 3;
  lightos_default_compression_enabled = false;
  lightos_api_service_timeout = 30;
  lightos_use_ipacl = true;
  volume_name_template = λ id. id;
  snapshot_name_template = λ id. id;
  volume_backend_name = none;
  reserved_percentage = num 0;
}

abbrev values : String → Json
values a = obj (field "values" (arr (cons (str a) nil)) end)

abbrev body : Json
body = obj (
    field "UUID" (str "u1") (
      field "state" (str "Available")
        (field "acl" (values "host-a") (field "IPAcl" (values "10.0.1.1") end))))

abbrev array : Env
array = record {
  config = config;
  World = ℕ;
  second = 10;
  now = λ w. w;
  sleep = λ n w. w + n * 10;
  send = λ r w. (some (200, body), w + 1);
  is_valid_ipv4 = λ a. is_text "10.0.1.1" a;
  is_valid_ipv6 = λ a. is_text "fd00::1" a;
  set_order = λ l. l;
}

array-IsTimed : IsTimed array
array-IsTimed = record {
  second_pos = omega arith;
  sleep_takes = λ n w. omega arith;
  send_takes = λ r w. omega arith;
}

abbrev started : Session array
unfolding init
started = init array 0 (obj end) 0

abbrev volume : Volume
volume = record { id = "v1"; name_id = "v1"; size = 1; volume_type = none }

perform_ends_example :
    ((perform array (Operation.delete_volume volume) started).0 ≢ diverged)
    × (0 ≤ ((perform array (Operation.delete_volume volume) started).1).world)
unfolding started
perform_ends_example = perform_ends array array-IsTimed (Operation.delete_volume volume) started

perform_requests_example :
    UsesServers array started (perform array (Operation.create_volume volume) started)
unfolding started init_api_servers
perform_requests_example =
    perform_requests array (Operation.create_volume volume) started (omega arith)

create_volume_available_example :
    EndsAvailable array ((create_volume_from array volume null started).1)
unfolding started ◌>>=◌ gets pure or_raise init_api_servers send_cmd chef_bcpc.Run.Loop.while_until
    chef_bcpc.Run.Loop.while chef_bcpc.Lightos.Client.send_round chef_bcpc.Lightos.Client.send_to
    chef_bcpc.Lightos.Command.generate_lightos_cmd chef_bcpc.Lightos.Command.lightos_commands
    chef_bcpc.Lightos.Client.exchange chef_bcpc.Lightos.Lookup.op_timeout
    chef_bcpc.Lightos.Lookup.get_lightos_volume chef_bcpc.Dynamic.assert chef_bcpc.Dynamic.get
    chef_bcpc.Lightos.Lookup.now wait_for_volume_available chef_bcpc.Lightos.Lookup.poll
    chef_bcpc.Lightos.Lookup.available_round chef_bcpc.Lightos.Lookup.state_of create_volume_from
    chef_bcpc.Lightos.Volume.finish_create chef_bcpc.Lightos.Volume.conclude_create
    chef_bcpc.Dynamic.item chef_bcpc.Lightos.Lookup.lightos_volname chef_bcpc.Json.Json-discrete
    chef_bcpc.Prelude.String-discrete
create_volume_available_example = create_volume_available array volume null started _ (refl, refl)

wait_for_volume_available_example :
    (reply : Reply) × LastReply array
      ((wait_for_volume_available array (str "p") 30 (str "u1") null started).1)
      reply
    × IsAvailable reply
unfolding started ◌>>=◌ gets pure or_raise init_api_servers send_cmd chef_bcpc.Run.Loop.while_until
    chef_bcpc.Run.Loop.while chef_bcpc.Lightos.Client.send_round chef_bcpc.Lightos.Client.send_to
    chef_bcpc.Lightos.Command.generate_lightos_cmd chef_bcpc.Lightos.Command.lightos_commands
    chef_bcpc.Lightos.Client.exchange chef_bcpc.Lightos.Lookup.op_timeout
    chef_bcpc.Lightos.Lookup.get_lightos_volume chef_bcpc.Dynamic.assert chef_bcpc.Dynamic.get
    chef_bcpc.Lightos.Lookup.now wait_for_volume_available chef_bcpc.Lightos.Lookup.poll
    chef_bcpc.Lightos.Lookup.available_round chef_bcpc.Lightos.Lookup.state_of
    chef_bcpc.Json.Json-discrete chef_bcpc.Prelude.String-discrete
wait_for_volume_available_example =
    wait_for_volume_available-IsAvailable array (str "p") 30 (str "u1") null started _ (refl, refl)

wait_for_volume_acl_example :
    (reply : Reply) × LastReply array
      ((wait_for_volume_acl array (str "p") "v1" (str "host-a") true started).1)
      reply
    × ShowsMember (str "host-a") true reply
unfolding started ◌>>=◌ gets pure or_raise init_api_servers send_cmd chef_bcpc.Run.Loop.while_until
    chef_bcpc.Run.Loop.while chef_bcpc.Lightos.Client.send_round chef_bcpc.Lightos.Client.send_to
    chef_bcpc.Lightos.Command.generate_lightos_cmd chef_bcpc.Lightos.Command.lightos_commands
    chef_bcpc.Lightos.Client.exchange chef_bcpc.Lightos.Lookup.op_timeout
    chef_bcpc.Lightos.Lookup.get_lightos_volume chef_bcpc.Dynamic.assert chef_bcpc.Dynamic.get
    chef_bcpc.Lightos.Lookup.now wait_for_volume_acl chef_bcpc.Run.Loop.while_before
    chef_bcpc.Lightos.Access.settle_round chef_bcpc.Dynamic.is_in chef_bcpc.Json.Json-discrete
    mathlib.Core.Bool.xor chef_bcpc.Prelude.String-discrete
wait_for_volume_acl_example =
    wait_for_volume_acl-ShowsMember array (str "p") "v1" (str "host-a") true started _ (refl, refl)

send_cmd_example : LastReply array ((send_cmd array "get_nodes" 30 no_kwargs started).1) (200, body)
unfolding started ◌>>=◌ gets pure or_raise init_api_servers send_cmd chef_bcpc.Run.Loop.while_until
    chef_bcpc.Run.Loop.while chef_bcpc.Lightos.Client.send_round chef_bcpc.Lightos.Client.send_to
    chef_bcpc.Lightos.Command.generate_lightos_cmd chef_bcpc.Lightos.Command.lightos_commands
    chef_bcpc.Lightos.Client.exchange chef_bcpc.Lightos.Lookup.op_timeout
send_cmd_example =
    send_cmd-LastReply array "get_nodes" 30 no_kwargs started (200, body) _ (refl, refl)

-- The same array with IP ACLs off.
abbrev open_array : Env
open_array = record array { config = record config { lightos_use_ipacl = false } }

abbrev host : Json
host = str "host-b"

abbrev acl : List Json
acl = str "host-a" ∷ []

acl-IsAcl : IsAcl acl
unfolding chef_bcpc.Json.Json-discrete chef_bcpc.Prelude.String-discrete
acl-IsAcl = record { shape = inr (ground arith, ground arith); distinct = (refl, tt) }

host-ne-none : host ≢ allow_none
host-ne-none = ground (arith, eq_iff "host-b" "ALLOW_NONE")

ip-ne-none : str "10.0.1.1" ≢ allow_none
ip-ne-none = ground (arith, eq_iff "10.0.1.1" "ALLOW_NONE")

add_host_example :
    IsAcl (add_host host acl)
    × (member host (add_host host acl) ≡ true)
    × (member allow_none (add_host host acl) ≡ false)
    × ((b : Json) → b ≢ host → b ≢ allow_none → member b (add_host host acl) ≡ member b acl)
add_host_example = add_host-IsAcl host acl acl-IsAcl host-ne-none

remove_host_example :
    IsAcl (remove_host host acl)
    × (member host (remove_host host acl) ≡ false)
    × ((b : Json) → b ≢ host → b ≢ allow_none → member b (remove_host host acl) ≡ member b acl)
remove_host_example = remove_host-IsAcl host acl acl-IsAcl host-ne-none

remove_added_example : remove_host host (add_host host acl) ≡ acl
unfolding chef_bcpc.Json.Json-discrete chef_bcpc.Prelude.String-discrete
remove_added_example = remove_host-add_host host acl acl-IsAcl host-ne-none refl

add_ips-length_example : length (add_ips array (replicate 20 (str "10.0.1.1")) []) ≤ 16
add_ips-length_example = add_ips-length array (replicate 20 (str "10.0.1.1")) []

add_ips_members_example :
    member (str "10.0.1.1") (add_ips array (str "10.0.1.1" ∷ []) (allow_none ∷ [])) ≡ true
unfolding chef_bcpc.Lightos.Acl.discard chef_bcpc.Json.Json-discrete
    chef_bcpc.Prelude.String-discrete
add_ips_members_example =
    add_ips_members array (str "10.0.1.1" ∷ []) (allow_none ∷ []) (str "10.0.1.1") refl
      (λ b l. refl) (omega arith) ip-ne-none

add_ips_off_example :
    (2 < 16 → add_ips open_array [] (replicate 2 allow_any) ≡ replicate 3 allow_any)
    × (16 ≤ 2 → add_ips open_array [] (replicate 2 allow_any) ≡ [])
unfolding chef_bcpc.Json.Json-discrete chef_bcpc.Prelude.String-discrete
add_ips_off_example = add_ips_off open_array [] 2 refl refl refl

abbrev connector : Connector
connector = record { nqn = str "host-a"; found_dsc = bool true; host_ips = str "10.0.1.1" ∷ [] }

initialize_connection_example :
    IsWhole array connector
    × IsListed array connector.nqn ((initialize_connection array volume connector started).1)
unfolding started ◌>>=◌ gets pure or_raise init_api_servers send_cmd chef_bcpc.Run.Loop.while_until
    chef_bcpc.Run.Loop.while chef_bcpc.Lightos.Client.send_round chef_bcpc.Lightos.Client.send_to
    chef_bcpc.Lightos.Command.generate_lightos_cmd chef_bcpc.Lightos.Command.lightos_commands
    chef_bcpc.Lightos.Client.exchange chef_bcpc.Lightos.Lookup.op_timeout
    chef_bcpc.Lightos.Lookup.get_lightos_volume chef_bcpc.Dynamic.assert chef_bcpc.Dynamic.get
    chef_bcpc.Lightos.Lookup.now wait_for_volume_acl chef_bcpc.Run.Loop.while_before
    chef_bcpc.Lightos.Access.settle_round chef_bcpc.Dynamic.is_in chef_bcpc.Json.Json-discrete
    mathlib.Core.Bool.xor chef_bcpc.Prelude.String-discrete wait_for_volume_available
    chef_bcpc.Lightos.Lookup.poll chef_bcpc.Lightos.Lookup.available_round
    chef_bcpc.Lightos.Lookup.state_of chef_bcpc.Dynamic.item
    chef_bcpc.Lightos.Lookup.lightos_volname chef_bcpc.Lightos.Access.set_volume_acl
    chef_bcpc.Lightos.Access.write_back chef_bcpc.Lightos.Access.add_lists
    chef_bcpc.Lightos.Acl.Values.open_acl chef_bcpc.Lightos.Acl.Values.open_ip_acl
    chef_bcpc.Lightos.Acl.Values.hashed chef_bcpc.Lightos.Access.add_found
    chef_bcpc.Lightos.Access.try_add_acl chef_bcpc.Lightos.Access.update_round
    chef_bcpc.Lightos.Access.update_volume_acl chef_bcpc.Lightos.Access.add_volume_acl
    chef_bcpc.Lightos.Attach.lightos_targets chef_bcpc.Lightos.Attach.get_connection_properties
    chef_bcpc.Lightos.Attach.attach chef_bcpc.Lightos.Attach.await_acl initialize_connection
    chef_bcpc.Lightos.Lookup.get_lightos_uuid chef_bcpc.Lightos.Acl.discard add_host add_ips
    chef_bcpc.Lightos.Acl.open_ips chef_bcpc.Lightos.Acl.shorten
initialize_connection_example =
    initialize_connection-IsListed array volume connector started _ _ (omega arith) (refl, refl)

-- The request for the nodes.
abbrev nodes : Request
nodes = record { method = Method.get; url = "/api/v2/nodes"; body = obj end }

prepare_example :
    is_some (
      (prepare array
        (record { api_address = "10.0.0.1"; api_port = "443" })
        no_kwargs
        nodes).payload)
    ≡ has_content Method.get
unfolding generate_lightos_cmd lightos_commands request_of
prepare_example =
    prepare-has_content array (record { api_address = "10.0.0.1"; api_port = "443" }) no_kwargs
      "get_nodes" nodes refl

-- After the set-up, with one target.
abbrev set_up : Session array
unfolding init
set_up = record started {
  targets = (str "n1", obj (field "nvmeEndpoint" (str "10.0.0.9:4420") end)) ∷ [];
  subsystem_nqn = str "nqn.array";
}

abbrev properties : Json
properties = obj (
    field "lightos_nodes" (obj (field "10.0.0.9" (properties_of "10.0.0.9") end))
      (field "uuid" (str "u1") (field "subsysnqn" (str "nqn.array") end)))

host-IsWilling : IsWilling brick_host
host-IsWilling = record {
  looks = λ path. record { gives = λ w. (false, refl) };
  knows = record { gives = λ w. (some "nqn.host", refl) };
  moves = λ content name. record { gives = λ w. (tt, refl) };
}

properties-ok : (get_connection_properties array (str "p") volume set_up).0 ≡ ok properties
unfolding started ◌>>=◌ gets pure or_raise init_api_servers send_cmd chef_bcpc.Run.Loop.while_until
    chef_bcpc.Run.Loop.while chef_bcpc.Lightos.Client.send_round chef_bcpc.Lightos.Client.send_to
    chef_bcpc.Lightos.Command.generate_lightos_cmd chef_bcpc.Lightos.Command.lightos_commands
    chef_bcpc.Lightos.Client.exchange chef_bcpc.Lightos.Lookup.op_timeout
    chef_bcpc.Lightos.Lookup.get_lightos_volume chef_bcpc.Dynamic.assert chef_bcpc.Dynamic.get
    chef_bcpc.Lightos.Lookup.now wait_for_volume_acl chef_bcpc.Run.Loop.while_before
    chef_bcpc.Lightos.Access.settle_round chef_bcpc.Dynamic.is_in chef_bcpc.Json.Json-discrete
    mathlib.Core.Bool.xor chef_bcpc.Prelude.String-discrete wait_for_volume_available
    chef_bcpc.Lightos.Lookup.poll chef_bcpc.Lightos.Lookup.available_round
    chef_bcpc.Lightos.Lookup.state_of chef_bcpc.Dynamic.item
    chef_bcpc.Lightos.Lookup.lightos_volname chef_bcpc.Lightos.Access.set_volume_acl
    chef_bcpc.Lightos.Access.write_back chef_bcpc.Lightos.Access.add_lists
    chef_bcpc.Lightos.Acl.Values.open_acl chef_bcpc.Lightos.Acl.Values.open_ip_acl
    chef_bcpc.Lightos.Acl.Values.hashed chef_bcpc.Lightos.Access.add_found
    chef_bcpc.Lightos.Access.try_add_acl chef_bcpc.Lightos.Access.update_round
    chef_bcpc.Lightos.Access.update_volume_acl chef_bcpc.Lightos.Access.add_volume_acl
    chef_bcpc.Lightos.Attach.lightos_targets chef_bcpc.Lightos.Attach.get_connection_properties
    chef_bcpc.Lightos.Attach.attach chef_bcpc.Lightos.Attach.await_acl initialize_connection
    chef_bcpc.Lightos.Lookup.get_lightos_uuid chef_bcpc.Lightos.Acl.discard add_host add_ips
    chef_bcpc.Lightos.Acl.open_ips chef_bcpc.Lightos.Acl.shorten
    chef_bcpc.Lightos.Attach.data_address_of chef_bcpc.Dynamic.split_pair
properties-ok = refl

connector_reads_example : (dsc_connect_volume brick_host properties 0).0 ≡ ok tt
connector_reads_example =
    dsc_connect_volume-properties array brick_host (str "p") volume set_up properties _ 0
      (properties-ok, refl) host-IsWilling
