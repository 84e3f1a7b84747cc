-- ===== src/Lightos/Session.antt =====
-- The state of the LightOS driver and what it stands on: `LightOSConnection`'s and
-- `LightOSVolumeDriver`'s attributes, the configuration options, and the environment, which is
-- everything outside cinder/lightos.py: the API servers and the network (`requests`), the clock
-- (`time`), `netutils` and the order of a Python set.
use chef_bcpc.Prelude.{ℕ, ◌+◌, ◌*◌, ◌≤◌, ◌<◌, String, Bool, Option, List, [], map, print_nat}
use chef_bcpc.Json.{Json, null, num, obj, end, field}
use chef_bcpc.Run.{Exec}
use chef_bcpc.Lightos.Command.{Method}

-- The configuration options that the driver reads. The name templates are `CONF`'s.
pub record Config : Type 0 where
  pub lightos_api_address : List String
  pub lightos_api_port : ℕ
  pub lightos_jwt : Option String
  pub lightos_default_num_replicas : ℕ
  pub lightos_default_compression_enabled : Bool
  pub lightos_api_service_timeout : ℕ
  pub lightos_use_ipacl : Bool
  pub volume_name_template : String → String
  pub snapshot_name_template : String → String
  pub volume_backend_name : Option String
  pub reserved_percentage : Json

-- A prepared HTTP request. `payload` is the value whose `json.dumps` is sent.
pub record Wire : Type 0 where
  pub method : Method
  pub api_url : String
  pub payload : Option Json
  pub headers : List (String × String)

-- A status code with the body, parsed as JSON or else as text.
abbrev pub Reply : Type 0
Reply = ℕ × Json

-- Times are in ticks of the clock, `second` of them to a second. `send` answers `none` where
-- `session.send` raises.
pub record Env : Type 1 where
  pub config : Config
  pub World : Type 0
  pub second : ℕ
  pub now : World → ℕ
  pub sleep : ℕ → World → World
  pub send : Wire → World → Option Reply × World
  pub is_valid_ipv4 : Json → Bool
  pub is_valid_ipv6 : Json → Bool
  pub set_order : List Json → List Json

-- What termination rests on: `time.sleep(n)` takes `n` seconds, and a request takes time.
pub record IsTimed (E : Env) : Type 0 where
  pub second_pos : 0 < E.second
  pub sleep_takes : (n : ℕ) (w : E.World) → E.now w + n * E.second ≤ E.now (E.sleep n w)
  pub send_takes : (r : Wire) (w : E.World) → E.now w + 1 ≤ E.now ((E.send r w).1)

pub record ApiServer : Type 0 where
  pub api_address : String
  pub api_port : String

-- A request as it went out, the server it was meant for, and what came back.
pub record Exchange : Type 0 where
  pub server : ApiServer
  pub wire : Wire
  pub reply : Option Reply

-- `connection_stats` and `stats` are the attribute `_stats` of the connection and of the driver.
-- `exchanges` are the requests of the session so far, the latest first.
pub record Session (E : Env) : Type 0 where
  pub world : E.World
  pub cur_api_server_idx : ℕ
  pub targets : List (Json × Json)
  pub lightos_cluster_uuid : Json
  pub subsystem_nqn : Json
  pub connection_stats : Json
  pub stats : Json
  pub logical_op_timeout : ℕ
  pub exchanges : List Exchange

abbrev pub Action : Env → Type 0 → Type 0
Action E A = Exec (Session E) A

module _ (E : Env) where
  abbrev pub clock : Session E → ℕ
  clock s = E.now s.world

  -- `_init_api_servers`
  unfoldable pub init_api_servers : List ApiServer
  init_api_servers =
      map (λ addr. record { api_address = addr; api_port = print_nat E.config.lightos_api_port })
        E.config.lightos_api_address

  -- `__init__` of the connection and of the driver; `pick` is `random.randint(0, len - 1)`, and
  -- `driver_stats` is what Cinder's base class sets `_stats` to.
  unfoldable pub init : ℕ → Json → E.World → Session E
  init pick driver_stats w = record {
    world = w;
    cur_api_server_idx = pick;
    targets = [];
    lightos_cluster_uuid = null;
    subsystem_nqn = null;
    stats = driver_stats;
    connection_stats =
        obj (field "total_capacity_gb" (num 0) (field "free_capacity_gb" (num 0) end));
    logical_op_timeout = E.config.lightos_api_service_timeout * 3 + 10;
    exchanges = [];
  }
