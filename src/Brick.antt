-- ===== src/Brick.antt =====
-- The connector of os-brick for LightOS, `LightOSConnector` of
-- chef/cookbooks/bcpc/files/default/cinder/lightos_connector.py, on the operating system of a host.
pub mod Codes
pub mod Dsc
pub mod Device
pub mod Volumes
pub mod Monitor
pub mod Tests
use chef_bcpc.Prelude.{ℕ, ◌+◌, ◌*◌, ◌≤◌, String, Bool, Option, List}
use chef_bcpc.Json.{Json}
use chef_bcpc.Run.{Exec, Done}
use chef_bcpc.Run.Pace.{Halts, Ticks}

-- The addresses of an interface, `netifaces.ifaddresses`, one dictionary for each.
pub record Addresses : Type 0 where
  pub inet : List Json
  pub inet6 : List Json

-- The operating system, in ticks: `time.time`, `time.sleep`, `utils.get_host_nqn`, the status of
-- the discovery client, the files, the block devices of /sys/class/block by their names, the
-- interfaces, `priv_lightos` and the flush of a device.
pub record Host : Type 1 where
  pub World : Type 0
  pub clock : World → ℕ
  pub second : ℕ
  pub sleep : ℕ → Exec World Done
  pub get_host_nqn : Exec World (Option String)
  pub head_metrics : Exec World ℕ
  pub is_file : String → Exec World Bool
  pub exists : String → Exec World Bool
  pub realpath : String → Exec World String
  pub block_devices : Exec World (List String)
  pub read_line : String → Exec World String
  pub read : String → Exec World String
  pub move_dsc_file : String → String → Exec World Done
  pub delete_dsc_file : String → Exec World Done
  pub flush_device_io : String → Exec World Done
  pub is_ipv6_enabled : Exec World Bool
  pub interfaces : Exec World (List String)
  pub ifaddresses : String → Exec World Addresses
  pub is_valid_ipv4 : String → Bool
  pub is_valid_ipv6 : String → Bool

-- A sleep takes time, and the calls of the system end.
pub record IsPrompt (H : Host) : Type 0 where
  pub sleep_ticks : (n : ℕ) → Ticks H.clock (H.sleep n)
  pub get_host_nqn_halts : Halts H.clock H.get_host_nqn
  pub head_metrics_halts : Halts H.clock H.head_metrics
  pub is_file_halts : (path : String) → Halts H.clock (H.is_file path)
  pub exists_halts : (path : String) → Halts H.clock (H.exists path)
  pub realpath_halts : (path : String) → Halts H.clock (H.realpath path)
  pub block_devices_halts : Halts H.clock H.block_devices
  pub read_line_halts : (path : String) → Halts H.clock (H.read_line path)
  pub read_halts : (path : String) → Halts H.clock (H.read path)
  pub move_dsc_file_halts : (content name : String) → Halts H.clock (H.move_dsc_file content name)
  pub delete_dsc_file_halts : (name : String) → Halts H.clock (H.delete_dsc_file name)
  pub flush_device_io_halts : (path : String) → Halts H.clock (H.flush_device_io path)

module _ (H : Host) where
  abbrev pub Call : Type 0 → Type 0
  Call A = Exec H.World A
