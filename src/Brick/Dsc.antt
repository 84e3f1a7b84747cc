-- ===== src/Brick/Dsc.antt =====
-- The files of the discovery client, with `get_ip_addresses`, `find_dsc` and what they tell Cinder.
pub mod Accepted
use chef_bcpc.Prelude.{
  ◌==◌, String, ◌<>◌, Bool, not, ◌&&◌, ◌||◌, Option, none, some, List, [], ◌∷◌, ◌++◌, if◌then◌else◌,
  str_eq,
}
use Prim.Native.String.{slice}
use text.Mathlib.Text.{find?, starts_with}
use chef_bcpc.Json.{Json, str, arr, obj, Fields, end, field, print, of_list, is_text}
use chef_bcpc.Run.{
  Exec, Done, pure, raise, catch, or_raise, ◌>>=◌, ◌>>◌, type_error, attribute_error,
}
use chef_bcpc.Dynamic.{item}
use chef_bcpc.Brick.{Host, Call}

-- `DISCOVERY_DIR_PATH`
abbrev pub discovery_dir_path : String
discovery_dir_path = "/etc/discovery-client/discovery.d/"

-- `os.path.join` after a directory that ends in a slash.
abbrev pub join_path : String → String → String
join_path directory name = if starts_with name "/" then name else directory <> name

-- `dsc_file_name`
unfoldable pub dsc_file_name : Json → String
dsc_file_name uuid = join_path discovery_dir_path (print uuid <> ".conf")

abbrev pub nqn_text : Option String → String
nqn_text none = "None"
nqn_text (some nqn) = nqn

abbrev pub dsc_line : Json → Json → Json → Option String → Json → String
dsc_line transport host port hostnqn subsysnqn =
    "-t "
    <> print transport
    <> " -a "
    <> print host
    <> " -s "
    <> print port
    <> " -q "
    <> nqn_text hostnqn
    <> " -n "
    <> print subsysnqn
    <> "\n"

abbrev pub loop_back_ips : List String
loop_back_ips = "127.0.0.1" ∷ "0:0:0:0:0:0:0:1" ∷ "::1" ∷ []

abbrev pub is_loop_back : Json → Bool
is_loop_back ip = is_text "127.0.0.1" ip || (is_text "0:0:0:0:0:0:0:1" ip || is_text "::1" ip)

-- `ip.split("%")[0]`
abbrev pub before_percent : String → String
before_percent ip = elim (find? ip "%") [ none ↦ ip | some k ↦ slice ip 0 k ]

-- An address is a text.
abbrev pub text_of : Json → Option String
text_of (str s) = some s
text_of _ = none

-- `props`, empty for a host without an NQN.
abbrev pub properties : Option String → String → List Json → Fields
properties none found_dsc host_ips = end
properties (some hostnqn) found_dsc host_ips =
    if str_eq hostnqn ""
    then end
    else field "nqn" (str hostnqn)
        (field "found_dsc" (str found_dsc) (field "host_ips" (arr (of_list host_ips)) end))

module _ {S : Type 0} where
  -- The lines of the nodes, which are written as they are read.
  unfoldable pub dsc_lines : Fields → Option String → Json → Exec S String
  dsc_lines end hostnqn subsysnqn = pure ""
  dsc_lines (field ip node nodes) hostnqn subsysnqn = do
    transport ← item "transport_type" node
    host ← item "target_portal" node
    port ← item "target_port" node
    rest ← dsc_lines nodes hostnqn subsysnqn
    pure (dsc_line transport host port hostnqn subsysnqn <> rest)

  -- `.items()`
  unfoldable pub items_of : Json → Exec S Fields
  items_of (obj fields) = pure fields
  items_of _ = raise attribute_error

module _ (H : Host) where
  -- `dsc_need_connect`
  unfoldable pub dsc_need_connect : Json → Call H Bool
  dsc_need_connect connection_info = do
    uuid ← item "uuid" connection_info
    there ← H.is_file (dsc_file_name uuid)
    pure (not there)

  -- The temporary file is its content.
  unfoldable pub write_dsc : Json → Call H Done
  write_dsc connection_info = do
    subsysnqn ← item "subsysnqn" connection_info
    uuid ← item "uuid" connection_info
    hostnqn ← H.get_host_nqn
    lightos_nodes ← item "lightos_nodes" connection_info
    nodes ← items_of lightos_nodes
    lines ← dsc_lines nodes hostnqn subsysnqn
    H.move_dsc_file
        ("# os_brick connector dsc file for LightOS volume: " <> print uuid <> "\n" <> lines)
        (dsc_file_name uuid)

  -- `dsc_connect_volume`
  unfoldable pub dsc_connect_volume : Json → Call H Done
  dsc_connect_volume connection_info = do
    need ← dsc_need_connect connection_info
    if not need then pure tt else write_dsc connection_info

  -- `dsc_disconnect_volume`
  unfoldable pub dsc_disconnect_volume : Json → Call H Done
  dsc_disconnect_volume connection_info = do
    uuid ← item "uuid" connection_info
    H.delete_dsc_file (dsc_file_name uuid)

  -- `monitor_db`, on the connections of the database
  unfoldable pub monitor_db : List (String × Json) → Call H Done
  monitor_db [] = pure tt
  monitor_db ((_, connection_info) ∷ db) = (dsc_connect_volume connection_info >> monitor_db db)

  -- `find_dsc`
  unfoldable pub find_dsc : Call H String
  find_dsc =
      catch (H.head_metrics >>= λ status. pure (if status == 200 then "found" else ""))
        (λ e. pure "")

  -- The loop over the addresses of an interface.
  unfoldable pub usable : Bool → List Json → Call H (List Json)
  usable is_ipv6_enabled [] = pure []
  usable is_ipv6_enabled (address ∷ addresses) = do
    ip ← item "addr" address
    text ← or_raise type_error (text_of ip)
    rest ← usable is_ipv6_enabled addresses
    pure (
        if is_loop_back ip
        then rest
        else (if is_ipv6_enabled && H.is_valid_ipv6 text
            then str (before_percent text) ∷ rest
            else (if H.is_valid_ipv4 text then ip ∷ rest else rest)))

  unfoldable pub usable_all : Bool → List String → Call H (List Json)
  usable_all is_ipv6_enabled [] = pure []
  usable_all is_ipv6_enabled (iface ∷ ifaces) = do
    addresses ← H.ifaddresses iface
    ips ← usable is_ipv6_enabled (addresses.inet ++ addresses.inet6)
    rest ← usable_all is_ipv6_enabled ifaces
    pure (ips ++ rest)

  -- `get_ip_addresses`
  unfoldable pub get_ip_addresses : Call H (List Json)
  get_ip_addresses = do
    is_ipv6_enabled ← H.is_ipv6_enabled
    ifaces ← H.interfaces
    usable_all is_ipv6_enabled ifaces

  -- `get_connector_properties`
  unfoldable pub get_connector_properties : Call H Json
  get_connector_properties = do
    hostnqn ← H.get_host_nqn
    found_dsc ← find_dsc
    host_ips ← get_ip_addresses
    pure (obj (properties hostnqn found_dsc host_ips))
