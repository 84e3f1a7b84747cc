-- ===== src/Inventory/Filters/Interfaces.antt =====
-- The interface that carries an address, and the addresses of a host: `primary_ip`,
-- `transit_interfaces` and `find_interface`.
pub mod Found
use chef_bcpc.Prelude.{
  String, Bool, true, false, ◌||◌, Option, none, some, List, [], ◌∷◌, if◌then◌else◌, not,
}
use chef_bcpc.Json.{Json, null, bool, num, str, arr, obj, Fields, end, Items, nil, is_text, truthy}
use chef_bcpc.Run.{Exec, pure, raise, or_raise, ◌>>=◌, type_error, value_error}
use chef_bcpc.Dynamic.{item, get, iterate, has_key}
use chef_bcpc.Inventory.Filters.{is_true, set_item}

-- `interface in ['lo', 'service0', 'usb0']`
abbrev pub is_skipped : String → Bool
is_skipped name =
    is_text "lo" (str name) || (is_text "service0" (str name) || is_text "usb0" (str name))

module _ {S : Type 0} where
  -- The names in `facts['interfaces']`, which are texts.
  unfoldable pub names_of : List Json → Exec S (List String)
  names_of [] = pure []
  names_of (str name ∷ names) = (names_of names >>= λ rest. pure (name ∷ rest))
  names_of (_ ∷ names) = raise type_error

  -- The loop of `find_interface`, for an address as a text.
  unfoldable pub search_interface : Json → String → List String → Exec S Json
  search_interface facts ip [] = raise value_error
  search_interface facts ip (name ∷ names) =
      if is_skipped name then search_interface facts ip names else do
        interface ← get name (obj end) facts
        ipv4 ← get "ipv4" (obj end) interface
        address ← get "address" null ipv4
        if is_text ip address then item name facts else search_interface facts ip names

  -- `find_interface`
  unfoldable pub find_interface : Json → String → Exec S Json
  find_interface facts ip = do
    interfaces ← item "interfaces" facts
    items ← iterate interfaces
    names ← names_of items
    search_interface facts ip names

  -- `ipv4_interface_ip` is `ipaddress.IPv4Interface(value).ip` as a text, `none` where it raises.
  module _ (ipv4_interface_ip : Json → Option String) where
    -- `primary_ip`
    unfoldable pub primary_ip : List Json → Json → Exec S Json
    primary_ip [] host_variables = item "ansible_host" host_variables
    primary_ip (transit ∷ transits) host_variables = do
      listed ← has_key "primary" transit
      primary ← (if listed then item "primary" transit else pure null)
      if is_true primary
          then (do
            address ← item "ip" transit
            ip ← or_raise value_error (ipv4_interface_ip address)
            pure (str ip))
          else primary_ip transits host_variables

    -- `transit_interfaces`: the transits with the names of their devices.
    unfoldable pub transit_interfaces : List Json → Json → Exec S (List Json)
    transit_interfaces [] ansible_facts = pure []
    transit_interfaces (transit ∷ transits) ansible_facts = do
      address ← get "ip" null transit
      if not (truthy address) then raise value_error else do
        ip ← or_raise value_error (ipv4_interface_ip address)
        interface ← find_interface ansible_facts ip
        device ← item "device" interface
        named ← set_item "name" device transit
        rest ← transit_interfaces transits ansible_facts
        pure (named ∷ rest)
