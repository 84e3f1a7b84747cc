-- ===== src/Inventory/Filters/Chef.antt =====
-- The host's variables in its Chef node, `update_chef_node_host_vars`.
pub mod Kept
use chef_bcpc.Prelude.{String, Bool, true, false, List, [], ◌∷◌, if◌then◌else◌}
use chef_bcpc.Json.{Json, null, obj, end, field}
use chef_bcpc.Run.{Exec, pure, ◌>>=◌}
use chef_bcpc.Dynamic.{item, get}
use chef_bcpc.Inventory.Filters.{set_item}

abbrev pub is_null : Json → Bool
is_null null = true
is_null _ = false

module _ {S : Type 0} where
  -- `node_details['normal'][key] = value`
  unfoldable pub set_normal : String → Json → Json → Exec S Json
  set_normal k value node_details = do
    normal ← item "normal" node_details
    normal' ← set_item k value normal
    set_item "normal" normal' node_details

  -- `hostvars.get(key)`, copied unless it is `None`
  unfoldable pub copy_attribute : String → Json → Json → Exec S Json
  copy_attribute k hostvars node_details = do
    value ← get k null hostvars
    if is_null value then pure node_details else set_normal k value node_details

  -- `update_chef_node_host_vars`
  unfoldable pub update_chef_node_host_vars : Json → Json → Exec S Json
  update_chef_node_host_vars node_details hostvars = do
    interfaces ← item "interfaces" hostvars
    service ← item "service" interfaces
    service_ip ← item "ip" service
    node1 ← set_normal "service_ip" service_ip node_details
    node2 ← set_normal "host_vars" (obj (field "interfaces" interfaces end)) node1
    node3 ← copy_attribute "licenses" hostvars node2
    node4 ← copy_attribute "aggregate" hostvars node3
    copy_attribute "zone" hostvars node4
