-- ===== src/Topology.antt =====
-- The Ansible inventory of a virtual cloud, virtual/bin/generate-ansible-inventory.py. The variables
-- of a node are one dictionary that the inventory shares, so an entry of the inventory is the
-- position of its node, and the nodes are the state.
pub mod Matching
pub mod Entries
pub mod Placed
mod Tests
use chef_bcpc.Prelude.{
  ℕ, zero, suc, ltb, String, Bool, Option, none, some, List, [], ◌∷◌, map, length, get_elem?,
  str_eq, if◌then◌else◌,
}
use chef_bcpc.Json.{Json, str, Fields, end, field, obj}
use chef_bcpc.Run.{
  Exec, Done, pure, raise, gets, modify, or_raise, ◌>>=◌, ◌>>◌, key_error, index_error, value_error,
}
use chef_bcpc.Dict.{Dict, find, put}
use chef_bcpc.Dynamic.{split_pair}
use chef_bcpc.Dynamic.Texts.{strip}

-- A block of the SSH configuration.
abbrev pub Block : Type 0
Block = Dict String

-- A node of the topology, as the file has it.
pub record Node : Type 0 where
  pub host : String
  pub name : Option String
  pub group : String
  pub host_vars : Dict Json

-- `node.get('name', node['host'])`
abbrev pub name_of : Node → String
name_of node = elim node.name [ none ↦ node.host | some name ↦ name ]

-- `host_vars.update(...)`
abbrev pub address : String → String → Node → Node
address ip port node = record node {
  host_vars = put "ansible_port" (str port) (put "ansible_host" (str ip) node.host_vars);
}

-- A change of the node at a position.
abbrev pub change_at : ℕ → (Node → Node) → List Node → List Node
change_at i f [] = []
change_at zero f (node ∷ nodes) = f node ∷ nodes
change_at (suc i) f (node ∷ nodes) = node ∷ change_at i f nodes

abbrev pub first_of : List ℕ → Option ℕ
first_of [] = none
first_of (i ∷ is) = some i

module _ {S : Type 0} where
  -- The loop of `parse_ssh_config`, with the block in hand, which the end of the file drops.
  unfoldable pub parse_lines : List String → Block → Exec S (List Block)
  parse_lines [] host = pure []
  parse_lines (line ∷ lines) host =
      if str_eq (strip line) "" then (do hosts ← parse_lines lines []; pure (host ∷ hosts)) else do
        parts ← or_raise value_error (split_pair " " (strip line))
        parse_lines lines (put parts.0 parts.1 host)

  -- `parse_ssh_config`, on the lines of the file
  unfoldable pub parse_ssh_config : List String → Exec S (List Block)
  parse_ssh_config lines = parse_lines lines []

  -- The positions of the nodes with the name of a block.
  unfoldable pub matching : Block → List Node → Exec S (List ℕ)
  matching block [] = pure []
  matching block (node ∷ nodes) = do
    name ← or_raise key_error (find "Host" block)
    rest ← matching block nodes
    pure (if str_eq name (name_of node) then 0 ∷ map suc rest else map suc rest)

  unfoldable pub one_of : List ℕ → Exec S ℕ
  one_of is = if ltb 2 (length is) then raise value_error else or_raise index_error (first_of is)

-- What is done with the node of a block, for the hosts of a group.
unfoldable pub place : String → Block → ℕ → Dict ℕ → Exec (List Node) (Dict ℕ)
place group block i group_hosts = do
  found ← gets (λ nodes. get_elem? nodes i)
  node ← or_raise index_error found
  if str_eq node.group group
      then (do
        ip ← or_raise key_error (find "HostName" block)
        port ← or_raise key_error (find "Port" block)
        modify (change_at i (address ip port))
        pure (put node.host i group_hosts))
      else pure group_hosts

-- `get_group_hosts`
unfoldable pub get_group_hosts : String → List Block → Dict ℕ → Exec (List Node) (Dict ℕ)
get_group_hosts group [] group_hosts = pure group_hosts
get_group_hosts group (block ∷ ssh_config) group_hosts = do
  nodes ← gets (λ nodes. nodes)
  is ← matching block nodes
  i ← one_of is
  placed ← place group block i group_hosts
  get_group_hosts group ssh_config placed

-- `if len(hosts)`
abbrev pub add_group : String → Dict ℕ → Dict (Dict ℕ) → Dict (Dict ℕ)
add_group group [] children = children
add_group group (entry ∷ hosts) children = put group (entry ∷ hosts) children

-- The loop of `get_inventory_data`, with the children of the cloud.
unfoldable pub cloud_children :
    List Block → List String → Dict (Dict ℕ) → Exec (List Node) (Dict (Dict ℕ))
cloud_children ssh_config [] children = pure children
cloud_children ssh_config (group ∷ groups) children = do
  hosts ← get_group_hosts group ssh_config []
  cloud_children ssh_config groups (add_group group hosts children)

-- `get_inventory_data`, as the children of the cloud
unfoldable pub get_inventory_data : List Block → Exec (List Node) (Dict (Dict ℕ))
get_inventory_data ssh_config = do
  groups ← gets (map (λ node. node.group))
  cloud_children ssh_config groups []

-- The inventory that is written.
abbrev pub vars_json : Dict Json → Fields
vars_json [] = end
vars_json ((k, v) ∷ d) = field k v (vars_json d)

abbrev pub node_json : Option Node → Json
node_json none = obj end
node_json (some node) = obj (vars_json node.host_vars)

abbrev pub hosts_json : List Node → Dict ℕ → Fields
hosts_json nodes [] = end
hosts_json nodes ((host, i) ∷ hosts) =
    field host (node_json (get_elem? nodes i)) (hosts_json nodes hosts)

abbrev pub groups_json : List Node → Dict (Dict ℕ) → Fields
groups_json nodes [] = end
groups_json nodes ((group, hosts) ∷ groups) =
    field group (obj (field "hosts" (obj (hosts_json nodes hosts)) end)) (groups_json nodes groups)

-- `if len(cloud['children'])`
abbrev pub cloud_json : List Node → Dict (Dict ℕ) → Fields
cloud_json nodes [] = end
cloud_json nodes (child ∷ children) =
    field "cloud" (obj (field "children" (obj (groups_json nodes (child ∷ children))) end)) end

unfoldable pub inventory_json : List Node → Dict (Dict ℕ) → Json
inventory_json nodes children = obj (
    field "all"
      (obj (
        field "children"
          (obj (
            field "localhost"
              (obj (
                field "hosts"
                  (obj (field "127.0.0.1" (obj (field "ansible_connection" (str "local") end)) end))
                  end))
              (cloud_json nodes children)))
          end))
      end)
