-- ===== src/Topology/Tests.antt =====
-- A cloud with two virtual machines, one of which has a name of its own in the SSH configuration.
use chef_bcpc.Prelude.{String, Option, none, some, List, [], ◌∷◌, ◌≡◌, refl, ℕ}
use chef_bcpc.Json.{Json, str}
use chef_bcpc.Run.Returns.{Gave}
use chef_bcpc.Dict.{Dict}
use chef_bcpc.Topology.{Block, Node, get_inventory_data}
use chef_bcpc.Topology.Entries.{Placed}
use chef_bcpc.Topology.Placed.{get_inventory_data-Placed}

abbrev head_vars : Dict Json
head_vars = ("zone", str "dev") ∷ []

abbrev nodes : List Node
nodes =
    record { host = "r1n1"; name = none; group = "headnodes"; host_vars = head_vars }
    ∷ record { host = "r1n2"; name = some "vm2"; group = "worknodes"; host_vars = [] }
    ∷ []

abbrev ssh_config : List Block
ssh_config =
    (("Host", "r1n1") ∷ ("HostName", "127.0.0.1") ∷ ("Port", "2222") ∷ [])
    ∷ (("Host", "vm2") ∷ ("HostName", "127.0.0.1") ∷ ("Port", "2200") ∷ [])
    ∷ []

abbrev new_nodes : List Node
new_nodes =
    record {
      host = "r1n1";
      name = none;
      group = "headnodes";
      host_vars =
          ("zone", str "dev")
          ∷ ("ansible_host", str "127.0.0.1")
          ∷ ("ansible_port", str "2222")
          ∷ [];
    }
    ∷ record {
      host = "r1n2";
      name = some "vm2";
      group = "worknodes";
      host_vars = ("ansible_host", str "127.0.0.1") ∷ ("ansible_port", str "2200") ∷ [];
    }
    ∷ []

abbrev children : Dict (Dict ℕ)
children = ("headnodes", ("r1n1", 0) ∷ []) ∷ ("worknodes", ("r1n2", 1) ∷ []) ∷ []

inventory-ok : Gave (get_inventory_data ssh_config nodes) children new_nodes
unfolding get_inventory_data chef_bcpc.Run.◌>>=◌ chef_bcpc.Run.gets
    chef_bcpc.Topology.cloud_children chef_bcpc.Topology.get_group_hosts chef_bcpc.Topology.matching
    chef_bcpc.Run.or_raise chef_bcpc.Prelude.String-discrete chef_bcpc.Run.pure
    chef_bcpc.Topology.one_of chef_bcpc.Topology.place chef_bcpc.Run.modify
inventory-ok = (refl, refl)

address_example : Placed ssh_config new_nodes "worknodes" "r1n2" 1
unfolding chef_bcpc.Prelude.String-discrete
address_example =
    get_inventory_data-Placed ssh_config nodes children new_nodes "worknodes" (("r1n2", 1) ∷ [])
      "r1n2" 1 inventory-ok refl refl
