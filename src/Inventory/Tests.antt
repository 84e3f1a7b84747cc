-- ===== src/Inventory/Tests.antt =====
-- The choice of a format among three, and the interface of a host with two.
use chef_bcpc.Prelude.{String, ◌<>◌, true, false, ◌↔◌, ℕ, List, [], ◌∷◌, some, arith, ◌≡◌, refl}
use chef_bcpc.Json.{Json, null, str, arr, nil, cons, obj, end, field}
use chef_bcpc.Run.Returns.{Gave}
use chef_bcpc.Dict.{Dict}
use chef_bcpc.Inventory.Licenses.{host_aggregates, other_aggregates, get_hosts_chef_role}
use chef_bcpc.Inventory.Licenses.Parted.{has, IsListing, For, aggregates-For}
use chef_bcpc.Inventory.Licenses.Roles.{WithRole, get_hosts_chef_role-WithRole}
use chef_bcpc.Inventory.Nvme.{Lbaf, optimal_nvme_lbaf}
use chef_bcpc.Run.{Outcome, ok}
use chef_bcpc.Inventory.Filters.Interfaces.Found.{Carries, find_interface-Carries}
use chef_bcpc.Inventory.Filters.Chef.{update_chef_node_host_vars}
use chef_bcpc.Inventory.Filters.Chef.Kept.{attributes, Updated, update_chef_node_host_vars-Updated}
use chef_bcpc.Inventory.Nvme.Best.{IsBest, optimal_nvme_lbaf-IsBest}

abbrev outcome_value : Outcome Json → Json
outcome_value (ok v) = v
outcome_value _ = null

abbrev formats : List Lbaf
formats =
    record { rp = 2; ds = 9; ms = 0 }
    ∷ record { rp = 0; ds = 12; ms = 8 }
    ∷ record { rp = 0; ds = 12; ms = 0 }
    ∷ []

optimal_example : (k : ℕ) × (b : Lbaf) × (optimal_nvme_lbaf formats ≡ some k) × IsBest formats k b
optimal_example = optimal_nvme_lbaf-IsBest formats (ground arith)

abbrev eth0 : Json
eth0 =
    obj
      (field "device" (str "eth0") (field "ipv4" (obj (field "address" (str "10.0.0.2") end)) end))

abbrev facts : Json
facts =
    obj (field "interfaces" (arr (cons (str "lo") (cons (str "eth0") nil))) (field "eth0" eth0 end))

find_interface_example : Carries facts "10.0.0.2" eth0
unfolding chef_bcpc.Inventory.Filters.Interfaces.find_interface chef_bcpc.Run.◌>>=◌
    chef_bcpc.Dynamic.item chef_bcpc.Run.or_raise chef_bcpc.Dynamic.iterate chef_bcpc.Run.pure
    chef_bcpc.Inventory.Filters.Interfaces.names_of
    chef_bcpc.Inventory.Filters.Interfaces.search_interface chef_bcpc.Json.Json-discrete
    chef_bcpc.Prelude.String-discrete chef_bcpc.Dynamic.get
find_interface_example = find_interface-Carries {S = Unit} facts "10.0.0.2" tt eth0 tt (refl, refl)

-- A host in the zone `dev`, with no aggregate, and its node.
abbrev hostvars : Json
hostvars = obj (
    field "interfaces" (obj (field "service" (obj (field "ip" (str "10.1.0.2") end)) end))
      (field "aggregate" null (field "zone" (str "dev") end)))

abbrev node : Json
node = obj (field "name" (str "r1n1") (field "normal" (obj (field "zone" (str "old") end)) end))

abbrev new_node : Json
new_node = outcome_value ((update_chef_node_host_vars {S = Unit} node hostvars tt).0)

update_node_example : Updated (attributes hostvars) node new_node
unfolding update_chef_node_host_vars chef_bcpc.Run.◌>>=◌ chef_bcpc.Dynamic.item
    chef_bcpc.Run.or_raise chef_bcpc.Inventory.Filters.Chef.set_normal
    chef_bcpc.Inventory.Filters.set_item chef_bcpc.Run.pure
    chef_bcpc.Inventory.Filters.Chef.copy_attribute chef_bcpc.Dynamic.get
update_node_example =
    update_chef_node_host_vars-Updated {S = Unit} node hostvars tt new_node tt (refl, refl)

abbrev same_order : List String → List String
same_order xs = xs

same_order-IsListing : IsListing same_order
same_order-IsListing = record { same = λ xs a. refl }

-- A host with one of two licenses.
abbrev aggregates : Dict String
aggregates = ("oracle", "licensed") ∷ ("windows", "desktop") ∷ []

added-ok :
    Gave (host_aggregates {S = Unit} (some ("oracle" ∷ [])) aggregates tt) ("licensed" ∷ []) tt
unfolding host_aggregates chef_bcpc.Inventory.Licenses.look_up chef_bcpc.Run.◌>>=◌
    chef_bcpc.Run.or_raise chef_bcpc.Prelude.String-discrete chef_bcpc.Run.pure
added-ok = (refl, refl)

removed-ok :
    Gave
      (other_aggregates {S = Unit} same_order (some ("oracle" ∷ [])) aggregates tt)
      ("desktop" ∷ [])
      tt
unfolding other_aggregates chef_bcpc.Inventory.Licenses.look_up chef_bcpc.Prelude.String-discrete
    chef_bcpc.Run.◌>>=◌ chef_bcpc.Run.or_raise chef_bcpc.Run.pure
removed-ok = (refl, refl)

aggregates_example :
    ((has ("licensed" ∷ []) "licensed" ≡ true)
      ↔ For aggregates (some ("oracle" ∷ [])) true "licensed")
    × ((has ("desktop" ∷ []) "licensed" ≡ true)
        ↔ For aggregates (some ("oracle" ∷ [])) false "licensed")
unfolding chef_bcpc.Prelude.String-discrete
aggregates_example =
    aggregates-For same_order same_order-IsListing {S = Unit} (some ("oracle" ∷ [])) aggregates
      ("licensed" ∷ []) ("desktop" ∷ []) tt tt tt tt "licensed" (refl, (refl, tt)) added-ok
      removed-ok

abbrev host_variables : Json
host_variables = obj (
    field "r1n1" (obj (field "run_list" (arr (cons (str "role[headnode]") nil)) end))
      (field "r1n2" (obj (field "run_list" (arr (cons (str "role[worknode]") nil)) end)) end))

roles-ok :
    Gave
      (get_hosts_chef_role {S = Unit} same_order
        ("r1n1" ∷ "r1n2" ∷ [])
        host_variables
        "worknode"
        tt)
      ("r1n2" ∷ [])
      tt
unfolding get_hosts_chef_role chef_bcpc.Run.◌>>=◌ chef_bcpc.Inventory.Licenses.hosts_with_role
    chef_bcpc.Dynamic.item chef_bcpc.Run.or_raise chef_bcpc.Dynamic.iterate chef_bcpc.Run.pure
    chef_bcpc.Json.Json-discrete chef_bcpc.Prelude.String-discrete
roles-ok = (refl, refl)

roles_example : (has ("r1n2" ∷ []) "r1n2" ≡ true) ↔ (
    (has ("r1n1" ∷ "r1n2" ∷ []) "r1n2" ≡ true)
    × WithRole host_variables ("role[" <> "worknode" <> "]") "r1n2")
roles_example =
    get_hosts_chef_role-WithRole {S = Unit} same_order ("r1n1" ∷ "r1n2" ∷ []) host_variables
      "worknode" tt ("r1n2" ∷ []) tt "r1n2" same_order-IsListing roles-ok
