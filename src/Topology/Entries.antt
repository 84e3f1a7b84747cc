-- ===== src/Topology/Entries.antt =====
-- What an entry of the inventory says of its node, and what a change of one node keeps.
use chef_bcpc.Prelude.{
  ℕ, ℕ_discrete, String, String-discrete, some, List, ◌∷◌, get_elem?, eq_iff, ◌≡◌, ◌≢◌, refl, sym,
  ◌∙◌, ap, subst,
}
use chef_bcpc.Json.{str}
use chef_bcpc.Dict.{Dict, find, put, find-put_same, find-put_other}
use chef_bcpc.Topology.{Block, Node, name_of, address, change_at}
use chef_bcpc.Topology.Matching.{get_elem?-change_same, get_elem?-change_other}

pub data In (block : Block) : List Block → Type 0 where
  here : (blocks : List Block) → In block (block ∷ blocks)
  later : (other : Block) (blocks : List Block) → In block blocks → In block (other ∷ blocks)

-- The node has the address and the port of a block with its name.
pub record Addressed (ssh_config : List Block) (node : Node) : Type 0 where
  pub block : Block
  pub listed : In block ssh_config
  pub named : find "Host" block ≡ some (name_of node)
  pub ip : String
  pub port : String
  pub has_ip : find "HostName" block ≡ some ip
  pub has_port : find "Port" block ≡ some port
  pub ip_set : find "ansible_host" node.host_vars ≡ some (str ip)
  pub port_set : find "ansible_port" node.host_vars ≡ some (str port)

-- The entry of a host in a group is a node of that name and group, which is addressed.
pub record Placed (ssh_config : List Block) (nodes : List Node) (group host : String) (i : ℕ)
    : Type 0 where
  pub node : Node
  pub at : get_elem? nodes i ≡ some node
  pub of_group : node.group ≡ group
  pub of_name : node.host ≡ host
  pub addressed : Addressed ssh_config node

port_host : ◌≢◌ {A = String} "ansible_port" "ansible_host"
port_host e = cc ((eq_iff "ansible_port" "ansible_host").1 e)

module _ (ssh_config : List Block) where
  abbrev pub Hosts : List Node → String → Dict ℕ → Type 0
  Hosts nodes group hosts =
      (host : String) (i : ℕ) → find host hosts ≡ some i → Placed ssh_config nodes group host i

  -- What was placed stays placed.
  abbrev pub Keeps : List Node → List Node → Type 0
  Keeps nodes nodes' =
      (group host : String) (i : ℕ)
      → Placed ssh_config nodes group host i
      → Placed ssh_config nodes' group host i

  pub Addressed-address :
      (block : Block) (node : Node) (ip port : String)
      → In block ssh_config
      → find "Host" block ≡ some (name_of node)
      → find "HostName" block ≡ some ip
      → find "Port" block ≡ some port
      → Addressed ssh_config (address ip port node)
  Addressed-address block node ip port listed named has_ip has_port = record {
    block = block;
    listed = listed;
    named = named;
    ip = ip;
    port = port;
    has_ip = has_ip;
    has_port = has_port;
    ip_set =
        find-put_other "ansible_host" "ansible_port" (str port)
          (put "ansible_host" (str ip) node.host_vars) port_host
        ∙ find-put_same "ansible_host" (str ip) node.host_vars;
    port_set = find-put_same "ansible_port" (str port) (put "ansible_host" (str ip) node.host_vars);
  }

  -- The node at a position was addressed.
  module _ (nodes : List Node) (i : ℕ) (node : Node) (ip port : String)
      (at : get_elem? nodes i ≡ some node)
      (addressed : Addressed ssh_config (address ip port node)) where
    pub Placed-here : Placed ssh_config (change_at i (address ip port) nodes) node.group node.host i
    Placed-here = record {
      node = address ip port node;
      at = get_elem?-change_same i (address ip port) nodes node at;
      of_group = refl;
      of_name = refl;
      addressed = addressed;
    }

    pub Keeps-change : Keeps nodes (change_at i (address ip port) nodes)
    Keeps-change group host j p = elim (ℕ_discrete i j) [
      | yes e ↦ moved group host j e p
      | no ne ↦ record {
        node = p.node;
        at = get_elem?-change_other i j (address ip port) nodes ne ∙ p.at;
        of_group = p.of_group;
        of_name = p.of_name;
        addressed = p.addressed;
      }
    ]
      where
        same_node : (m : Node) → get_elem? nodes i ≡ some m → node ≡ m
        same_node m e = cc (at, e)

        moved :
            (group host : String) (j : ℕ)
            → i ≡ j
            → Placed ssh_config nodes group host j
            → Placed ssh_config (change_at i (address ip port) nodes) group host j
        moved group host j e p =
            let same = same_node p.node (ap (get_elem? nodes) e ∙ p.at) in
            subst (Placed ssh_config (change_at i (address ip port) nodes) group host) e (record {
              node = address ip port node;
              at = get_elem?-change_same i (address ip port) nodes node at;
              of_group = ap (λ m. m.group) same ∙ p.of_group;
              of_name = ap (λ m. m.host) same ∙ p.of_name;
              addressed = addressed;
            })

  pub Hosts-put :
      (nodes : List Node) (group host : String) (i : ℕ) (hosts : Dict ℕ)
      → Hosts nodes group hosts
      → Placed ssh_config nodes group host i
      → Hosts nodes group (put host i hosts)
  Hosts-put nodes group host i hosts old new h j found = elim (String-discrete host h) [
    | yes e ↦
        subst (λ x. Placed ssh_config nodes group x j) e
          (subst (Placed ssh_config nodes group host)
            (the_value (put host i hosts) (find-put_same host i hosts)
              (ap (λ x. find x (put host i hosts)) e ∙ found))
            new)
    | no ne ↦ old h j (sym (find-put_other h host i hosts ne) ∙ found)
  ]
    where
      the_value : (d : Dict ℕ) → find host d ≡ some i → find host d ≡ some j → i ≡ j
      the_value d p q = cc (p, q)
