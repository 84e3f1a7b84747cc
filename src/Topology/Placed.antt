-- ===== src/Topology/Placed.antt =====
-- The hosts of the inventory are nodes of their group, with an address of the SSH configuration.
use chef_bcpc.Prelude.{
  ℕ, String, String-discrete, Option, some, List, [], ◌∷◌, map, get_elem?, str_eq, eq_iff, ◌≡◌,
  refl, sym, ◌∙◌, ap, subst, inl, inr,
}
use chef_bcpc.Run.{ok, pure, gets, modify, or_raise, key_error, index_error}
use chef_bcpc.Run.Returns.{Gave, bind-Gave, pure-Gave, or_raise-Gave, if-Gave}
use chef_bcpc.Dict.{Dict, find, put, find-put_same, find-put_other}
use chef_bcpc.Topology.{
  Block, Node, address, change_at, first_of, matching, one_of, place, get_group_hosts, add_group,
  cloud_children, get_inventory_data,
}
use chef_bcpc.Topology.Matching.{Named, AllNamed, matching-AllNamed, one_of-first, first-Named}
use chef_bcpc.Topology.Entries.{
  In, here, later, Placed, Hosts, Keeps, Addressed-address, Placed-here, Keeps-change, Hosts-put,
}

module _ (ssh_config : List Block) where
  -- A step keeps what was placed, and its hosts are placed.
  abbrev Step : List Node → List Node → String → Dict ℕ → Type 0
  Step nodes nodes' group hosts =
      Keeps ssh_config nodes nodes' × Hosts ssh_config nodes' group hosts

  place-Step :
      (group : String) (block : Block) (i : ℕ) (hosts : Dict ℕ) (nodes : List Node)
      (hosts' : Dict ℕ) (nodes' : List Node)
      → In block ssh_config
      → Named block nodes i
      → Hosts ssh_config nodes group hosts
      → Gave (place group block i hosts nodes) hosts' nodes'
      → Step nodes nodes' group hosts'
  unfolding place gets modify
  place-Step group block i hosts nodes hosts' nodes' listed named old h =
      let (found, e1, h1) = bind-Gave (gets (λ ns. get_elem? ns i)) _ nodes hosts' nodes' h in
      let (node, e2, h2) = bind-Gave (or_raise index_error found) _ _ hosts' nodes' h1 in
      let (at', same) = or_raise-Gave index_error found node nodes _ (e2, refl) in
      let at = got (get_elem? nodes i) found node e1 at' in
      elim (if-Gave (str_eq node.group group) _ (pure hosts) _ hosts' nodes' h2) [
        | inr (_, g) ↦
            let (e, same') = pure-Gave hosts hosts' _ nodes' g in
            unchanged nodes' hosts' (same ∙ same') e
        | inl (in_group, g) ↦
            let (ip, e3, g1) =
              bind-Gave (or_raise key_error (find "HostName" block)) _ _ hosts' nodes' g in
            let (port, e4, g2) =
              bind-Gave (or_raise key_error (find "Port" block)) _ _ hosts' nodes' g1 in
            let (_, _, g3) =
              bind-Gave (modify (change_at i (address ip port))) _ _ hosts' nodes' g2 in
            let (has_ip, same1) =
              or_raise-Gave key_error (find "HostName" block) ip _ _ (e3, refl) in
            let (has_port, same2) =
              or_raise-Gave key_error (find "Port" block) port _ _ (e4, refl) in
            let (e, changed) = pure-Gave (put node.host i hosts) hosts' _ nodes' g3 in
            placed node ip port at has_ip has_port ((eq_iff node.group group).0 in_group)
              (ap (change_at i (address ip port)) (same ∙ same1 ∙ same2) ∙ changed) e
      ]
    where
      got :
          (o found : Option Node) (node : Node)
          → ok o ≡ ok found
          → found ≡ some node
          → o ≡ some node
      got o found node e f = cc (e, f)

      unchanged : (ns : List Node) (hs : Dict ℕ) → nodes ≡ ns → hosts ≡ hs → Step nodes ns group hs
      unchanged ns hs e f =
          subst (λ x. Step nodes x group hs) e
            (subst (λ x. Step nodes nodes group x) f ((λ g h j p. p), old))

      placed :
          (node : Node) (ip port : String)
          → get_elem? nodes i ≡ some node
          → find "HostName" block ≡ some ip
          → find "Port" block ≡ some port
          → node.group ≡ group
          → change_at i (address ip port) nodes ≡ nodes'
          → put node.host i hosts ≡ hosts'
          → Step nodes nodes' group hosts'
      placed node ip port at has_ip has_port in_group changed e =
          let addressed =
            Addressed-address ssh_config block node ip port listed (named node at) has_ip
              has_port in
          let keeps = Keeps-change ssh_config nodes i node ip port at addressed in
          let there =
            subst (λ g. Placed ssh_config (change_at i (address ip port) nodes) g node.host i)
              in_group (Placed-here ssh_config nodes i node ip port at addressed) in
          subst (λ ns. Step nodes ns group hosts') changed
            (subst (λ hs. Step nodes (change_at i (address ip port) nodes) group hs) e
              (
                keeps,
                Hosts-put ssh_config (change_at i (address ip port) nodes) group node.host i hosts
                    (λ h j f. keeps group h j (old h j f)) there,
              ))

  get_group_hosts-Step :
      (group : String) (blocks : List Block) (hosts : Dict ℕ) (nodes : List Node) (hosts' : Dict ℕ)
      (nodes' : List Node)
      → ((b : Block) → In b blocks → In b ssh_config)
      → Hosts ssh_config nodes group hosts
      → Gave (get_group_hosts group blocks hosts nodes) hosts' nodes'
      → Step nodes nodes' group hosts'
  unfolding get_group_hosts gets
  get_group_hosts-Step group [] hosts nodes hosts' nodes' sub old h =
      let (e, same) = pure-Gave hosts hosts' nodes nodes' h in
      subst (λ ns. Step nodes ns group hosts') same
        (subst (λ hs. Step nodes nodes group hs) e ((λ g k j p. p), old))
  get_group_hosts-Step group (block ∷ blocks) hosts nodes hosts' nodes' sub old h =
      let (ns, e1, h1) = bind-Gave (gets (λ x. x)) _ nodes hosts' nodes' h in
      let (is, e2, h2) = bind-Gave (matching block ns) _ _ hosts' nodes' h1 in
      let (i, e3, h3) = bind-Gave (one_of is) _ _ hosts' nodes' h2 in
      let (placed, e4, h4) = bind-Gave (place group block i hosts) _ _ hosts' nodes' h3 in
      let (named, same1) = matching-AllNamed block ns _ is _ (e2, refl) in
      let (first, same2) = one_of-first is _ i _ (e3, refl) in
      turned ns is i placed _ _ (the_same e1) named first (same1 ∙ same2) (e4, refl) h4
        (λ p a o g.
          get_group_hosts-Step group blocks p a hosts' nodes' (λ b m. sub b (later block blocks m))
            o g)
    where
      the_same : {ns : List Node} → ok nodes ≡ ok ns → nodes ≡ ns
      the_same e = cc e

      turned :
          (ns : List Node) (is : List ℕ) (i : ℕ) (placed : Dict ℕ) (now after : List Node)
          → nodes ≡ ns
          → AllNamed block ns is
          → first_of is ≡ some i
          → nodes ≡ now
          → Gave (place group block i hosts now) placed after
          → Gave (get_group_hosts group blocks placed after) hosts' nodes'
          → ((p : Dict ℕ) (a : List Node)
              → Hosts ssh_config a group p
              → Gave (get_group_hosts group blocks p a) hosts' nodes'
              → Step a nodes' group hosts')
          → Step nodes nodes' group hosts'
      turned ns is i placed now after same named first current g rest go =
          let named_here =
            first-Named block nodes is i (subst (λ x. AllNamed block x is) (sym same) named)
              first in
          let (keeps, hosts_placed) =
            place-Step group block i hosts nodes placed after (sub block (here blocks)) named_here
              old (subst (λ x. Gave (place group block i hosts x) placed after) (sym current) g) in
          let (keeps', hosts_placed') = go placed after hosts_placed rest in
          ((λ g k j p. keeps' g k j (keeps g k j p)), hosts_placed')

  abbrev Children : List Node → Dict (Dict ℕ) → Type 0
  Children nodes children =
      (group : String) (hosts : Dict ℕ)
      → find group children ≡ some hosts
      → Hosts ssh_config nodes group hosts

  Children-put :
      (nodes : List Node) (group : String) (hosts : Dict ℕ) (children : Dict (Dict ℕ))
      → Children nodes children
      → Hosts ssh_config nodes group hosts
      → Children nodes (put group hosts children)
  Children-put nodes group hosts children old new g hs found = elim (String-discrete group g) [
    | yes e ↦
        subst (λ x. Hosts ssh_config nodes x hs) e
          (subst (Hosts ssh_config nodes group)
            (the_hosts (put group hosts children) (find-put_same group hosts children)
              (ap (λ x. find x (put group hosts children)) e ∙ found))
            new)
    | no ne ↦ old g hs (sym (find-put_other g group hosts children ne) ∙ found)
  ]
    where
      the_hosts :
          (d : Dict (Dict ℕ)) → find group d ≡ some hosts → find group d ≡ some hs → hosts ≡ hs
      the_hosts d p q = cc (p, q)

  Children-add_group :
      (nodes : List Node) (group : String) (hosts : Dict ℕ) (children : Dict (Dict ℕ))
      → Children nodes children
      → Hosts ssh_config nodes group hosts
      → Children nodes (add_group group hosts children)
  Children-add_group nodes group [] children old new = old
  Children-add_group nodes group (entry ∷ hosts) children old new =
      Children-put nodes group (entry ∷ hosts) children old new

  cloud_children-Children :
      (groups : List String) (children : Dict (Dict ℕ)) (nodes : List Node)
      (children' : Dict (Dict ℕ)) (nodes' : List Node)
      → Children nodes children
      → Gave (cloud_children ssh_config groups children nodes) children' nodes'
      → Children nodes' children'
  unfolding cloud_children
  cloud_children-Children [] children nodes children' nodes' old h =
      let (e, same) = pure-Gave children children' nodes nodes' h in
      subst (λ ns. Children ns children') same (subst (Children nodes) e old)
  cloud_children-Children (group ∷ groups) children nodes children' nodes' old h =
      let (hosts, e, h1) =
        bind-Gave (get_group_hosts group ssh_config []) _ nodes children' nodes' h in
      let (keeps, placed) =
        get_group_hosts-Step group ssh_config [] nodes hosts _ (λ b m. m) (λ k i f. cc f)
          (e, refl) in
      cloud_children-Children groups (add_group group hosts children) _ children' nodes'
        (Children-add_group _ group hosts children (λ g hs f k j m. keeps g k j (old g hs f k j m))
          placed)
        h1

  -- Where get_inventory_data returns, every host in a group of the inventory is the name of a node of
  -- that group, and its variables have, in the end, the address and the port of a block of the SSH
  -- configuration with the node's name.
  pub get_inventory_data-Placed :
      (nodes : List Node) (children : Dict (Dict ℕ)) (nodes' : List Node) (group : String)
      (hosts : Dict ℕ) (host : String) (i : ℕ)
      → Gave (get_inventory_data ssh_config nodes) children nodes'
      → find group children ≡ some hosts
      → find host hosts ≡ some i
      → Placed ssh_config nodes' group host i
  unfolding get_inventory_data gets
  get_inventory_data-Placed nodes children nodes' group hosts host i h g k =
      let (groups, e, h1) = bind-Gave (gets (map (λ node. node.group))) _ nodes children nodes' h in
      cloud_children-Children groups [] nodes children nodes' (λ g hs f. cc f) h1 group hosts g host
        i k
