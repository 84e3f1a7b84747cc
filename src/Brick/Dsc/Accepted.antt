-- ===== src/Brick/Dsc/Accepted.antt =====
-- The connection properties of the volume driver are what the connector reads.
use chef_bcpc.Prelude.{
  String, Bool, true, false, not, Option, none, some, List, [], ◌∷◌, ◌≡◌, refl, sym, ◌∙◌, ap, subst,
  str_eq, if◌then◌else◌,
}
use chef_bcpc.Json.{Json, str, num, lookup, obj, Fields, end, field}
use chef_bcpc.Run.{Exec, ok, pure, gets, or_raise, key_error, ◌>>=◌}
use chef_bcpc.Run.Returns.{Gave, bind-Gave, pure-Gave}
use chef_bcpc.Dynamic.{item, put}
use chef_bcpc.Dynamic.Returns.{path, path-lookup}
use chef_bcpc.Lightos.Session.{Env, Session}
use chef_bcpc.Lightos.Lookup.{Volume, get_lightos_uuid}
use chef_bcpc.Lightos.Attach.{
  discovery_port, properties_of, data_address_of, lightos_targets, get_connection_properties,
}
use chef_bcpc.Brick.{Host}
use chef_bcpc.Run.Surely.{bind-ok, Returns, Returns-bind, Returns-pure, Returns-if}
use chef_bcpc.Brick.Dsc.{
  dsc_lines, items_of, dsc_need_connect, write_dsc, dsc_connect_volume, dsc_file_name,
}

-- The entries of a node.
abbrev node_fields : String → Fields
node_fields a =
    field "target_portal" (str a)
      (field "target_port" (num discovery_port) (field "transport_type" (str "tcp") end))

-- The nodes are as the driver makes them.
abbrev AllNodes : Fields → Type 0
AllNodes end = Unit
AllNodes (field k v fs) = ((a : String) × (v ≡ properties_of a)) × AllNodes fs

AllNodes-if : (b : Bool) (x y : Fields) → AllNodes x → AllNodes y → AllNodes (if b then x else y)
AllNodes-if true x y hx hy = hx
AllNodes-if false x y hx hy = hy

AllNodes-put : (k a : String) (fs : Fields) → AllNodes fs → AllNodes (put k (properties_of a) fs)
AllNodes-put k a end h = ((a, refl), tt)
AllNodes-put k a (field j w fs) h =
    AllNodes-if (str_eq j k) (field j (properties_of a) fs) (field j w (put k (properties_of a) fs))
      ((a, refl), h.1) (h.0, AllNodes-put k a fs h.1)

module _ (E : Env) where
  lightos_targets-AllNodes :
      (targets : List (Json × Json)) (nodes : Fields) (s : Session E) (nodes' : Fields)
      (t : Session E)
      → AllNodes nodes
      → Gave (lightos_targets E targets nodes s) nodes' t
      → AllNodes nodes'
  unfolding lightos_targets
  lightos_targets-AllNodes [] nodes s nodes' t all h =
      subst AllNodes ((pure-Gave nodes nodes' s t h).0) all
  lightos_targets-AllNodes ((i, target) ∷ targets) nodes s nodes' t all h =
      let (a, _, h1) = bind-Gave (data_address_of E target) _ s nodes' t h in
      lightos_targets-AllNodes targets (put a (properties_of a) nodes) _ nodes' t
        (AllNodes-put a a nodes all) h1

  abbrev shape : Fields → Json → Json → Json
  shape nodes uuid nqn =
      obj (field "lightos_nodes" (obj nodes) (field "uuid" uuid (field "subsysnqn" nqn end)))

  properties-shape :
      (project : Json) (volume : Volume) (s : Session E) (props : Json) (t : Session E)
      → Gave (get_connection_properties E project volume s) props t
      → (nodes : Fields) × (uuid : Json) × (nqn : Json) × AllNodes nodes
        × (shape nodes uuid nqn ≡ props)
  unfolding get_connection_properties
  properties-shape project volume s props t h =
      let (targets, _, h1) = bind-Gave (gets (λ x. x.targets)) _ s props t h in
      let (nodes, e, h2) = bind-Gave (lightos_targets E targets end) _ _ props t h1 in
      let (uuid, _, h3) = bind-Gave (get_lightos_uuid E project volume) _ _ props t h2 in
      let (nqn, _, h4) = bind-Gave (gets (λ x. x.subsystem_nqn)) _ _ props t h3 in
      (
        nodes,
        uuid,
        nqn,
        lightos_targets-AllNodes targets end _ nodes _ tt (e, refl),
        (pure-Gave (shape nodes uuid nqn) props _ t h4).0,
      )

module _ {S : Type 0} where
  or_raise-Returns :
      (o : Option Json) (v : Json) → o ≡ some v → Returns {S = S} (or_raise key_error o)
  unfolding or_raise
  or_raise-Returns none v e = cc e
  or_raise-Returns (some w) v e = record { gives = λ s. (w, refl) }

  item-Returns :
      (k : String) (fs : Fields) (v : Json)
      → lookup k fs ≡ some v
      → Returns {S = S} (item k (obj fs))
  unfolding item
  item-Returns k fs v e = or_raise-Returns (lookup k fs) v e

  or_raise-ok :
      (o : Option Json) (v : Json) → o ≡ some v → (s : S) → (or_raise key_error o s).0 ≡ ok v
  unfolding or_raise
  or_raise-ok none v e s = cc e
  or_raise-ok (some w) v e s = cc e

  item-ok :
      (k : String) (fs : Fields) (v : Json)
      → lookup k fs ≡ some v
      → (s : S) → (item k (obj fs) s).0 ≡ ok v
  unfolding item
  item-ok k fs v e s = or_raise-ok (lookup k fs) v e s

  items_of-ok : (fs : Fields) (s : S) → (items_of (obj fs) s).0 ≡ ok fs
  unfolding items_of pure
  items_of-ok fs s = refl

  -- A call with a known result.
  Returns-at :
      {A B : Type 0} (m : Exec S A) (f : A → Exec S B) (a : A)
      → ((s : S) → (m s).0 ≡ ok a)
      → Returns (f a)
      → Returns (m >>= f)
  Returns-at m f a e r = record {
    gives = λ s. let (b, e') = r.gives ((m s).1) in (b, ap (λ x. x.0) (bind-ok m f s a (e s)) ∙ e');
  }

  node-item :
      (v : Json) (a k : String) (w : Json)
      → v ≡ properties_of a
      → path (k ∷ []) (properties_of a) ≡ some w
      → Returns {S = S} (item k v)
  node-item v a k w e p =
      subst (λ x. Returns {S = S} (item k x)) (sym e)
        (item-Returns k (node_fields a) w (sym (path-lookup k (node_fields a)) ∙ p))

  dsc_lines-Returns :
      (fs : Fields) (hostnqn : Option String) (subsysnqn : Json)
      → AllNodes fs
      → Returns {S = S} (dsc_lines fs hostnqn subsysnqn)
  unfolding dsc_lines
  dsc_lines-Returns end hostnqn subsysnqn h = Returns-pure ""
  dsc_lines-Returns (field ip v fs) hostnqn subsysnqn h =
      let (a, e) = h.0 in
      Returns-bind (item "transport_type" v) _ (node-item v a "transport_type" (str "tcp") e refl)
        (λ transport.
          Returns-bind (item "target_portal" v) _ (node-item v a "target_portal" (str a) e refl)
            (λ host.
              Returns-bind (item "target_port" v) _ (node-item v a "target_port" _ e refl) (λ port.
                Returns-bind (dsc_lines fs hostnqn subsysnqn) _
                  (dsc_lines-Returns fs hostnqn subsysnqn h.1) (λ rest. Returns-pure _))))

-- The calls of the system that a connection makes return.
pub record IsWilling (H : Host) : Type 0 where
  pub looks : (path : String) → Returns (H.is_file path)
  pub knows : Returns H.get_host_nqn
  pub moves : (content name : String) → Returns (H.move_dsc_file content name)

module _ (H : Host) (willing : IsWilling H) (nodes : Fields) (uuid nqn : Json)
    (all : AllNodes nodes) where
  abbrev entries : Fields
  entries = field "lightos_nodes" (obj nodes) (field "uuid" uuid (field "subsysnqn" nqn end))

  need_connect-Returns : Returns (dsc_need_connect H (obj entries))
  unfolding dsc_need_connect
  need_connect-Returns =
      Returns-bind (item "uuid" (obj entries)) _ (item-Returns "uuid" entries uuid refl) (λ u.
        Returns-bind (H.is_file (dsc_file_name u)) _ (willing.looks _)
          (λ there. Returns-pure (not there)))

  write_dsc-Returns : Returns (write_dsc H (obj entries))
  unfolding write_dsc
  write_dsc-Returns =
      Returns-at (item "subsysnqn" (obj entries)) _ nqn (item-ok "subsysnqn" entries nqn refl) (
        Returns-at (item "uuid" (obj entries)) _ uuid (item-ok "uuid" entries uuid refl) (
          Returns-bind H.get_host_nqn _ willing.knows (λ hostnqn.
            Returns-at (item "lightos_nodes" (obj entries)) _ (obj nodes)
              (item-ok "lightos_nodes" entries (obj nodes) refl)
              (Returns-at (items_of (obj nodes)) _ nodes (items_of-ok nodes) (
                Returns-bind (dsc_lines nodes hostnqn nqn) _
                  (dsc_lines-Returns nodes hostnqn nqn all) (λ lines. willing.moves _ _))))))

  connect-Returns : Returns (dsc_connect_volume H (obj entries))
  unfolding dsc_connect_volume
  connect-Returns = Returns-bind (dsc_need_connect H (obj entries)) _ need_connect-Returns (λ need.
      Returns-if (not need) (pure tt) (write_dsc H (obj entries)) (Returns-pure tt)
        write_dsc-Returns)

-- The connection properties that the volume driver returns have all that the connector reads of them:
-- where the calls of the system return, dsc_connect_volume returns with them, and raises nothing.
pub dsc_connect_volume-properties :
    (E : Env) (H : Host) (project : Json) (volume : Volume) (s : Session E) (props : Json)
    (t : Session E) (w : H.World)
    → Gave (get_connection_properties E project volume s) props t
    → IsWilling H
    → (dsc_connect_volume H props w).0 ≡ ok tt
dsc_connect_volume-properties E H project volume s props t w h willing =
    let (nodes, uuid, nqn, all, e) = properties-shape E project volume s props t h in
    subst (λ p. (dsc_connect_volume H p w).0 ≡ ok tt) e
      ((connect-Returns H willing nodes uuid nqn all).gives w).1
