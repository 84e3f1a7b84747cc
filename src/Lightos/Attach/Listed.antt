-- ===== src/Lightos/Attach/Listed.antt =====
-- What is known of the cluster once `initialize_connection` has returned.
use chef_bcpc.Prelude.{
  ◌<◌, Bool, true, false, not, String, List, ◌∷◌, ◌++◌, ◌≡◌, refl, if◌then◌else◌, subst, some,
}
use chef_bcpc.Json.{Json, obj, str, field, end, truthy}
use chef_bcpc.Run.{pure, raise, ◌>>=◌, volume_backend_api}
use chef_bcpc.Run.Returns.{Gave, bind-Gave, pure-Gave, raise-Gave}
use chef_bcpc.Lightos.Session.{Env, Session, Reply, Action, Exchange}
use chef_bcpc.Lightos.Client.Servers.{server_count, grown}
use chef_bcpc.Lightos.Client.Answers.{LastReply}
use chef_bcpc.Lightos.Lookup.{Volume, project_name_of, lightos_volname}
use chef_bcpc.Lightos.Access.{add_volume_acl}
use chef_bcpc.Lightos.Access.Answers.{ShowsMember, wait_for_volume_acl-ShowsMember}
use chef_bcpc.Lightos.Attach.{
  Connector, is_empty, get_connection_properties, await_acl, attach, initialize_connection,
}
use chef_bcpc.Lightos.Frame.{client_frame}
use chef_bcpc.Lightos.Frame.Access.{add_volume_acl-Framed}
use chef_bcpc.Lightos.Frame.Attach.{await_acl-Framed, get_connection_properties-Framed}

module _ (E : Env) where
  -- A request on record was answered with status 200 and a volume whose ACL has the host.
  pub record IsListed (host : Json) (t : Session E) : Type 0 where
    pub newer : List Exchange
    pub shown : Exchange
    pub older : List Exchange
    pub recorded : t.exchanges ≡ newer ++ shown ∷ older
    pub reply : Reply
    pub answer : shown.reply ≡ some reply
    pub listed : ShowsMember host true reply

  -- A connector that names its host, its discovery client and its addresses.
  pub record IsWhole (connector : Connector) : Type 0 where
    pub has_nqn : truthy connector.nqn ≡ true
    pub has_dsc : truthy connector.found_dsc ≡ true
    pub has_ips : is_empty connector.host_ips ≡ false

  await_acl-ShowsMember :
      (success : Bool) (project : Json) (name : String) (host : Json) (s t : Session E)
      → Gave (await_acl E success project name host true s) true t
      → (reply : Reply) × LastReply E t reply × ShowsMember host true reply
  unfolding await_acl
  await_acl-ShowsMember true project name host s t h =
      wait_for_volume_acl-ShowsMember E project name host true s t h
  await_acl-ShowsMember false project name host s t h =
      let (e, _) = pure-Gave false true s t h in cc e

  was_added :
      (b : Bool) (m : Action E Json) (s : Session E) (p : Json) (t : Session E)
      → Gave ((if not b then raise volume_backend_api else m) s) p t
      → (b ≡ true) × Gave (m s) p t
  was_added true m s p t h = (refl, h)
  was_added false m s p t h = absurd (raise-Gave volume_backend_api p s t h)

  later-IsListed :
      (host : Json) (u t : Session E) (reply : Reply)
      → LastReply E u reply
      → ShowsMember host true reply
      → (new : List Exchange) × (t.exchanges ≡ new ++ u.exchanges)
      → IsListed host t
  later-IsListed host u t reply l shows (new, grows) = record {
    newer = new;
    shown = l.last;
    older = l.older;
    recorded = rw (grows, l.recorded) refl;
    reply = reply;
    answer = l.answer;
    listed = shows;
  }

  -- What follows the update of the ACL.
  abbrev after_update : Volume → Connector → Bool → Action E Json
  after_update volume connector success = do
    added ←
        await_acl E success (project_name_of volume) (lightos_volname E volume) connector.nqn true
    if not added then raise volume_backend_api else do
      props ← get_connection_properties E (project_name_of volume) volume
      pure (obj (field "driver_volume_type" (str "lightos") (field "data" props end)))

  concluded :
      (volume : Volume) (connector : Connector) (v : Session E) (p : Json) (t : Session E)
      (reply : Reply)
      → v.cur_api_server_idx < server_count E
      → LastReply E v reply
      → ShowsMember connector.nqn true reply
      → Gave
          ((get_connection_properties E (project_name_of volume) volume >>= λ props.
              pure (obj (field "driver_volume_type" (str "lightos") (field "data" props end))))
            v)
          p
          t
      → IsListed connector.nqn t
  concluded volume connector v p t reply g l shows h =
      let (props, _, h4) =
        bind-Gave (get_connection_properties E (project_name_of volume) volume) _ v p t h in
      let (_, same) = pure-Gave _ p _ t h4 in
      let (_, (new, e, _)) =
        grown E (get_connection_properties E (project_name_of volume) volume) v
          (get_connection_properties-Framed E (client_frame E) (project_name_of volume) volume) g in
      later-IsListed connector.nqn v t reply l shows
        (new, subst (λ w. w.exchanges ≡ new ++ v.exchanges) same e)

  attached :
      (volume : Volume) (connector : Connector) (success : Bool) (u : Session E) (p : Json)
      (t : Session E)
      → u.cur_api_server_idx < server_count E
      → Gave (after_update volume connector success u) p t
      → IsListed connector.nqn t
  attached volume connector success u p t g h =
      let (added, e2, h2) =
        bind-Gave
          (await_acl E success (project_name_of volume) (lightos_volname E volume) connector.nqn
            true)
          _ u p t h in
      let (is_added, h3) = was_added added _ _ p t h2 in
      let waited =
        grown E
          (await_acl E success (project_name_of volume) (lightos_volname E volume) connector.nqn
            true)
          u
          (await_acl-Framed E (client_frame E) success (project_name_of volume)
            (lightos_volname E volume) connector.nqn true)
          g in
      let (reply, l, shows) =
        await_acl-ShowsMember success (project_name_of volume) (lightos_volname E volume)
          connector.nqn u _ (cc (e2, is_added), refl) in
      concluded volume connector _ p t reply (waited.0 g) l shows h3

  attach-IsListed :
      (volume : Volume) (connector : Connector) (s : Session E) (p : Json) (t : Session E)
      → s.cur_api_server_idx < server_count E
      → Gave (attach E volume connector s) p t
      → IsListed connector.nqn t
  unfolding attach
  attach-IsListed volume connector s p t g h =
      let (success, _, h1) =
        bind-Gave
          (add_volume_acl E (project_name_of volume) volume connector.nqn connector.host_ips) _ s p
          t h in
      let in_range =
        (grown E (add_volume_acl E (project_name_of volume) volume connector.nqn connector.host_ips)
            s
            (add_volume_acl-Framed E (client_frame E) (project_name_of volume) volume connector.nqn
              connector.host_ips)
            g).0
          g in
      attached volume connector success _ p t in_range h1

  -- `initialize_connection`, started with its cursor on a server of the list, returns only for a
  -- connector with an NQN, a discovery client and addresses, and only if a request on record was
  -- answered with status 200 and a volume whose ACL has the connector's NQN, as Python's `in` has it:
  -- a member of a list, a key of a dict or a part of a text.
  pub initialize_connection-IsListed :
      (volume : Volume) (connector : Connector) (s : Session E) (p : Json) (t : Session E)
      → s.cur_api_server_idx < server_count E
      → Gave (initialize_connection E volume connector s) p t
      → IsWhole connector × IsListed connector.nqn t
  unfolding initialize_connection
  initialize_connection-IsListed volume connector s p t g h =
      let (nqn, h1) = was_added (truthy connector.nqn) _ s p t h in
      let (dsc, h2) = was_added (truthy connector.found_dsc) _ s p t h1 in
      let (ips, h3) = has_ips_case (is_empty connector.host_ips) _ s p t h2 in
      (
        record { has_nqn = nqn; has_dsc = dsc; has_ips = ips },
        attach-IsListed volume connector s p t g h3,
      )
    where
      has_ips_case :
          (b : Bool) (m : Action E Json) (s : Session E) (p : Json) (t : Session E)
          → Gave ((if b then raise volume_backend_api else m) s) p t
          → (b ≡ false) × Gave (m s) p t
      has_ips_case true m s p t h = absurd (raise-Gave volume_backend_api p s t h)
      has_ips_case false m s p t h = (refl, h)
