-- ===== src/Lightos/Access/Update.antt =====
-- The request that updates the ACLs of a volume, as it goes out.
use chef_bcpc.Prelude.{◌<>◌, true, Option, some, ◌≡◌, refl, sym, subst, ap, ◌∙◌}
use chef_bcpc.Json.{Json, obj, end, field, truthy, print}
use chef_bcpc.Run.Returns.{Gave, bind-Gave}
use chef_bcpc.Dict.{find}
use chef_bcpc.Lightos.Command.{
  Method, Kwargs, no_kwargs, Request, generate_lightos_cmd, lightos_commands, request_of,
}
use chef_bcpc.Lightos.Session.{Env, Session, Reply, ApiServer, Wire}
use chef_bcpc.Lightos.Client.{prepare}
use chef_bcpc.Lightos.Client.Asked.{Asked, send_cmd-Asked, prepare-etag}
use chef_bcpc.Lightos.Lookup.{op_timeout}
use chef_bcpc.Lightos.Access.{set_volume_acl}

abbrev pub update_kwargs : Json → Json → Json → Json → Json → Kwargs
update_kwargs project uuid acl ip_acl etag = record no_kwargs {
  project_name = project;
  volume_uuid = uuid;
  acl = acl;
  ip_acl = ip_acl;
  etag = etag;
}

abbrev pub acl_values : Json → Json
acl_values acl = obj (field "values" acl end)

abbrev update_request : Json → Json → Json → Json → Request
update_request project uuid acl ip_acl = record {
  method = Method.put;
  url = ("/api/v2/projects/" <> print project) <> "/volumes/" <> print uuid;
  body = obj (field "acl" (acl_values acl) (field "IPAcl" (acl_values ip_acl) end));
}

update_request_lem :
    (project uuid acl ip_acl etag : Json)
    → generate_lightos_cmd "update_volume" (update_kwargs project uuid acl ip_acl etag)
      ≡ some (update_request project uuid acl ip_acl)
unfolding generate_lightos_cmd lightos_commands request_of
update_request_lem project uuid acl ip_acl etag = refl

module _ (E : Env) where
  -- A request that updates the ACLs of a volume.
  pub record Updates (project uuid acl ip_acl etag : Json) (wire : Wire) : Type 0 where
    pub is_put : wire.method ≡ Method.put
    pub server : ApiServer
    pub to_volume :
        wire.api_url
        ≡ "https://"
          <> server.api_address
          <> ":"
          <> server.api_port
          <> ("/api/v2/projects/" <> print project)
          <> "/volumes/"
          <> print uuid
    pub carries :
        wire.payload
        ≡ some (obj (field "acl" (acl_values acl) (field "IPAcl" (acl_values ip_acl) end)))
    pub guarded : truthy etag ≡ true → find "If-Match" wire.headers ≡ some (print etag)

  prepare-Updates :
      (server : ApiServer) (project uuid acl ip_acl etag : Json)
      → Updates project uuid acl ip_acl etag (
          prepare E server
            (update_kwargs project uuid acl ip_acl etag)
            (update_request project uuid acl ip_acl))
  unfolding prepare
  prepare-Updates server project uuid acl ip_acl etag = record {
    is_put = refl;
    server = server;
    to_volume = refl;
    carries = refl;
    guarded =
        prepare-etag E server (update_kwargs project uuid acl ip_acl etag)
          (update_request project uuid acl ip_acl);
  }

  pub Asked-Updates :
      (project uuid acl ip_acl etag : Json) (t : Session E) (reply : Reply)
      (a : Asked E "update_volume" (update_kwargs project uuid acl ip_acl etag) t reply)
      → Updates project uuid acl ip_acl etag (a.last).wire
  Asked-Updates project uuid acl ip_acl etag t reply a =
      subst (Updates project uuid acl ip_acl etag)
        (sym (
          a.sent
          ∙ ap (prepare E a.server (update_kwargs project uuid acl ip_acl etag))
              (same a.request (sym a.known ∙ update_request_lem project uuid acl ip_acl etag))))
        (prepare-Updates a.server project uuid acl ip_acl etag)
    where
      same :
          (r : Request)
          → ◌≡◌ {A = Option Request} (some r) (some (update_request project uuid acl ip_acl))
          → r ≡ update_request project uuid acl ip_acl
      same r e = cc e

  pub set_volume_acl-Asked :
      (project uuid acl ip_acl etag : Json) (s : Session E) (reply : Reply) (t : Session E)
      → Gave (set_volume_acl E project uuid acl ip_acl etag s) reply t
      → Asked E "update_volume" (update_kwargs project uuid acl ip_acl etag) t reply
  unfolding set_volume_acl
  set_volume_acl-Asked project uuid acl ip_acl etag s reply t h =
      let (timeout, _, h1) = bind-Gave (op_timeout E) _ s reply t h in
      send_cmd-Asked E "update_volume" timeout (update_kwargs project uuid acl ip_acl etag) _ reply
        t h1
