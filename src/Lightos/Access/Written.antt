-- ===== src/Lightos/Access/Written.antt =====
-- What `__add_volume_acl` writes back to the cluster, on top of what it read there.
use chef_bcpc.Prelude.{true, some, List, ◌∷◌, ◌++◌, ◌≡◌}
use chef_bcpc.Json.{Json, null, str, arr, nil, obj, Fields, lookup, truthy}
use chef_bcpc.Dynamic.{or_default}
use chef_bcpc.Lightos.Session.{Env, Session, Reply, Exchange}
use chef_bcpc.Lightos.Client.Asked.{Asked}
use chef_bcpc.Lightos.Acl.Opened.{Opened, OpenedIps}
use chef_bcpc.Lightos.Access.Update.{Updates}

module _ (E : Env) where
  -- The last request on record updates the ACLs of the volume `found` that was read, for `host`,
  -- and was answered with `reply`.
  pub record IsUpdated (project host : Json) (host_ips : List Json) (found : Json) (t : Session E)
      (reply : Reply) : Type 0 where
    pub volume : Fields
    pub is_dict : found ≡ obj volume
    pub uuid : Json
    pub uuid_found : or_default null (lookup "UUID" volume) ≡ uuid
    pub has_uuid : truthy uuid ≡ true
    pub etag : Json
    pub etag_found : or_default (str "") (lookup "ETag" volume) ≡ etag
    pub acl_fields : Fields
    pub acl_found : or_default null (lookup "acl" volume) ≡ obj acl_fields
    pub has_acl : truthy (obj acl_fields) ≡ true
    pub ip_fields : Fields
    pub ip_acl_found : or_default null (lookup "IPAcl" volume) ≡ obj ip_fields
    pub acl : Json
    pub opened : Opened E host (or_default (arr nil) (lookup "values" acl_fields)) acl
    pub ip_acl : Json
    pub opened_ips : OpenedIps E host_ips (or_default (arr nil) (lookup "values" ip_fields)) ip_acl
    pub last : Exchange
    pub older : List Exchange
    pub recorded : t.exchanges ≡ last ∷ older
    pub answer : last.reply ≡ some reply
    pub updates : Updates E project uuid acl ip_acl etag last.wire

  -- A request on record was answered with status 200 and the volume `found`.
  pub record WasRead (found : Json) (t : Session E) : Type 0 where
    pub newer : List Exchange
    pub read : Exchange
    pub before : List Exchange
    pub on_record : t.exchanges ≡ newer ++ read ∷ before
    pub gave : read.reply ≡ some (200, found)
