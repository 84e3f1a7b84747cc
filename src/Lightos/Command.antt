-- ===== src/Lightos/Command.antt =====
-- The commands of the LightOS REST API: the keyword arguments of a call, the table of commands,
-- and `LightOSConnection._generate_lightos_cmd` (chef/cookbooks/bcpc/files/default/cinder/lightos.py).
use chef_bcpc.Prelude.{String, ◌<>◌, str_eq, Option, none, some, List, [], ◌∷◌, if◌then◌else◌}
use chef_bcpc.Json.{Json, null, str, obj, Fields, end, field, print}
use mathlib.Core.Option

pub data Method : Type 0 where
  get post put delete : Method

-- `**kwargs`: `null` for a keyword that a call does not give, as `kwargs.get` answers.
pub record Kwargs : Type 0 where
  pub uuid : Json
  pub project_name : Json
  pub name : Json
  pub size : Json
  pub n_replicas : Json
  pub compression : Json
  pub acl : Json
  pub ip_acl : Json
  pub src_snapshot_uuid : Json
  pub src_snapshot_name : Json
  pub volume_uuid : Json
  pub volume_name : Json
  pub src_volume_uuid : Json
  pub src_volume_name : Json
  pub snapshot_uuid : Json
  pub snapshot_name : Json
  pub etag : Json

abbrev pub no_kwargs : Kwargs
no_kwargs = record {
  uuid = null;
  project_name = null;
  name = null;
  size = null;
  n_replicas = null;
  compression = null;
  acl = null;
  ip_acl = null;
  src_snapshot_uuid = null;
  src_snapshot_name = null;
  volume_uuid = null;
  volume_name = null;
  src_volume_uuid = null;
  src_volume_name = null;
  snapshot_uuid = null;
  snapshot_name = null;
  etag = null;
}

-- One entry of `lightos_commands`.
pub record Command : Type 0 where
  pub cmd : String
  pub method : Method
  pub url : String
  pub params : Fields

project_url : Kwargs → String
project_url kw = "/api/v2/projects/" <> print kw.project_name

volume_url : Kwargs → String
unfolding project_url
volume_url kw = project_url kw <> "/volumes/" <> print kw.volume_uuid

snapshot_url : Kwargs → String
unfolding project_url
snapshot_url kw = project_url kw <> "/snapshots/" <> print kw.snapshot_uuid

abbrev values : Json → Json
values acl = obj (field "values" acl end)

unfoldable pub lightos_commands : Kwargs → List Command
unfolding project_url volume_url snapshot_url
lightos_commands kw =
    record { cmd = "get_cluster_info"; method = get; url = "/api/v2/clusterinfo"; params = end }
    ∷ record { cmd = "get_cluster"; method = get; url = "/api/v2/cluster"; params = end }
    ∷ record {
      cmd = "get_node";
      method = get;
      url = "/api/v2/nodes/" <> print kw.uuid;
      params = end;
    }
    ∷ record { cmd = "get_nodes"; method = get; url = "/api/v2/nodes"; params = end }
    ∷ record {
      cmd = "create_volume";
      method = post;
      url = project_url kw <> "/volumes";
      params = field "name" kw.name (
          field "size" kw.size (
            field "replicaCount" kw.n_replicas (
              field "compression" kw.compression (
                field "acl" (values kw.acl) (
                  field "IPAcl" (values kw.ip_acl) (
                    field "sourceSnapshotUUID" kw.src_snapshot_uuid
                      (field "sourceSnapshotName" kw.src_snapshot_name end)))))));
    }
    ∷ record { cmd = "delete_volume"; method = delete; url = volume_url kw; params = end }
    ∷ record {
      cmd = "update_volume";
      method = put;
      url = volume_url kw;
      params = field "acl" (values kw.acl) (field "IPAcl" (values kw.ip_acl) end);
    }
    ∷ record {
      cmd = "extend_volume";
      method = put;
      url = volume_url kw;
      params = field "UUID" kw.volume_uuid (field "size" kw.size end);
    }
    ∷ record {
      cmd = "create_snapshot";
      method = post;
      url = project_url kw <> "/snapshots";
      params = field "name" kw.name (
          field "sourceVolumeUUID" kw.src_volume_uuid
            (field "sourceVolumeName" kw.src_volume_name end));
    }
    ∷ record { cmd = "delete_snapshot"; method = delete; url = snapshot_url kw; params = end }
    ∷ record { cmd = "get_volume"; method = get; url = volume_url kw; params = end }
    ∷ record {
      cmd = "get_volume_by_name";
      method = get;
      url = project_url kw <> "/volumes/?name=" <> print kw.volume_name;
      params = end;
    }
    ∷ record {
      cmd = "list_volumes";
      method = get;
      url = project_url kw <> "/volumes";
      params = end;
    }
    ∷ record { cmd = "get_snapshot"; method = get; url = snapshot_url kw; params = end }
    ∷ record {
      cmd = "get_snapshot_by_name";
      method = get;
      url = project_url kw <> "/snapshots/?Name=" <> print kw.snapshot_name;
      params = end;
    }
    ∷ []

-- `lightos_commands[cmd]`
abbrev pub find_command : String → List Command → Option Command
find_command cmd [] = none
find_command cmd (c ∷ cs) = if str_eq c.cmd cmd then some c else find_command cmd cs

-- `'&'.join("%s=%s" % (k, v) ...)`
joined_params : Fields → String
joined_params end = ""
joined_params (field k v end) = k <> "=" <> print v
joined_params (field k v (field j w fs)) =
    k <> "=" <> print v <> "&" <> joined_params (field j w fs)

-- What is sent: the method, the URL, and the body (`''` for a DELETE, else the parameters).
pub record Request : Type 0 where
  pub method : Method
  pub url : String
  pub body : Json

unfoldable pub request_of : Command → Request
unfolding joined_params
request_of c = elim c.method [
  | delete ↦ record { method = delete; url = c.url <> "?" <> joined_params c.params; body = str "" }
  | get ↦ record { method = get; url = c.url; body = obj c.params }
  | post ↦ record { method = post; url = c.url; body = obj c.params }
  | put ↦ record { method = put; url = c.url; body = obj c.params }
]

-- `_generate_lightos_cmd`; `none` is its UnknownCmd.
unfoldable pub generate_lightos_cmd : String → Kwargs → Option Request
generate_lightos_cmd cmd kw = Option.map request_of (find_command cmd (lightos_commands kw))
