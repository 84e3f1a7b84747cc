-- ===== src/Databags/Bags.antt =====
-- The data bags themselves, `generate`, and `save`.
pub mod Passwords
pub mod Admin
pub mod Saved
pub mod Steady
use chef_bcpc.Prelude.{String, ◌<>◌, Bool, not, ◌&&◌, List, [], ◌∷◌, if◌then◌else◌}
use chef_bcpc.Json.{Json, null, str, arr, nil, cons, Fields, end, field, obj}
use chef_bcpc.Run.{Done, pure, raise, gets, modify, ◌>>=◌, ◌>>◌, file_exists_error}
use chef_bcpc.Databags.{Source, Draw, dict, text, password, generate_uuid}
use chef_bcpc.Databags.Codec.{generate_ceph_key, generate_fernet}

module _ (S : Source) where
  -- `'username': name, 'password': self.generate_string()`
  abbrev pub account : String → Draw S Json
  account name = dict S (("username", text S name) ∷ ("password", password S) ∷ [])

  abbrev pub with_key : Draw S Json → Draw S Json
  with_key m = dict S (("key", m) ∷ [])

  abbrev pub with_password : Draw S Json
  with_password = dict S (("password", password S) ∷ [])

  abbrev pub with_secret : Draw S Json → Draw S Json
  with_secret m = dict S (("secret", m) ∷ [])

  -- The accounts of an OpenStack service: its database user and its user of the cloud.
  abbrev pub service : String → Draw S Json
  service name = dict S (("creds", dict S (("db", account name) ∷ ("os", account name) ∷ [])) ∷ [])

  abbrev pub pair : String → String → Draw S Json
  pair crt key = dict S (("crt", text S crt) ∷ ("key", text S key) ∷ [])

  unfoldable pub ceph : Draw S Json
  ceph = dict S (
      ("fsid", (generate_uuid S >>= λ s. pure (str s)))
      ∷ ("mon", with_key (generate_ceph_key S))
      ∷ (
        "bootstrap",
        dict S (
            ("mds", with_key (generate_ceph_key S))
            ∷ ("mgr", with_key (generate_ceph_key S))
            ∷ ("osd", with_key (generate_ceph_key S))
            ∷ ("rgw", with_key (generate_ceph_key S))
            ∷ ("rbd", with_key (generate_ceph_key S))
            ∷ []),
      )
      ∷ (
        "client",
        dict S (
            ("admin", with_key (generate_ceph_key S))
            ∷ ("cinder", with_key (generate_ceph_key S))
            ∷ ("glance", with_key (generate_ceph_key S))
            ∷ []),
      )
      ∷ [])

  abbrev pub etcd_users : Draw S Json
  etcd_users = do
    root ← account "root"
    server ← account "server"
    client_ro ← account "client-ro"
    client_rw ← account "client-rw"
    pure (arr (cons root (cons server (cons client_ro (cons client_rw nil)))))

  unfoldable pub etcd : Draw S Json
  etcd = dict S (
      ("users", etcd_users)
      ∷ (
        "ssl",
        dict S (
            ("ca", pair S.certificates.ca_crt S.certificates.ca_key)
            ∷ ("server", pair S.certificates.server_crt S.certificates.server_key)
            ∷ ("client-ro", pair S.certificates.client_ro_crt S.certificates.client_ro_key)
            ∷ ("client-rw", pair S.certificates.client_rw_crt S.certificates.client_rw_key)
            ∷ []),
      )
      ∷ [])

  unfoldable pub powerdns : Draw S Json
  powerdns = dict S (
      (
        "creds",
        dict S (
            ("db", account "pdns")
            ∷ ("webserver", with_password)
            ∷ ("api", with_key (password S))
            ∷ []),
      )
      ∷ [])

  unfoldable pub proxysql : Draw S Json
  proxysql = dict S (
      (
        "creds",
        dict S (
            ("db", account "psql_monitor")
            ∷ ("admin", account "psql_admin")
            ∷ ("stats", account "psql_stats")
            ∷ []),
      )
      ∷ [])

  unfoldable pub keystone : Draw S Json
  keystone = dict S (
      ("db", account "keystone")
      ∷ (
        "fernet",
        dict S (
            (
              "keys",
              dict S (
                  ("primary", generate_fernet S)
                  ∷ ("secondary", generate_fernet S)
                  ∷ ("staged", generate_fernet S)
                  ∷ []),
            )
            ∷ []),
      )
      ∷ [])

  unfoldable pub nova : Draw S Json
  nova = dict S (
      ("creds", dict S (("db", account "nova") ∷ ("os", account "nova") ∷ []))
      ∷ ("ssh", pair S.certificates.nova_ssh_public S.certificates.nova_ssh_private)
      ∷ [])

  unfoldable pub mysql : Draw S Json
  mysql = dict S (
      (
        "users",
        dict S (("sst", with_password) ∷ ("root", with_password) ∷ ("check", with_password) ∷ []),
      )
      ∷ [])

  unfoldable pub rabbit : Draw S Json
  rabbit =
      dict S (("username", text S "guest") ∷ ("password", password S) ∷ ("cookie", password S) ∷ [])

  unfoldable pub ssl : Draw S Json
  ssl = dict S (
      ("key", text S S.certificates.api_key)
      ∷ ("crt", text S S.certificates.api_crt)
      ∷ ("intermediate", pure null)
      ∷ [])

  -- The entries of `config` after the first two.
  abbrev pub config_rest : List (String × Draw S Json)
  config_rest =
      ("apache", dict S (("status", account "apache_status") ∷ []))
      ∷ ("ceph", ceph)
      ∷ ("etcd", etcd)
      ∷ ("powerdns", powerdns)
      ∷ ("proxysql", proxysql)
      ∷ ("keystone", keystone)
      ∷ ("glance", service "glance")
      ∷ ("cinder", service "cinder")
      ∷ ("heat", service "heat")
      ∷ ("horizon", with_secret (password S))
      ∷ ("libvirt", with_secret (generate_uuid S >>= λ s. pure (str s)))
      ∷ ("neutron", service "neutron")
      ∷ ("nova", nova)
      ∷ ("placement", service "placement")
      ∷ ("mysql", mysql)
      ∷ ("rabbit", rabbit)
      ∷ ("haproxy", account "haproxy")
      ∷ (
        "ssh",
        dict S (
            ("public", text S S.certificates.ssh_public)
            ∷ ("private", text S S.certificates.ssh_private)
            ∷ []),
      )
      ∷ ("ssl", ssl)
      ∷ ("watcher", service "watcher")
      ∷ []

  unfoldable pub config : Draw S Json
  config = dict S (
      ("id", text S "config") ∷ ("openstack", dict S (("admin", with_password) ∷ [])) ∷ config_rest)

  unfoldable pub zones : Draw S Json
  zones = dict S (
      ("id", text S "zones")
      ∷ (
        "dev",
        dict S (
            (
              "ceph",
              dict S (("client", dict S (("cinder", with_key (generate_ceph_key S)) ∷ [])) ∷ []),
            )
            ∷ ("libvirt", with_secret (generate_uuid S >>= λ s. pure (str s)))
            ∷ []),
      )
      ∷ [])

  unfoldable pub generate : Draw S Json
  generate = do
    config_bag ← config
    zones_bag ← zones
    pure (obj (field "chef_databags" (arr (cons config_bag (cons zones_bag nil))) end))

  -- `fp`
  abbrev pub databags_path : S.World → String
  databags_path w = S.toplevel w <> "/ansible/group_vars/all/chef_databags.yml"

  -- `open(fp, 'w')` empties the file before the data bags are made.
  unfoldable pub write : String → Draw S Done
  write path = do modify (S.truncate path); bags ← generate; modify (S.dump path bags)

  unfoldable pub save : Bool → Draw S Done
  save force = do
    path ← gets databags_path
    exists ← gets (S.is_file path)
    if exists && not force then raise file_exists_error else write path
