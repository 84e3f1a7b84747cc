-- ===== src/Inventory/Filters.antt =====
-- The filters of ansible/playbooks/roles/common/filter_plugins/util.py that read the variables of a
-- host, as decoded YAML.
pub mod Chef
pub mod Interfaces
use chef_bcpc.Prelude.{
  String, ◌<>◌, Bool, true, false, ◌||◌, Option, none, some, List, [], ◌∷◌, if◌then◌else◌,
  print_nat, not,
}
use chef_bcpc.Json.{
  Json, null, bool, num, str, arr, obj, Items, nil, cons, Fields, end, field, is_text, print,
  truthy, of_list,
}
use chef_bcpc.Run.{
  Exec, pure, raise, or_raise, ◌>>=◌, index_error, type_error, attribute_error, value_error,
}
use chef_bcpc.Dynamic.{item, get, iterate, has_key, put}

-- `value is True`
abbrev pub is_true : Json → Bool
is_true (bool b) = b
is_true _ = false

-- `is_host_multipath_enabled`, its loop over the run list
unfoldable pub has_multipath : List Json → Bool
has_multipath [] = false
has_multipath (role ∷ roles) =
    (is_text "role[worknode]" role || is_text "role[headnode]" role) || has_multipath roles

-- `[...][0]`
abbrev pub first_of : List Json → Option Json
first_of [] = none
first_of (x ∷ xs) = some x

abbrev pub openrc : Json → Json → Json → Json
openrc password fqdn region = obj (
    field "OS_PROJECT_DOMAIN_ID" (str "default") (
      field "OS_USER_DOMAIN_ID" (str "default") (
        field "OS_PROJECT_NAME" (str "admin") (
          field "OS_USERNAME" (str "admin") (
            field "OS_PASSWORD" password (
              field "OS_AUTH_URL" (str ("https://" <> print fqdn <> ":35357/v3")) (
                field "OS_REGION_NAME" region (
                  field "OS_IDENTITY_API_VERSION" (num 3)
                    (field "OS_VOLUME_API_VERSION" (num 3) end)))))))))

-- `etcdnode_to_cnames`, on the entries of `etcd_hosts`
unfoldable pub etcdnode_to_cnames : Fields → Json → Fields → Fields
etcdnode_to_cnames end domain cnames = cnames
etcdnode_to_cnames (field host index hosts) domain cnames =
    etcdnode_to_cnames hosts domain
      (put host (str ("etcdnode-" <> print index <> "." <> print domain)) cnames)

module _ {S : Type 0} where
  -- `value[key] = new`
  unfoldable pub set_item : String → Json → Json → Exec S Json
  set_item k new (obj fields) = pure (obj (put k new fields))
  set_item k new null = raise type_error
  set_item k new (bool b) = raise type_error
  set_item k new (num n) = raise type_error
  set_item k new (str s) = raise type_error
  set_item k new (arr items) = raise type_error

  -- `find_asset`
  unfoldable pub find_asset : String → List Json → Exec S Json
  find_asset asset_to_find [] = raise value_error
  find_asset asset_to_find (asset ∷ assets) = do
    name ← item "name" asset
    if is_text asset_to_find name then pure asset else find_asset asset_to_find assets

  unfoldable pub is_host_multipath_enabled : Json → Exec S Bool
  is_host_multipath_enabled host_variables = do
    run_list ← item "run_list" host_variables
    roles ← iterate run_list
    pure (has_multipath roles)

  -- The data bags whose `id` is `config`.
  unfoldable pub config_bags : List Json → Exec S (List Json)
  config_bags [] = pure []
  config_bags (databag ∷ databags) = do
    id ← item "id" databag
    rest ← config_bags databags
    pure (if is_text "config" id then databag ∷ rest else rest)

  -- `osadmin`
  unfoldable pub osadmin : Json → Exec S Json
  osadmin cloud_vars = do
    chef ← item "chef" cloud_vars
    cloud ← item "cloud" cloud_vars
    databags ← item "databags" chef
    bags ← iterate databags
    configs ← config_bags bags
    config ← or_raise index_error (first_of configs)
    openstack ← item "openstack" config
    admin ← item "admin" openstack
    password ← item "password" admin
    region ← item "region" cloud
    fqdn ← item "fqdn" cloud
    pure (openrc password fqdn region)
