-- ===== src/Inventory/Licenses.antt =====
-- The filters on licenses and roles: ansible/playbooks/roles/headnode/filter_plugins/util.py and
-- ansible/playbooks/roles/haproxy/filter_plugins/utils.py. The order in which Python lists a set is
-- the parameter `listing`. `host.get("licenses")` is an option, and names are texts.
pub mod Parted
pub mod Roles
use chef_bcpc.Prelude.{
  String, String-discrete, ◌<>◌, Bool, true, false, not, ◌||◌, Option, none, some, List, [], ◌∷◌,
  map, keep_if, contains, distinct, if◌then◌else◌,
}
use chef_bcpc.Json.{Json, is_text}
use chef_bcpc.Run.{Exec, pure, or_raise, ◌>>=◌, key_error}
use chef_bcpc.Dict.{Dict, find}
use chef_bcpc.Dynamic.{item, iterate}

-- `separator.join(texts)`
abbrev pub join : String → List String → String
join separator [] = ""
join separator (t ∷ []) = t
join separator (t ∷ u ∷ texts) = t <> separator <> join separator (u ∷ texts)

-- `table.values()` and `table.keys()`
abbrev pub values_of : {V : Type 0} → Dict V → List V
values_of [] = []
values_of ((k, v) ∷ d) = v ∷ values_of d

abbrev pub keys_of : {V : Type 0} → Dict V → List String
keys_of [] = []
keys_of ((k, v) ∷ d) = k ∷ keys_of d

abbrev pub has_role : String → List Json → Bool
has_role chef_role [] = false
has_role chef_role (role ∷ roles) = is_text chef_role role || has_role chef_role roles

module _ {S : Type 0} where
  -- The loops that look a license up in a table.
  unfoldable pub look_up : Dict String → List String → Exec S (List String)
  look_up table [] = pure []
  look_up table (license ∷ licenses) = do
    value ← or_raise key_error (find license table)
    rest ← look_up table licenses
    pure (value ∷ rest)

  -- `get_host_traits`
  unfoldable pub get_host_traits : Option (List String) → Dict String → Exec S String
  get_host_traits none license_traits = pure ""
  get_host_traits (some licenses) license_traits = do
    host_traits ← look_up license_traits licenses
    pure (join " " (map (λ s. "--trait " <> s) host_traits))

  -- `host_aggregates`, empty for a host without licenses
  unfoldable pub host_aggregates : Option (List String) → Dict String → Exec S (List String)
  host_aggregates none license_aggregate = pure []
  host_aggregates (some licenses) license_aggregate = look_up license_aggregate licenses

  -- `get_aggregates_to_add_host`
  unfoldable pub get_aggregates_to_add_host : Option (List String) → Dict String → Exec S String
  get_aggregates_to_add_host licenses license_aggregate = do
    aggregates ← host_aggregates licenses license_aggregate
    pure (join " " aggregates)

  -- The hosts with the role, each as often as it is listed.
  unfoldable pub hosts_with_role : List String → Json → String → Exec S (List String)
  hosts_with_role [] host_variables chef_role = pure []
  hosts_with_role (host ∷ hosts) host_variables chef_role = do
    variables ← item host host_variables
    run_list ← item "run_list" variables
    roles ← iterate run_list
    rest ← hosts_with_role hosts host_variables chef_role
    pure (if has_role chef_role roles then host ∷ rest else rest)

  module _ (listing : List String → List String) where
    -- The aggregates of the licenses that the host has not.
    unfoldable pub other_aggregates : Option (List String) → Dict String → Exec S (List String)
    other_aggregates none license_aggregate = pure (values_of license_aggregate)
    other_aggregates (some licenses) license_aggregate = look_up license_aggregate (
        listing
          (keep_if (λ l. not (contains String-discrete licenses l)) (keys_of license_aggregate)))

    -- `get_aggregates_to_remove_host`
    unfoldable pub get_aggregates_to_remove_host :
        Option (List String) → Dict String → Exec S String
    get_aggregates_to_remove_host licenses license_aggregate = do
      aggregates ← other_aggregates licenses license_aggregate
      pure (join " " aggregates)

    -- `get_hosts_chef_role`
    unfoldable pub get_hosts_chef_role : List String → Json → String → Exec S (List String)
    get_hosts_chef_role hosts host_variables chef_role = do
      found ← hosts_with_role hosts host_variables ("role[" <> chef_role <> "]")
      pure (listing (distinct String-discrete found))
