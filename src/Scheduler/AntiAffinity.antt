-- ===== src/Scheduler/AntiAffinity.antt =====
-- The filter of Nova that keeps the instances of a server group in different availability zones,
-- chef/cookbooks/bcpc/files/default/nova/anti_affinity_availability_zone_filter.py.
pub mod Zones
use chef_bcpc.Prelude.{
  String, String-discrete, Bool, true, false, not, ◌||◌, Option, none, some, List, [], map, ite,
  if◌then◌else◌, contains, distinct,
}

pub record HostState : Type 0 where
  pub host : String
  pub instances : List String

pub record InstanceGroup : Type 0 where
  pub policy : Option String
  pub hosts : List String

-- What the filter reads of a request; `anti_affinity_policy` is the scheduler hint.
pub record RequestSpec : Type 0 where
  pub instance_group : Option InstanceGroup
  pub instance_uuid : String
  pub anti_affinity_policy : Option String

abbrev pub is_string : String → Option String → Bool
is_string s none = false
is_string s (some t) = ite (String-discrete s t) true false

abbrev pub policy_of : Option InstanceGroup → Option String
policy_of none = none
policy_of (some group) = group.policy

abbrev pub hosts_of : Option InstanceGroup → List String
hosts_of none = []
hosts_of (some group) = group.hosts

-- `get_host_availability_zone` is Nova's lookup of the zone of a host.
module _ (get_host_availability_zone : String → String) where
  -- `instance_group_availability_zones`, a set
  unfoldable pub group_zones : RequestSpec → List String
  group_zones spec =
      distinct String-discrete (map get_host_availability_zone (hosts_of spec.instance_group))

  -- `host_passes` of `_AntiAffinityAvailabilityZoneFilter` with its `policy_name`.
  unfoldable pub host_passes : String → HostState → RequestSpec → Bool
  unfolding group_zones
  host_passes policy_name host_state spec =
      if not (is_string policy_name (policy_of spec.instance_group))
        || not (is_string "availability_zone" spec.anti_affinity_policy)
      then true
      else (if contains String-discrete host_state.instances spec.instance_uuid
          then true
          else not (
              contains String-discrete (group_zones spec)
                (get_host_availability_zone host_state.host)))

-- `AntiAffinityAvailabilityZoneFilter`
abbrev pub anti_affinity : String
anti_affinity = "anti-affinity"
