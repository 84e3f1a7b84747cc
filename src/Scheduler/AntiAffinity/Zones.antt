-- ===== src/Scheduler/AntiAffinity/Zones.antt =====
-- What the anti-affinity filter keeps apart.
use chef_bcpc.Prelude.{
  String, String-discrete, true, false, not, Option, none, some, List, [], ◌∷◌, map, contains,
  contains-distinct, arith, ◌≡◌, refl, ◌↔◌, subst,
}
use chef_bcpc.Scheduler.AntiAffinity.{
  HostState, InstanceGroup, RequestSpec, group_zones, host_passes, anti_affinity, hosts_of,
  policy_of, is_string,
}

module _ (zone : String → String) where
  -- No two of the hosts are in one zone.
  abbrev pub ZonesApart : List String → Type 0
  ZonesApart [] = Unit
  ZonesApart (h ∷ hosts) =
      (contains String-discrete (map zone hosts) (zone h) ≡ false) × ZonesApart hosts

  -- A request for one more instance of a group whose instances are on `hosts`.
  abbrev pub request : List String → String → RequestSpec
  request hosts uuid = record {
    instance_group = some (record { policy = some anti_affinity; hosts = hosts });
    instance_uuid = uuid;
    anti_affinity_policy = some "availability_zone";
  }

  applied :
      (hosts : List String) (uuid : String) (state : HostState)
      → contains String-discrete state.instances uuid ≡ false
      → host_passes zone anti_affinity state (request hosts uuid)
        ≡ not (contains String-discrete (map zone hosts) (zone state.host))
  unfolding host_passes group_zones
  applied hosts uuid state new =
      ground (arith, contains-distinct (zone state.host) (map zone hosts))

  -- The hosts of a group whose instances were placed one after the other, each on a host that passed.
  pub data Placed : List String → Type 0 where
    nowhere : Placed []
    placed :
        (hosts : List String) (uuid : String) (state : HostState)
        → Placed hosts
        → contains String-discrete state.instances uuid ≡ false
        → host_passes zone anti_affinity state (request hosts uuid) ≡ true
        → Placed (state.host ∷ hosts)

  -- The instances of an anti-affinity group that were placed one after the other, each new and on a
  -- host that passed the filter with the hint for availability zones, are all in different zones.
  pub Placed-ZonesApart : (hosts : List String) → Placed hosts → ZonesApart hosts
  Placed-ZonesApart [] nowhere = tt
  Placed-ZonesApart _ (placed hosts uuid state before new passes) =
      (ground (arith, applied hosts uuid state new), Placed-ZonesApart hosts before)

  contains-map :
      (h : String) (hosts : List String)
      → contains String-discrete hosts h ≡ true
      → contains String-discrete (map zone hosts) (zone h) ≡ true
  contains-map h [] c = cc c
  contains-map h (x ∷ hosts) c = ground (arith, contains-map h hosts)

  in_zone :
      (z : String) (hosts : List String)
      → contains String-discrete (map zone hosts) z ≡ true
      → (h : String) × (contains String-discrete hosts h ≡ true) × (zone h ≡ z)
  in_zone z [] c = cc c
  in_zone z (x ∷ hosts) c = elim (String-discrete (zone x) z) [
    | yes e ↦ (x, ground arith, e)
    | no ne ↦ let (h, found, e) = in_zone z hosts (ground arith) in (h, ground arith, e)
  ]

  -- Why a host does not pass.
  pub record IsRefused (policy_name : String) (state : HostState) (spec : RequestSpec)
      : Type 0 where
    pub group : InstanceGroup
    pub has_group : spec.instance_group ≡ some group
    pub has_policy : group.policy ≡ some policy_name
    pub has_hint : spec.anti_affinity_policy ≡ some "availability_zone"
    pub is_new : contains String-discrete state.instances spec.instance_uuid ≡ false
    pub neighbour : String
    pub in_group : contains String-discrete group.hosts neighbour ≡ true
    pub same_zone : zone neighbour ≡ zone state.host

  is_string-some : (s : String) (o : Option String) → is_string s o ≡ true → o ≡ some s
  is_string-some s none h = cc h
  is_string-some s (some t) h = ground arith

  is_string_same : (s : String) → is_string s (some s) ≡ true
  is_string_same s = ground arith

  refused_with :
      (policy_name : String) (state : HostState) (spec : RequestSpec)
      → host_passes zone policy_name state spec ≡ false
      → (is_string policy_name (policy_of spec.instance_group) ≡ true)
        × (is_string "availability_zone" spec.anti_affinity_policy ≡ true)
        × (contains String-discrete state.instances spec.instance_uuid ≡ false)
        × (contains String-discrete (map zone (hosts_of spec.instance_group)) (zone state.host)
            ≡ true)
  unfolding host_passes group_zones
  refused_with policy_name state spec h =
      ground (arith, contains-distinct (zone state.host) (map zone (hosts_of spec.instance_group)))

  failing-IsRefused :
      (policy_name : String) (state : HostState) (o : Option InstanceGroup) (spec : RequestSpec)
      → spec.instance_group ≡ o
      → host_passes zone policy_name state spec ≡ false
      → IsRefused policy_name state spec
  failing-IsRefused policy_name state none spec e h =
      let (p, _, _, _) = refused_with policy_name state spec h in cc (e, p)
  failing-IsRefused policy_name state (some group) spec e h =
      let (p, hint, new, c) = refused_with policy_name state spec h in
      let (n, found, same) = in_zone (zone state.host) group.hosts (
        subst (λ o. contains String-discrete (map zone (hosts_of o)) (zone state.host) ≡ true) e
          c) in
      record {
        group = group;
        has_group = e;
        has_policy =
            is_string-some policy_name group.policy
              (subst (λ o. is_string policy_name (policy_of o) ≡ true) e p);
        has_hint = is_string-some _ _ hint;
        is_new = new;
        neighbour = n;
        in_group = found;
        same_zone = same;
      }

  IsRefused-refused :
      (policy_name : String) (state : HostState) (spec : RequestSpec)
      → IsRefused policy_name state spec
      → host_passes zone policy_name state spec ≡ false
  unfolding host_passes group_zones
  IsRefused-refused policy_name state spec r =
      rw (r.has_group, r.has_policy, r.has_hint, r.is_new, is_string_same)
        (ground (
          arith,
          contains-distinct (zone state.host) (map zone r.group.hosts),
          contains-map r.neighbour r.group.hosts r.in_group,
          r.same_zone,
        ))

  -- A host does not pass exactly if the request is for a group with the filter's policy, it carries
  -- the hint for availability zones, its instance is not on the host already, and an instance of the
  -- group is on a host in the same zone.
  pub host_passes-IsRefused :
      (policy_name : String) (state : HostState) (spec : RequestSpec)
      → (host_passes zone policy_name state spec ≡ false) ↔ IsRefused policy_name state spec
  host_passes-IsRefused policy_name state spec = (
    failing-IsRefused policy_name state spec.instance_group spec refl,
    IsRefused-refused policy_name state spec,
  )
