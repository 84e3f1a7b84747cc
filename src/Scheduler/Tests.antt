-- ===== src/Scheduler/Tests.antt =====
-- The filters on a server group of two zones and on one private volume type.
use chef_bcpc.Prelude.{
  String, String-discrete, true, false, some, List, [], ◌∷◌, ite, ◌≡◌, ◌↔◌, ◌⊎◌, Option, refl,
}
use chef_bcpc.Scheduler.AntiAffinity.{HostState, anti_affinity, host_passes, group_zones}
use chef_bcpc.Scheduler.AntiAffinity.Zones.{
  Placed, nowhere, placed, ZonesApart, Placed-ZonesApart, IsRefused, host_passes-IsRefused, request,
}
use chef_bcpc.Scheduler.AccessFilter.{
  VolumeType, FilterProperties, BackendType, TypeAccess, is_default, backend_passes,
}
use chef_bcpc.Scheduler.AccessFilter.Grants.{IsGranted, backend_passes-IsGranted}

abbrev zone : String → String
zone h = ite (String-discrete h "r1n1") "zone-1" "zone-2"

abbrev idle : String → HostState
idle h = record { host = h; instances = [] }

two-Placed : Placed zone ("r2n1" ∷ "r1n1" ∷ [])
unfolding host_passes group_zones String-discrete
two-Placed =
    placed ("r1n1" ∷ []) "b" (idle "r2n1") (placed [] "a" (idle "r1n1") nowhere refl refl) refl refl

placed_example : ZonesApart zone ("r2n1" ∷ "r1n1" ∷ [])
placed_example = Placed-ZonesApart zone ("r2n1" ∷ "r1n1" ∷ []) two-Placed

host_passes_example :
    (host_passes zone anti_affinity (idle "r3n1") (request zone ("r2n1" ∷ []) "c") ≡ false)
    ↔ IsRefused zone anti_affinity (idle "r3n1") (request zone ("r2n1" ∷ []) "c")
host_passes_example =
    host_passes-IsRefused zone anti_affinity (idle "r3n1") (request zone ("r2n1" ∷ []) "c")

abbrev types : String → Option BackendType
types name = some (record { id = name; is_public = false })

abbrev accesses : String → List TypeAccess
accesses id = record { project_id = "p1" } ∷ []

abbrev default_type : VolumeType
default_type = record { name = some "__DEFAULT__" }

abbrev properties : FilterProperties
properties = record {
  volume_type = some default_type;
  context = some (record { project_id = some "p1" });
}

backend_passes_example :
    (backend_passes types accesses "pool" properties ≡ some true)
    ↔ ((is_default default_type ≡ false) ⊎ IsGranted types accesses "pool" properties)
backend_passes_example = backend_passes-IsGranted types accesses "pool" properties default_type refl
