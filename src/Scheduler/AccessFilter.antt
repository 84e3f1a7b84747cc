-- ===== src/Scheduler/AccessFilter.antt =====
-- The filter of Cinder for volumes of the default type, which lets a backend pass whose private
-- volume type the project may use, chef/cookbooks/bcpc/files/default/cinder/access_filter.py.
pub mod Grants
use chef_bcpc.Prelude.{
  String, String-discrete, Bool, true, false, not, Option, none, some, List, keep_if, length, ltb,
  ite, if◌then◌else◌,
}

-- The name of the volume type of a request, if it has one.
pub record VolumeType : Type 0 where
  pub name : Option String

-- `project_id` is `none` too where the context has no such attribute.
pub record RequestContext : Type 0 where
  pub project_id : Option String

pub record FilterProperties : Type 0 where
  pub volume_type : Option VolumeType
  pub context : Option RequestContext

-- What the filter reads of a volume type of the backend.
pub record BackendType : Type 0 where
  pub id : String
  pub is_public : Bool

-- A project that may use a volume type.
pub record TypeAccess : Type 0 where
  pub project_id : String

abbrev pub same : String → String → Bool
same a b = ite (String-discrete a b) true false

abbrev pub is_default : VolumeType → Bool
is_default vt = elim vt.name [ none ↦ false | some name ↦ same name "__DEFAULT__" ]

abbrev pub project_of : Option RequestContext → Option String
project_of none = none
project_of (some context) = context.project_id

-- `get_all_types` is `volume_types.get_all_types(...)` as a dictionary by name, and
-- `volume_type_access_get_all` the table of the database.
module _ (get_all_types : String → Option BackendType)
    (volume_type_access_get_all : String → List TypeAccess) where
  unfoldable pub is_found : String → BackendType → Bool
  is_found project_id info = ltb 0 (
      length (
        keep_if (λ access. same access.project_id project_id) (volume_type_access_get_all info.id)))

  abbrev pub type_passes : String → Option BackendType → Bool
  type_passes project_id none = false
  type_passes project_id (some info) = if info.is_public then false else is_found project_id info

  -- `backend_passes` for a volume of the default type, from the request context on.
  abbrev pub default_passes : String → Option String → Bool
  default_passes pool_name none = false
  default_passes pool_name (some project_id) = type_passes project_id (get_all_types pool_name)

  -- `backend_passes` by the pool name of the backend; `none` is the AttributeError of a request
  -- without a volume type.
  unfoldable pub backend_passes : String → FilterProperties → Option Bool
  backend_passes pool_name properties = elim properties.volume_type [
    | none ↦ none
    | some vt ↦ some (
        if not (is_default vt)
        then true
        else default_passes pool_name (project_of properties.context))
  ]
