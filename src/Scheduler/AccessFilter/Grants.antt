-- ===== src/Scheduler/AccessFilter/Grants.antt =====
-- Which backends pass for a volume of the default type.
use chef_bcpc.Prelude.{
  String, true, false, Option, none, some, List, [], ◌∷◌, length, keep_if, arith, ◌≡◌, ◌↔◌, refl, ℕ,
  ltb, Bool-cases, inl, inr, ◌⊎◌, ap,
}
use chef_bcpc.Scheduler.AccessFilter.{
  VolumeType, FilterProperties, BackendType, TypeAccess, same, is_default, project_of, is_found,
  type_passes, default_passes, backend_passes,
}

-- Some entry of the list is for the project.
pub data HasAccess (project : String) : List TypeAccess → Type 0 where
  here :
      (accesses : List TypeAccess) (a : TypeAccess)
      → a.project_id ≡ project
      → HasAccess project (a ∷ accesses)
  there :
      (accesses : List TypeAccess) (a : TypeAccess)
      → HasAccess project accesses
      → HasAccess project (a ∷ accesses)

abbrev matching : String → List TypeAccess → ℕ
matching project accesses = length (keep_if (λ access. same access.project_id project) accesses)

same-eq : (a b : String) → same a b ≡ true → a ≡ b
same-eq a b h = ground arith

eq-same : (a b : String) → a ≡ b → same a b ≡ true
eq-same a b h = ground arith

matching-HasAccess :
    (project : String) (accesses : List TypeAccess)
    → ltb 0 (matching project accesses) ≡ true
    → HasAccess project accesses
matching-HasAccess project [] h = cc h
matching-HasAccess project (a ∷ accesses) h = elim (Bool-cases (same a.project_id project)) [
  | inl yes_same ↦ here accesses a (same-eq a.project_id project yes_same)
  | inr other ↦ there accesses a (matching-HasAccess project accesses (ground arith))
]

HasAccess-matching :
    (project : String) (accesses : List TypeAccess)
    → HasAccess project accesses
    → ltb 0 (matching project accesses) ≡ true
HasAccess-matching project _ (here accesses a e) = ground (arith, eq-same a.project_id project e)
HasAccess-matching project _ (there accesses a h) =
    ground (arith, HasAccess-matching project accesses h)

module _ (get_all_types : String → Option BackendType)
    (volume_type_access_get_all : String → List TypeAccess) where
  -- The request names a project, the backend's name is that of a private volume type, and the
  -- project has access to it.
  pub record IsGranted (pool_name : String) (properties : FilterProperties) : Type 0 where
    pub project : String
    pub has_project : project_of properties.context ≡ some project
    pub info : BackendType
    pub has_type : get_all_types pool_name ≡ some info
    pub is_private : info.is_public ≡ false
    pub has_access : HasAccess project (volume_type_access_get_all info.id)

  type_passes-found :
      (project : String) (o : Option BackendType)
      → type_passes get_all_types volume_type_access_get_all project o ≡ true
      → (info : BackendType) × (o ≡ some info)
        × (info.is_public ≡ false)
        × HasAccess project (volume_type_access_get_all info.id)
  unfolding is_found
  type_passes-found project none h = cc h
  type_passes-found project (some info) h = elim (Bool-cases info.is_public) [
    | inl open_type ↦ absurd (ground arith)
    | inr private ↦ (
      info,
      refl,
      private,
      matching-HasAccess project (volume_type_access_get_all info.id) (ground arith),
    )
  ]

  default_passes-IsGranted :
      (pool_name : String) (properties : FilterProperties) (o : Option String)
      → project_of properties.context ≡ o
      → default_passes get_all_types volume_type_access_get_all pool_name o ≡ true
      → IsGranted pool_name properties
  default_passes-IsGranted pool_name properties none e h = cc h
  default_passes-IsGranted pool_name properties (some project) e h =
      let (info, has_type, private, access) =
        type_passes-found project (get_all_types pool_name) h in
      record {
        project = project;
        has_project = e;
        info = info;
        has_type = has_type;
        is_private = private;
        has_access = access;
      }

  IsGranted-passes :
      (pool_name : String) (properties : FilterProperties)
      → IsGranted pool_name properties
      → default_passes get_all_types volume_type_access_get_all pool_name
          (project_of properties.context)
        ≡ true
  unfolding is_found
  IsGranted-passes pool_name properties g =
      rw (g.has_project, g.has_type, g.is_private)
        (HasAccess-matching g.project (volume_type_access_get_all g.info.id) g.has_access)

  backend_passes_default :
      (pool_name : String) (properties : FilterProperties) (vt : VolumeType)
      → properties.volume_type ≡ some vt
      → is_default vt ≡ true
      → backend_passes get_all_types volume_type_access_get_all pool_name properties
        ≡ some (
            default_passes get_all_types volume_type_access_get_all pool_name
              (project_of properties.context))
  unfolding backend_passes
  backend_passes_default pool_name properties vt e d = rw (e, d) refl

  backend_passes_named :
      (pool_name : String) (properties : FilterProperties) (vt : VolumeType)
      → properties.volume_type ≡ some vt
      → is_default vt ≡ false
      → backend_passes get_all_types volume_type_access_get_all pool_name properties ≡ some true
  unfolding backend_passes
  backend_passes_named pool_name properties vt e d = rw (e, d) refl

  -- A backend passes for a request with a volume type exactly if the type is not the default one or
  -- the request's project has access to the private volume type that the backend is named for.
  pub backend_passes-IsGranted :
      (pool_name : String) (properties : FilterProperties) (vt : VolumeType)
      → properties.volume_type ≡ some vt
      → (backend_passes get_all_types volume_type_access_get_all pool_name properties ≡ some true)
        ↔ ((is_default vt ≡ false) ⊎ IsGranted pool_name properties)
  backend_passes-IsGranted pool_name properties vt e = elim (Bool-cases (is_default vt)) [
    | inl default_type ↦ rw (backend_passes_default pool_name properties vt e default_type) (
      λ h. inr (
          default_passes-IsGranted pool_name properties (project_of properties.context) refl
            (cc h)),
      λ c. elim c [
        | inl named ↦ cc (default_type, named)
        | inr g ↦ ap some (IsGranted-passes pool_name properties g)
      ],
    )
    | inr named ↦ (λ h. inl named, λ c. backend_passes_named pool_name properties vt e named)
  ]
