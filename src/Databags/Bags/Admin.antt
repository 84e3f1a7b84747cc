-- ===== src/Databags/Bags/Admin.antt =====
-- What Ansible reads of the data bags: the password of the administrator.
use chef_bcpc.Prelude.{String, String-discrete, List, [], ◌∷◌, ◌≡◌, refl, sym, subst, ◌∙◌, ap}
use chef_bcpc.Json.{Json, Json-discrete, str, arr, obj, nil, cons, Fields, end, field}
use chef_bcpc.Run.{ok, pure, or_raise, ◌>>=◌}
use chef_bcpc.Run.Returns.{Gave, bind-Gave, pure-Gave}
use chef_bcpc.Databags.{Source, Draw, dict_fields, dict, text, password}
use chef_bcpc.Databags.Bags.{with_password, config_rest, config, zones, generate}
use chef_bcpc.Databags.Bags.Passwords.{IsPassword, IsChoosing, Sound, generate-Sound}
use chef_bcpc.Inventory.Filters.{osadmin, openrc, config_bags}
use chef_bcpc.Dynamic.{item, iterate}

-- The variables of the cloud as ansible/playbooks/roles/common/defaults/main/base.yml combines them.
abbrev pub cloud_vars : Json → Json → Json → Json
cloud_vars databags fqdn region = obj (
    field "chef" (obj (field "databags" databags end))
      (field "cloud" (obj (field "fqdn" fqdn (field "region" region end))) end))

-- The two data bags, as far as `osadmin` reads them.
abbrev shape : Json → Fields → Fields → Json
shape secret rest zone_fields = arr (
    cons
      (obj (
        field "id" (str "config")
          (field "openstack" (obj (field "admin" (obj (field "password" secret end)) end)) rest)))
      (cons (obj (field "id" (str "zones") zone_fields)) nil))

osadmin-shape :
    {S : Type 0} (secret fqdn region : Json) (rest zone_fields : Fields) (s : S)
    → osadmin (cloud_vars (shape secret rest zone_fields) fqdn region) s
      ≡ (ok (openrc secret fqdn region), s)
unfolding osadmin item iterate config_bags or_raise pure ◌>>=◌ Json-discrete String-discrete
osadmin-shape secret fqdn region rest zone_fields s = refl

module _ (S : Source) where
  dict_fields-cons :
      (k : String) (m : Draw S Json) (entries : List (String × Draw S Json)) (s : S.World)
      (fields : Fields) (t : S.World)
      → Gave (dict_fields S ((k, m) ∷ entries) s) fields t
      → (v : Json) × (rest : Fields) × ((m s).0 ≡ ok v)
        × (fields ≡ field k v rest)
        × Gave (dict_fields S entries ((m s).1)) rest ((dict_fields S entries ((m s).1)).1)
  unfolding dict_fields
  dict_fields-cons k m entries s fields t h =
      let (v, ev, h1) = bind-Gave m _ s fields t h in
      let (rest, er, h2) = bind-Gave (dict_fields S entries) _ _ fields t h1 in
      (v, rest, ev, sym ((pure-Gave (field k v rest) fields _ t h2).0), (er, refl))

  dict-Gave :
      (entries : List (String × Draw S Json)) (s : S.World) (v : Json) (t : S.World)
      → Gave (dict S entries s) v t
      → (fields : Fields) × (v ≡ obj fields)
        × Gave (dict_fields S entries s) fields ((dict_fields S entries s).1)
  unfolding dict
  dict-Gave entries s v t h =
      let (fields, e, h1) = bind-Gave (dict_fields S entries) _ s v t h in
      (fields, sym ((pure-Gave (obj fields) v _ t h1).0), (e, refl))

  -- A bag whose one entry is of the given kind.
  singleton :
      (k : String) (m : Draw S Json) (s : S.World) (v : Json) (t : S.World)
      → Gave (dict S ((k, m) ∷ []) s) v t
      → (w : Json) × (v ≡ obj (field k w end)) × ((m s).0 ≡ ok w)
  unfolding dict_fields
  singleton k m s v t h =
      let (fields, e, h1) = dict-Gave ((k, m) ∷ []) s v t h in
      let (w, rest, ew, f, h2) = dict_fields-cons k m [] s fields _ h1 in
      (w, e ∙ ap obj (f ∙ ap (field k w) (sym ((pure-Gave end rest _ _ h2).0))), ew)

  admin_of :
      (s : S.World) (v : Json) (t : S.World)
      → Gave (dict S (("admin", with_password S) ∷ []) s) v t
      → (secret : Json) × (v ≡ obj (field "admin" (obj (field "password" secret end)) end))
  admin_of s v t h =
      let (a, e, ea) = singleton "admin" (with_password S) s v t h in
      let (secret, f, _) = singleton "password" (password S) s a _ (ea, refl) in
      (secret, e ∙ ap (λ x. obj (field "admin" x end)) f)

  config_of :
      (s : S.World) (v : Json) (t : S.World)
      → Gave (config S s) v t
      → (secret : Json) × (rest : Fields) × (v
          ≡ obj (
              field "id" (str "config") (
                field "openstack"
                  (obj (field "admin" (obj (field "password" secret end)) end))
                  rest)))
  unfolding config
  config_of s v t h =
      let (fields, e, h1) = dict-Gave _ s v t h in
      let (id, rest1, eid, f1, h2) = dict_fields-cons "id" (text S "config") _ s fields _ h1 in
      let (o, rest2, eo, f2, _) =
        dict_fields-cons "openstack" (dict S (("admin", with_password S) ∷ [])) (config_rest S) _
          rest1 _ h2 in
      let (secret, g) = admin_of _ o _ (eo, refl) in
      let id_text = (pure-Gave (str "config") id s _ (eid, refl)).0 in
      (secret, rest2, joined v fields rest1 id o rest2 secret e f1 f2 id_text g)
    where
      joined :
          (v : Json) (fields rest1 : Fields) (id o : Json) (rest2 : Fields) (secret : Json)
          → v ≡ obj fields
          → fields ≡ field "id" id rest1
          → rest1 ≡ field "openstack" o rest2
          → str "config" ≡ id
          → o ≡ obj (field "admin" (obj (field "password" secret end)) end)
          → v
            ≡ obj (
                field "id" (str "config") (
                  field "openstack"
                    (obj (field "admin" (obj (field "password" secret end)) end))
                    rest2))
      joined v fields rest1 id o rest2 secret e f1 f2 i g = cc (e, f1, f2, i, g)

  zones_of :
      (s : S.World) (v : Json) (t : S.World)
      → Gave (zones S s) v t
      → (rest : Fields) × (v ≡ obj (field "id" (str "zones") rest))
  unfolding zones
  zones_of s v t h =
      let (fields, e, h1) = dict-Gave _ s v t h in
      let (id, rest, eid, f, _) = dict_fields-cons "id" (text S "zones") _ s fields _ h1 in
      (
        rest,
        e
            ∙ ap obj (
                f
                ∙ ap (λ i. field "id" i rest)
                    (sym ((pure-Gave (str "zones") id s _ (eid, refl)).0))),
      )

  generated :
      (w v : S.World) (bags : Json)
      → Gave (generate S w) bags v
      → (secret : Json) × (rest : Fields) × (zone_fields : Fields) × (bags
          ≡ obj (field "chef_databags" (shape secret rest zone_fields) end))
  unfolding generate
  generated w v bags h =
      let (c, ec, h1) = bind-Gave (config S) _ w bags v h in
      let (z, ez, h2) = bind-Gave (zones S) _ _ bags v h1 in
      let (secret, rest, e) = config_of w c _ (ec, refl) in
      let (zone_fields, f) = zones_of _ z _ (ez, refl) in
      (
        secret,
        rest,
        zone_fields,
        joined c z secret rest zone_fields e f ((pure-Gave _ bags _ v h2).0),
      )
    where
      joined :
          (c z secret : Json) (rest zone_fields : Fields)
          → c
            ≡ obj (
                field "id" (str "config") (
                  field "openstack"
                    (obj (field "admin" (obj (field "password" secret end)) end))
                    rest))
          → z ≡ obj (field "id" (str "zones") zone_fields)
          → obj (field "chef_databags" (arr (cons c (cons z nil))) end) ≡ bags
          → bags ≡ obj (field "chef_databags" (shape secret rest zone_fields) end)
      joined c z secret rest zone_fields e f b = cc (e, f, b)

  Sound-secret :
      (secret : Json) (rest zone_fields : Fields)
      → Sound (obj (field "chef_databags" (shape secret rest zone_fields) end))
      → IsPassword secret
  unfolding Sound
  Sound-secret secret rest zone_fields h = h.1.0.2.1.1.0

  -- Whatever data bags `generate` returns, `osadmin` finds in them, among the variables of a cloud
  -- with any name and region, the credentials of the administrator, and their password is a text of
  -- 32 ASCII letters where `secrets.choice` gives one of the letters it was given.
  pub osadmin-generate :
      (w v : S.World) (bags fqdn region : Json)
      → IsChoosing S
      → Gave (generate S w) bags v
      → (databags : Json) × (secret : Json) × (bags ≡ obj (field "chef_databags" databags end))
        × (osadmin (cloud_vars databags fqdn region) w ≡ (ok (openrc secret fqdn region), w))
        × IsPassword secret
  osadmin-generate w v bags fqdn region choosing h =
      let (secret, rest, zone_fields, e) = generated w v bags h in
      (
        shape secret rest zone_fields,
        secret,
        e,
        osadmin-shape secret fqdn region rest zone_fields w,
        Sound-secret secret rest zone_fields (subst Sound e (generate-Sound S choosing w v bags h)),
      )
