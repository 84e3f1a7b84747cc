-- ===== src/Lightos/Volume/Created.antt =====
-- A volume is reported as created only once the cluster has said that it is available.
use chef_bcpc.Prelude.{◌==◌, String, Bool, true, false, ◌≡◌, refl, arith, if◌then◌else◌}
use chef_bcpc.Json.{Json, null, str, is_text}
use chef_bcpc.Run.{Done, pure, raise, ◌>>=◌, ◌>>◌, volume_backend_api}
use chef_bcpc.Run.Returns.{Gave, bind-Gave, pure-Gave, raise-Gave}
use chef_bcpc.Dynamic.{item}
use chef_bcpc.Lightos.Session.{Env, Session, Action, Reply}
use chef_bcpc.Lightos.Client.Answers.{LastReply}
use chef_bcpc.Lightos.Lookup.{
  Volume, http_not_found, project_name_of, lightos_volname, op_timeout, get_lightos_volume,
  wait_for_volume_available,
}
use chef_bcpc.Lightos.Lookup.Answers.{IsAvailable, wait_for_volume_available-IsAvailable}
use chef_bcpc.Lightos.Volume.{
  conclude_create, finish_create, create_volume_from, create_new_lightos_volume,
  delete_lightos_volume,
}

is_text_iff : (x : String) (v : Json) → is_text x v ≡ true → v ≡ str x
is_text_iff x v h = ground arith

module _ (E : Env) where
  -- The last request on record was answered with status 200 and the state `Available`.
  abbrev pub EndsAvailable : Session E → Type 0
  EndsAvailable t = (reply : Reply) × LastReply E t reply × IsAvailable reply

  clean_up-Gave :
      (b : Bool) (project uuid : Json) (s t : Session E)
      → Gave
          ((if b
              then raise volume_backend_api
              else (delete_lightos_volume E project uuid >> raise volume_backend_api))
            s)
          tt
          t
      → ⊥
  clean_up-Gave true project uuid s t h = raise-Gave volume_backend_api tt s t h
  clean_up-Gave false project uuid s t h =
      let (_, _, g) =
        bind-Gave (delete_lightos_volume E project uuid) (λ _. raise volume_backend_api) s tt t h in
      raise-Gave volume_backend_api tt _ t g

  conclude_if :
      (b : Bool) (project uuid state : Json) (s t : Session E)
      → Gave
          ((if b
              then pure tt
              else (if is_text "UNKNOWN" state
                  then raise volume_backend_api
                  else (delete_lightos_volume E project uuid >> raise volume_backend_api)))
            s)
          tt
          t
      → (b ≡ true) × (s ≡ t)
  conclude_if true project uuid state s t h = (refl, (pure-Gave tt tt s t h).1)
  conclude_if false project uuid state s t h = absurd (clean_up-Gave _ project uuid s t h)

  conclude_create-Gave :
      (project uuid state : Json) (s t : Session E)
      → Gave (conclude_create E project uuid state s) tt t
      → (state ≡ str "Available") × (s ≡ t)
  unfolding conclude_create
  conclude_create-Gave project uuid state s t h =
      let (b, same) = conclude_if (is_text "Available" state) project uuid state s t h in
      (is_text_iff "Available" state b, same)

  finish_if :
      (b : Bool) (m : Action E Done) (s t : Session E)
      → ((u : Session E) → Gave (m u) tt t → EndsAvailable t)
      → Gave ((if b then raise volume_backend_api else m) s) tt t
      → EndsAvailable t
  finish_if true m s t k h = absurd (raise-Gave volume_backend_api tt s t h)
  finish_if false m s t k h = k s h

  finish_create-EndsAvailable :
      (project : Json) (reply : Reply) (s t : Session E)
      → Gave (finish_create E project reply s) tt t
      → EndsAvailable t
  unfolding finish_create
  finish_create-EndsAvailable project (status, resp) s t h = finish_if _ _ s t waited h
    where
      waited :
          (u : Session E)
          → Gave
              ((item "UUID" resp >>= λ uuid. op_timeout E >>= λ timeout.
                  wait_for_volume_available E project timeout uuid null >>= λ state.
                  conclude_create E project uuid state)
                u)
              tt
              t
          → EndsAvailable t
      waited u g =
          let (uuid, _, h1) = bind-Gave (item "UUID" resp) _ u tt t g in
          let (timeout, _, h2) = bind-Gave (op_timeout E) _ _ tt t h1 in
          let (state, e, h3) =
            bind-Gave (wait_for_volume_available E project timeout uuid null) _ _ tt t h2 in
          let (shown, same) = conclude_create-Gave project uuid state _ t h3 in
          wait_for_volume_available-IsAvailable E project timeout uuid null _ t
            (cc (e, shown), same)

  create_if :
      (b : Bool) (volume : Volume) (project : Json) (name : String) (snapshot : Json)
      (found : Reply) (s t : Session E)
      → Gave
          ((if b
              then (create_new_lightos_volume E volume project name snapshot
                  >>= finish_create E project)
              else finish_create E project found)
            s)
          tt
          t
      → EndsAvailable t
  create_if true volume project name snapshot found s t h =
      let (reply, _, g) =
        bind-Gave (create_new_lightos_volume E volume project name snapshot)
          (finish_create E project) s tt t h in
      finish_create-EndsAvailable project reply _ t g
  create_if false volume project name snapshot found s t h =
      finish_create-EndsAvailable project found s t h

  -- Where `_create_volume` returns, for a new volume or for one that it found, the last request on
  -- record was answered with status 200 and a volume in the state `Available`.
  pub create_volume_available :
      (volume : Volume) (snapshot : Json) (s t : Session E)
      → Gave (create_volume_from E volume snapshot s) tt t
      → EndsAvailable t
  unfolding create_volume_from
  create_volume_available volume snapshot s t h =
      let (timeout, _, h1) = bind-Gave (op_timeout E) _ s tt t h in
      let (found, _, h2) =
        bind-Gave
          (get_lightos_volume E (project_name_of volume) timeout null
            (str (lightos_volname E volume)))
          _ _ tt t h1 in
      create_if (found.0 == http_not_found) volume (project_name_of volume)
        (lightos_volname E volume) snapshot found _ t h2
