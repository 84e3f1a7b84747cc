-- ===== src/ServerMetadata/Stored.antt =====
-- What `create` stores, `show` gives back.
use chef_bcpc.Prelude.{
  String, Bool, true, false, not, Option, none, some, [], ◌∷◌, ◌≡◌, refl, if◌then◌else◌, ap,
}
use chef_bcpc.Dict.{find, update, IsDict, find-update}
use chef_bcpc.ServerMetadata.{
  Metadata, Instance, Nova, Response, answer, forbidden, conflict, not_found, saved, with_server,
  update_instance_system_metadata, create, show,
}
use chef_bcpc.ServerMetadata.Updates.{is_success}

module _ (N : Nova) where
  -- What `show` needs of Nova: an instance that was saved is found again, with its metadata.
  pub record IsStore : Type 0 where
    pub found_again :
        (server_id : String) (server : Instance) (m : Metadata) (db db' : N.Db)
        → N.get_instance server_id db ≡ some server
        → N.save (record server { system_metadata = m }) db ≡ some db'
        → N.get_instance server_id db' ≡ some (record server { system_metadata = m })
    pub stored :
        (server : Instance) (db db' : N.Db)
        → N.save server db ≡ some db'
        → N.instance_system_metadata_get server.uuid db' ≡ some server.system_metadata

  not_error :
      (e : Response) (db db' : N.Db) (m : Metadata)
      → is_success e ≡ false
      → ◌≡◌ {A = Response × N.Db} (e, db) (answer m, db')
      → ⊥
  not_error e db db' m f h = cc (f, ap (λ r. is_success (r.0)) h)

  allowed :
      (b : Bool) (e : Response) (x : Response × N.Db) (db db' : N.Db) (m : Metadata)
      → is_success e ≡ false
      → (if b then x else (e, db)) ≡ (answer m, db')
      → x ≡ (answer m, db')
  allowed true e x db db' m f h = h
  allowed false e x db db' m f h = absurd (not_error e db db' m f h)

  passed :
      (b : Bool) (e : Response) (x : Response × N.Db) (db db' : N.Db) (m : Metadata)
      → is_success e ≡ false
      → (if not b then (e, db) else x) ≡ (answer m, db')
      → x ≡ (answer m, db')
  passed true e x db db' m f h = h
  passed false e x db db' m f h = absurd (not_error e db db' m f h)

  saved_inv :
      (new m : Metadata) (db db' : N.Db) (o : Option N.Db)
      → saved N new db o ≡ (answer m, db')
      → o ≡ some db'
  saved_inv new m db db' none h = absurd (not_error forbidden db db' m refl h)
  saved_inv new m db db' (some c) h = ap (λ r. some (r.1)) h

  update_inv :
      (server : Instance) (body m : Metadata) (db db' : N.Db)
      → update_instance_system_metadata N server body false db ≡ (answer m, db')
      → N.save (record server { system_metadata = update server.system_metadata body }) db
        ≡ some db'
  unfolding update_instance_system_metadata
  update_inv server body m db db' h =
      let unlocked = passed (N.is_unlocked server db) conflict _ db db' m refl h in
      let stopped = passed (N.is_stopped server db) conflict _ db db' m refl unlocked in
      saved_inv (update server.system_metadata body) m db db' _ stopped

  server_inv :
      (o : Option Instance) (body m : Metadata) (db db' : N.Db)
      → with_server N o "create" (λ server. update_instance_system_metadata N server body false) db
        ≡ (answer m, db')
      → (server : Instance) × (o ≡ some server)
        × (N.save (record server { system_metadata = update server.system_metadata body }) db
            ≡ some db')
  server_inv none body m db db' h = absurd (not_error not_found db db' m refl h)
  server_inv (some server) body m db db' h = (
    server,
    refl,
    update_inv server body m db db'
        (allowed (N.can "create" server.project_id) forbidden _ db db' m refl h),
  )

  show_found :
      (server_id id v : String) (server : Instance) (m : Metadata) (db : N.Db)
      → N.get_instance server_id db ≡ some server
      → N.can "show" server.project_id ≡ true
      → N.instance_system_metadata_get server.uuid db ≡ some m
      → find id m ≡ some v
      → show N server_id id db ≡ (answer ((id, v) ∷ []), db)
  unfolding show
  show_found server_id id v server m db e c g f = rw (e, c, g, f) refl

  -- Where Nova finds what it saved, a `create` that is answered with metadata has stored every item
  -- of its body: `show` gives it back to all that may see it.
  pub show-create :
      (server_id id v : String) (body m : Metadata) (db db' : N.Db)
      → IsStore
      → ((project : String) → N.can "show" project ≡ true)
      → IsDict body
      → find id body ≡ some v
      → create N server_id body db ≡ (answer m, db')
      → show N server_id id db' ≡ (answer ((id, v) ∷ []), db')
  unfolding create
  show-create server_id id v body m db db' store can dict found h =
      let (server, e, s) = server_inv (N.get_instance server_id db) body m db db' h in
      let new = update server.system_metadata body in
      show_found server_id id v (record server { system_metadata = new }) new db'
        (store.found_again server_id server new db db' e s) (can server.project_id)
        (store.stored (record server { system_metadata = new }) db db' s)
        (rw (find-update id server.system_metadata body dict, found) refl)
