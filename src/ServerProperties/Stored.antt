-- ===== src/ServerProperties/Stored.antt =====
-- What an update stores, `show` gives back.
use chef_bcpc.Prelude.{
  String, String-discrete, Bool, true, false, not, Option, none, some, [], ◌∷◌, is_some, ◌≡◌, refl,
  sym, ◌∙◌, ap, subst, if◌then◌else◌, if_pos, arith, eq_iff,
}
use chef_bcpc.Json.{Json}
use chef_bcpc.Dict.{Dict, find}
use chef_bcpc.ServerProperties.{
  Nova, Response, answer, bad_request, forbidden, not_found, conflict, server_error, is_valid,
  with_os_type, with_server, property, show, updated, update_instance_if_stopped, if_translated,
  update_property, update,
}

-- Nova finds what it updated, with the attributes as they were asked for, and translating the
-- properties keeps the updates that are there.
pub record IsStore (N : Nova) : Type 0 where
  pub found_again :
      (id : String) (server server' : N.Server) (updates : Dict Json) (db db' : N.Db)
      → N.get_instance id db ≡ some server
      → N.update_instance server updates db ≡ some (server', db')
      → N.get_instance id db' ≡ some server'
  pub applied :
      (server server' : N.Server) (updates : Dict Json) (db db' : N.Db) (key : String)
      (value : Json)
      → N.update_instance server updates db ≡ some (server', db')
      → find key updates ≡ some value
      → N.getattr server' key ≡ some value
  pub translated :
      (properties before updates : Dict Json) (key : String) (value : Json)
      → N.translate_attributes properties before ≡ some updates
      → find key before ≡ some value
      → find key updates ≡ some value

-- A valid body has the one key.
find-is_valid :
    (properties : Dict Json) (id : String) (v : Json)
    → is_valid properties ≡ true
    → find id properties ≡ some v
    → id ≡ "os_type"
find-is_valid [] id v h f = cc f
find-is_valid ((k, w) ∷ properties) id v h f = elim (String-discrete k id) [
  | yes e ↦ sym e ∙ (eq_iff k "os_type").0 (ground (arith, h))
  | no ne ↦ find-is_valid properties id v (ground (arith, h)) (ground (arith, f))
]

module _ (N : Nova) where
  -- A request that is answered got through every test.
  record Made (id : String) (properties : Dict Json) (db : N.Db) (found : Option N.Server)
      (v : Json) (db' : N.Db) : Type 0 where
    server : N.Server
    server' : N.Server
    updates : Dict Json
    requested : Json
    is_found : found ≡ some server
    is_requested : find id properties ≡ some requested
    is_translated :
        N.translate_attributes properties (with_os_type (find "os_type" properties)) ≡ some updates
    is_updated : N.update_instance server updates db ≡ some (server', db')
    is_read : N.getattr server' id ≡ some v

  -- An answer is not an error.
  passed :
      (e : Response) (b : Bool) (m : Dict Json) (db db' : N.Db) (x : Response × N.Db)
      → ¬ (e ≡ answer m)
      → (if not b then (e, db) else x) ≡ (answer m, db')
      → (b ≡ true) × (x ≡ (answer m, db'))
  passed e true m db db' x ne h = (refl, h)
  passed e false m db db' x ne h = absurd (ne (ap (λ r. r.0) h))

  allowed :
      (b : Bool) (m : Dict Json) (db db' : N.Db) (x : Response × N.Db)
      → (if b then x else (forbidden, db)) ≡ (answer m, db')
      → x ≡ (answer m, db')
  allowed true m db db' x h = h
  allowed false m db db' x h = cc (ap (λ r. r.0) h)

  is_some-value : (o : Option Json) → is_some o ≡ true → (v : Json) × (o ≡ some v)
  is_some-value none h = cc h
  is_some-value (some v) h = (v, refl)

  property-value :
      (id : String) (o : Option Json) (v : Json) (missing : Response)
      → ¬ (missing ≡ answer ((id, v) ∷ []))
      → property N id o missing ≡ answer ((id, v) ∷ [])
      → o ≡ some v
  property-value id none v missing ne h = absurd (ne h)
  property-value id (some w) v missing ne h = cc h

  updated-Made :
      (id : String) (db : N.Db) (o : Option (N.Server × N.Db)) (v : Json) (db' : N.Db)
      → updated N id db o ≡ (answer ((id, v) ∷ []), db')
      → (server' : N.Server) × (o ≡ some (server', db')) × (N.getattr server' id ≡ some v)
  updated-Made id db none v db' h = cc (ap (λ r. r.0) h)
  updated-Made id db (some (server', d)) v db' h = (
    server',
    ap (λ x. some (server', x)) (ap (λ r. r.1) h),
    property-value id (N.getattr server' id) v server_error (λ e. cc e) (ap (λ r. r.0) h),
  )

  translated-Made :
      (id : String) (properties : Dict Json) (server : N.Server) (o : Option (Dict Json))
      (db : N.Db) (v : Json) (db' : N.Db)
      → if_translated N o (update_instance_if_stopped N id server) db ≡ (answer ((id, v) ∷ []), db')
      → (updates : Dict Json) × (server' : N.Server) × (o ≡ some updates)
        × (N.update_instance server updates db ≡ some (server', db'))
        × (N.getattr server' id ≡ some v)
  unfolding update_instance_if_stopped
  translated-Made id properties server none db v db' h = cc (ap (λ r. r.0) h)
  translated-Made id properties server (some updates) db v db' h =
      let (_, h1) = passed conflict (N.is_unlocked server db) _ db db' _ (λ e. cc e) h in
      let (_, h2) = passed conflict (N.is_stopped server db) _ db db' _ (λ e. cc e) h1 in
      let (server', e, g) = updated-Made id db (N.update_instance server updates db) v db' h2 in
      (updates, server', refl, e, g)

  update-Made :
      (id : String) (properties : Dict Json) (db : N.Db) (found : Option N.Server) (v : Json)
      (db' : N.Db)
      → with_server N found "update"
          (λ server d.
            if not (is_some (find id properties))
            then (bad_request, d)
            else if_translated N
                (N.translate_attributes properties (with_os_type (find "os_type" properties)))
                (update_instance_if_stopped N id server)
                d)
          db
        ≡ (answer ((id, v) ∷ []), db')
      → Made id properties db found v db'
  update-Made id properties db none v db' h = cc (ap (λ r. r.0) h)
  update-Made id properties db (some server) v db' h =
      let h1 = allowed (N.can "update" server) _ db db' _ h in
      let (there, h2) =
        passed bad_request (is_some (find id properties)) _ db db' _ (λ e. cc e) h1 in
      let (requested, is_requested) = is_some-value (find id properties) there in
      let (updates, server', t, u, g) = translated-Made id properties server _ db v db' h2 in
      record {
        server = server;
        server' = server';
        updates = updates;
        requested = requested;
        is_found = refl;
        is_requested = is_requested;
        is_translated = t;
        is_updated = u;
        is_read = g;
      }

  shown_again :
      (id : String) (db' : N.Db) (found : Option N.Server) (server' : N.Server) (v : Json)
      → found ≡ some server'
      → N.can "show" server' ≡ true
      → N.getattr server' id ≡ some v
      → with_server N found "show"
          (λ server d. (property N id (N.getattr server id) not_found, d))
          db'
        ≡ (answer ((id, v) ∷ []), db')
  shown_again id db' found server' v e c g = rw (e, c, g) refl

  -- Where Nova finds what it updated with the attributes that were asked for, and all may see a
  -- server, an update that is answered was of os_type, the answer is the value of its body, and show
  -- gives that value back.
  pub show-update :
      (server_id id : String) (properties : Dict Json) (db : N.Db) (v : Json) (db' : N.Db)
      → IsStore N
      → ((server : N.Server) → N.can "show" server ≡ true)
      → update N server_id id properties db ≡ (answer ((id, v) ∷ []), db')
      → (id ≡ "os_type")
        × (find id properties ≡ some v)
        × (show N server_id id db' ≡ (answer ((id, v) ∷ []), db'))
  unfolding update update_property show
  show-update server_id id properties db v db' store visible h =
      let (valid, h1) = checked (is_valid properties) _ h in
      let m = update-Made id properties db (N.get_instance server_id db) v db' h1 in
      let key = find-is_valid properties id m.requested valid m.is_requested in
      let stored =
        store.translated properties (with_os_type (find "os_type" properties)) m.updates id
          m.requested m.is_translated (asked m.requested key m.is_requested) in
      let read =
        store.applied m.server m.server' m.updates db db' id m.requested m.is_updated stored in
      (
        key,
        m.is_requested ∙ sym read ∙ m.is_read,
        shown_again id db' (N.get_instance server_id db') m.server' v
            (store.found_again server_id m.server m.server' m.updates db db' m.is_found
              m.is_updated)
            (visible m.server') m.is_read,
      )
    where
      checked :
          (b : Bool) (x : Response × N.Db)
          → (if b then x else (bad_request, db)) ≡ (answer ((id, v) ∷ []), db')
          → (b ≡ true) × (x ≡ (answer ((id, v) ∷ []), db'))
      checked true x e = (refl, e)
      checked false x e = cc (ap (λ r. r.0) e)

      asked :
          (w : Json)
          → id ≡ "os_type"
          → find id properties ≡ some w
          → find id (with_os_type (find "os_type" properties)) ≡ some w
      asked w key f =
          subst (λ k. find k (with_os_type (find "os_type" properties)) ≡ some w) (sym key)
            (ap (λ o. find "os_type" (with_os_type o)) (ap (λ k. find k properties) (sym key) ∙ f)
              ∙ if_pos (String-discrete "os_type" "os_type") refl (some w) none)
