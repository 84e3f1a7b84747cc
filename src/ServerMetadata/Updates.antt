-- ===== src/ServerMetadata/Updates.antt =====
-- What the handlers store, and that an error stores nothing.
use chef_bcpc.Prelude.{String, Bool, true, false, Option, none, some, ◌≡◌, refl, if◌then◌else◌}
use chef_bcpc.ServerMetadata.{
  Metadata, Instance, Nova, Response, answer, done, bad_request, forbidden, not_found, conflict,
  saved, with_metadata, with_server, answer_with, update_instance_system_metadata, Call, index_of,
  create_in, update_in, update_all_of, show_of, delete_of, handle, index, create, update_item,
  update_all, show, delete_item, Handler,
}

abbrev pub is_success : Response → Bool
is_success (answer m) = true
is_success done = true
is_success _ = false

module _ (N : Nova) where
  -- An error leaves the database as it was.
  record IsCalm (db : N.Db) (r : Response × N.Db) : Type 0 where
    unchanged : is_success r.0 ≡ false → r.1 ≡ db

  saved-IsCalm : (m : Metadata) (db : N.Db) (o : Option N.Db) → IsCalm db (saved N m db o)
  saved-IsCalm m db none = record { unchanged = λ h. refl }
  saved-IsCalm m db (some db') = record { unchanged = λ h. cc h }

  same-IsCalm : (db : N.Db) (r : Response) → IsCalm db (r, db)
  same-IsCalm db r = record { unchanged = λ h. refl }

  if-IsCalm :
      (db : N.Db) (b : Bool) (x y : Response × N.Db)
      → IsCalm db x
      → IsCalm db y
      → IsCalm db (if b then x else y)
  if-IsCalm db true x y cx cy = cx
  if-IsCalm db false x y cx cy = cy

  done-IsCalm : (db db' : N.Db) → IsCalm db (done, db')
  done-IsCalm db db' = record { unchanged = λ h. cc h }

  answer_with-IsCalm :
      (db : N.Db) (m : Metadata) (r : Response × N.Db) → IsCalm db r → IsCalm db (answer_with N m r)
  answer_with-IsCalm db m (answer x, d) c = record { unchanged = λ h. cc h }
  answer_with-IsCalm db m (done, d) c = c
  answer_with-IsCalm db m (bad_request, d) c = c
  answer_with-IsCalm db m (forbidden, d) c = c
  answer_with-IsCalm db m (not_found, d) c = c
  answer_with-IsCalm db m (conflict, d) c = c

  with_metadata-IsCalm :
      (db : N.Db) (o : Option Metadata) (handler : Metadata → Handler N)
      → ((m : Metadata) → IsCalm db (handler m db))
      → IsCalm db (with_metadata N o handler db)
  with_metadata-IsCalm db none handler c = same-IsCalm db not_found
  with_metadata-IsCalm db (some m) handler c = c m

  with_server-IsCalm :
      (db : N.Db) (o : Option Instance) (policy : String) (handler : Instance → Handler N)
      → ((server : Instance) → IsCalm db (handler server db))
      → IsCalm db (with_server N o policy handler db)
  with_server-IsCalm db none policy handler c = same-IsCalm db not_found
  with_server-IsCalm db (some server) policy handler c =
      if-IsCalm db (N.can policy server.project_id) _ _ (c server) (same-IsCalm db forbidden)

  update_instance-IsCalm :
      (server : Instance) (body : Metadata) (delete : Bool) (db : N.Db)
      → IsCalm db (update_instance_system_metadata N server body delete db)
  unfolding update_instance_system_metadata
  update_instance-IsCalm server body delete db = search (if-IsCalm, same-IsCalm, saved-IsCalm)

  ruleset calm_rules = (
    with_server-IsCalm, with_metadata-IsCalm, if-IsCalm, same-IsCalm, done-IsCalm,
    answer_with-IsCalm, update_instance-IsCalm,
  )

  handle-IsCalm : (call : Call) (db : N.Db) → IsCalm db (handle N call db)
  unfolding handle index create update_item update_all show delete_item
  handle-IsCalm (index_of server_id) db = search calm_rules depth 8
  handle-IsCalm (create_in server_id body) db = search calm_rules depth 8
  handle-IsCalm (update_all_of server_id body) db = search calm_rules depth 8
  handle-IsCalm (update_in server_id id body) db = search calm_rules depth 8
  handle-IsCalm (show_of server_id id) db = search calm_rules depth 8
  handle-IsCalm (delete_of server_id id) db = search calm_rules depth 8

  -- A request that is answered with an error, whichever it is, leaves the database as it was.
  pub handle_unchanged :
      (call : Call) (db : N.Db)
      → is_success ((handle N call db).0) ≡ false
      → (handle N call db).1 ≡ db
  handle_unchanged call db h = (handle-IsCalm call db).unchanged h
