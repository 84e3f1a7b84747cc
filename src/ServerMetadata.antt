-- ===== src/ServerMetadata.antt =====
-- The API extension of Nova for the system metadata of a server:
-- chef/cookbooks/bcpc/files/default/nova/server_system_metadata_api.py, and what it calls of
-- chef/cookbooks/bcpc/files/default/nova/bcpc_compute_api.py.
pub mod Updates
pub mod Stored
mod Tests
use chef_bcpc.Dict.{Dict, find, update}
use chef_bcpc.Prelude.{
  String, String-discrete, Bool, true, false, not, Option, none, some, List, [], ◌∷◌, ite, is_some,
  if◌then◌else◌,
}

abbrev pub Metadata : Type 0
Metadata = Dict String

-- What the extension reads and writes of an instance.
pub record Instance : Type 0 where
  pub uuid : String
  pub project_id : String
  pub system_metadata : Metadata

-- Nova. `get_instance` and `instance_system_metadata_get` answer `none` for no such instance, `save`
-- for OverQuota. `is_unlocked` and `is_stopped` are the decorators check_instance_lock and
-- check_instance_state, `can` is the policy by its name and its target's project.
pub record Nova : Type 1 where
  pub Db : Type 0
  pub get_instance : String → Db → Option Instance
  pub can : String → String → Bool
  pub is_unlocked : Instance → Db → Bool
  pub is_stopped : Instance → Db → Bool
  pub instance_system_metadata_get : String → Db → Option Metadata
  pub save : Instance → Db → Option Db
  pub delete_system_metadata_key : Instance → String → Db → Db

-- A response with its data, or the error that is raised; `forbidden` is a policy's or OverQuota's.
pub data Response : Type 0 where
  answer : Metadata → Response
  done bad_request forbidden not_found conflict : Response

module _ (N : Nova) where
  abbrev pub Handler : Type 0
  Handler = N.Db → Response × N.Db

  abbrev pub saved : Metadata → N.Db → Option N.Db → Response × N.Db
  saved metadata db none = (forbidden, db)
  saved metadata db (some db') = (answer metadata, db')

  -- The two decorators, with the clauses that turn their exceptions into HTTPConflict.
  abbrev pub if_allowed : Instance → Handler → Handler
  if_allowed server handler db =
      if not (N.is_unlocked server db)
      then (conflict, db)
      else (if not (N.is_stopped server db) then (conflict, db) else handler db)

  -- `update_instance_system_metadata`
  abbrev pub new_metadata : Instance → Metadata → Bool → Metadata
  new_metadata server sys_metadata delete =
      if delete then sys_metadata else update server.system_metadata sys_metadata

  unfoldable pub update_instance_system_metadata : Instance → Metadata → Bool → Handler
  update_instance_system_metadata server sys_metadata delete = if_allowed server (λ db.
      saved (new_metadata server sys_metadata delete) db
        (N.save (record server { system_metadata = new_metadata server sys_metadata delete }) db))

  -- `_get_system_metadata`, then the rest of a handler.
  abbrev pub with_metadata : Option Metadata → (Metadata → Handler) → Handler
  with_metadata none handler db = (not_found, db)
  with_metadata (some metadata) handler db = handler metadata db

  -- `common.get_instance` and `context.can`
  abbrev pub with_server : Option Instance → String → (Instance → Handler) → Handler
  with_server none policy handler db = (not_found, db)
  with_server (some server) policy handler db =
      if N.can policy server.project_id then handler server db else (forbidden, db)

  -- What a handler answers in place of the metadata that were stored.
  abbrev pub answer_with : Metadata → Response × N.Db → Response × N.Db
  answer_with item (answer _, db) = (answer item, db)
  answer_with item (done, db) = (done, db)
  answer_with item (bad_request, db) = (bad_request, db)
  answer_with item (forbidden, db) = (forbidden, db)
  answer_with item (not_found, db) = (not_found, db)
  answer_with item (conflict, db) = (conflict, db)

  abbrev pub shown : String → Option String → Response
  shown id none = not_found
  shown id (some value) = answer ((id, value) ∷ [])

  unfoldable pub index : String → Handler
  index server_id db =
      with_server (N.get_instance server_id db) "index"
        (λ server.
          with_metadata (N.instance_system_metadata_get server.uuid db)
            (λ metadata d. (answer metadata, d)))
        db

  unfoldable pub create : String → Metadata → Handler
  create server_id body db =
      with_server (N.get_instance server_id db) "create"
        (λ server. update_instance_system_metadata server body false) db

  unfoldable pub update_item : String → String → Metadata → Handler
  update_item server_id id body db =
      with_server (N.get_instance server_id db) "update"
        (λ server d.
          if not (is_some (find id body))
          then (bad_request, d)
          else answer_with body (update_instance_system_metadata server body false d))
        db

  unfoldable pub update_all : String → Metadata → Handler
  update_all server_id body db =
      with_server (N.get_instance server_id db) "update_all"
        (λ server. update_instance_system_metadata server body true) db

  unfoldable pub show : String → String → Handler
  show server_id id db =
      with_server (N.get_instance server_id db) "show"
        (λ server.
          with_metadata (N.instance_system_metadata_get server.uuid db)
            (λ metadata d. (shown id (find id metadata), d)))
        db

  unfoldable pub delete_item : String → String → Handler
  delete_item server_id id db =
      with_server (N.get_instance server_id db) "delete"
        (λ server. with_metadata (N.instance_system_metadata_get server.uuid db) (λ metadata d.
          if not (is_some (find id metadata))
          then (not_found, d)
          else if_allowed server (λ c. (done, N.delete_system_metadata_key server id c)) d))
        db

-- The requests that the extension serves.
pub data Call : Type 0 where
  index_of : String → Call
  create_in update_all_of : String → Metadata → Call
  update_in : String → String → Metadata → Call
  show_of delete_of : String → String → Call

module _ (N : Nova) where
  unfoldable pub handle : Call → Handler N
  handle (index_of server_id) = index N server_id
  handle (create_in server_id body) = create N server_id body
  handle (update_all_of server_id body) = update_all N server_id body
  handle (update_in server_id id body) = update_item N server_id id body
  handle (show_of server_id id) = show N server_id id
  handle (delete_of server_id id) = delete_item N server_id id
