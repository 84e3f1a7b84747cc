-- ===== src/ServerProperties.antt =====
-- The API extension of Nova for the properties of a server:
-- chef/cookbooks/bcpc/files/default/nova/server_properties_api.py, with its schema in
-- server_properties_schema.py, and `update_instance_if_stopped` of bcpc_compute_api.py beside them.
pub mod Stored
mod Tests
use chef_bcpc.Prelude.{
  String, Bool, true, false, not, ◌&&◌, ◌||◌, Option, none, some, List, [], ◌∷◌, is_some, str_eq,
  if◌then◌else◌,
}
use chef_bcpc.Json.{Json, null, is_text}
use chef_bcpc.Dict.{Dict, find}

-- Nova. `get_instance` and `update_instance` answer `none` for no such instance, `getattr` for no such
-- attribute; `translate_attributes` gives the updates with what it makes of the properties, `none`
-- where it rejects them. `can` is the policy by its name, with the server's user and project.
pub record Nova : Type 1 where
  pub Db : Type 0
  pub Server : Type 0
  pub get_instance : String → Db → Option Server
  pub can : String → Server → Bool
  pub getattr : Server → String → Option Json
  pub translate_attributes : Dict Json → Dict Json → Option (Dict Json)
  pub is_unlocked : Server → Db → Bool
  pub is_stopped : Server → Db → Bool
  pub update_instance : Server → Dict Json → Db → Option (Server × Db)

-- A response with its properties, or the error; `server_error` is an exception that is not caught.
pub data Response : Type 0 where
  answer : Dict Json → Response
  bad_request forbidden not_found conflict server_error : Response

-- The schema of the body: `os_type` alone, which is windows, linux or null.
abbrev pub is_os_type : Json → Bool
is_os_type null = true
is_os_type value = is_text "windows" value || is_text "linux" value

abbrev pub is_valid : Dict Json → Bool
is_valid [] = true
is_valid ((key, value) ∷ properties) =
    str_eq key "os_type" && is_os_type value && is_valid properties

-- `update_dict` before `translate_attributes`.
abbrev pub with_os_type : Option Json → Dict Json
with_os_type none = []
with_os_type (some value) = ("os_type", value) ∷ []

module _ (N : Nova) where
  abbrev pub Handler : Type 0
  Handler = N.Db → Response × N.Db

  -- `common.get_instance` and `context.can`
  abbrev pub with_server : Option N.Server → String → (N.Server → Handler) → Handler
  with_server none policy handler db = (not_found, db)
  with_server (some server) policy handler db =
      if N.can policy server then handler server db else (forbidden, db)

  abbrev pub property : String → Option Json → Response → Response
  property id none missing = missing
  property id (some value) missing = answer ((id, value) ∷ [])

  -- `show`
  unfoldable pub show : String → String → Handler
  show server_id id db =
      with_server (N.get_instance server_id db) "show"
        (λ server d. (property id (N.getattr server id) not_found, d)) db

  -- The answer to an update that was made: `getattr` may raise when it is.
  abbrev pub updated : String → N.Db → Option (N.Server × N.Db) → Response × N.Db
  updated id db none = (not_found, db)
  updated id db (some (server, db')) = (property id (N.getattr server id) server_error, db')

  -- `update_instance_if_stopped`, with the clauses that turn the exceptions of its decorators into
  -- HTTPConflict.
  unfoldable pub update_instance_if_stopped : String → N.Server → Dict Json → Handler
  update_instance_if_stopped id server updates db =
      if not (N.is_unlocked server db)
      then (conflict, db)
      else (if not (N.is_stopped server db)
          then (conflict, db)
          else updated id db (N.update_instance server updates db))

  abbrev pub if_translated : Option (Dict Json) → (Dict Json → Handler) → Handler
  if_translated none handler db = (bad_request, db)
  if_translated (some updates) handler db = handler updates db

  -- `update`, after the schema
  unfoldable pub update_property : String → String → Dict Json → Handler
  update_property server_id id properties db =
      with_server (N.get_instance server_id db) "update"
        (λ server d.
          if not (is_some (find id properties))
          then (bad_request, d)
          else if_translated
              (N.translate_attributes properties (with_os_type (find "os_type" properties)))
              (update_instance_if_stopped id server) d)
        db

  -- `update`
  unfoldable pub update : String → String → Dict Json → Handler
  update server_id id properties db =
      if is_valid properties then update_property server_id id properties db else (bad_request, db)
