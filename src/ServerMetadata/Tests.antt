-- ===== src/ServerMetadata/Tests.antt =====
-- The API extension on a Nova with one server, whose database is the metadata of that server.
use chef_bcpc.Prelude.{
  String-discrete, true, false, Option, none, some, [], ◌∷◌, ◌≡◌, refl, sym, ◌∙◌, ap,
}
use chef_bcpc.Dict.{update}
use chef_bcpc.ServerMetadata.{
  Metadata, Instance, Nova, answer, create, show, update_instance_system_metadata, create_in,
  handle,
}
use chef_bcpc.ServerMetadata.Updates.{handle_unchanged}
use chef_bcpc.ServerMetadata.Stored.{IsStore, show-create}

abbrev server_with : Metadata → Instance
server_with metadata = record { uuid = "s1"; project_id = "p1"; system_metadata = metadata }

abbrev nova : Nova
nova = record {
  Db = Metadata;
  get_instance = λ id db. some (server_with db);
  can = λ policy project. true;
  is_unlocked = λ server db. true;
  is_stopped = λ server db. true;
  instance_system_metadata_get = λ uuid db. some db;
  save = λ server db. some server.system_metadata;
  delete_system_metadata_key = λ server key db. [];
}

abbrev found : Option Metadata → Option Instance
found none = none
found (some metadata) = some (server_with metadata)

abbrev renewed : Metadata → Option Instance → Option Instance
renewed metadata none = none
renewed metadata (some server) = some (record server { system_metadata = metadata })

nova-IsStore : IsStore nova
nova-IsStore = record {
  found_again = λ id server m db db' e s. sym (ap found s) ∙ ap (renewed m) e;
  stored = λ server db db' s. sym s;
}

abbrev body : Metadata
body = ("image_os", "linux") ∷ []

show_created_example :
    show nova "s1" "image_os" (("a", "1") ∷ ("image_os", "linux") ∷ [])
    ≡ (answer body, ("a", "1") ∷ ("image_os", "linux") ∷ [])
unfolding create update_instance_system_metadata update String-discrete
show_created_example =
    show-create nova "s1" "image_os" "linux" body (("a", "1") ∷ ("image_os", "linux") ∷ [])
      (("a", "1") ∷ []) (("a", "1") ∷ ("image_os", "linux") ∷ []) nova-IsStore (λ project. refl)
      (refl, tt) refl refl

-- The same Nova while the server runs.
abbrev running : Nova
running = record nova { is_stopped = λ server db. false }

handle_example : (handle running (create_in "s1" body) (("a", "1") ∷ [])).1 ≡ ("a", "1") ∷ []
unfolding handle create update_instance_system_metadata
handle_example = handle_unchanged running (create_in "s1" body) (("a", "1") ∷ []) refl
