-- ===== src/ServerProperties/Tests.antt =====
-- A Nova with one server, whose attributes are the database, and a change of its operating system.
use chef_bcpc.Prelude.{
  String, String-discrete, true, Option, some, [], ◌∷◌, ◌≡◌, refl, sym, ◌∙◌, ap,
}
use chef_bcpc.Json.{Json, str, null}
use chef_bcpc.Dict.{Dict, find}
use chef_bcpc.ServerProperties.{Nova, Response, answer, update, show}
use chef_bcpc.ServerProperties.Stored.{IsStore, show-update}

abbrev nova : Nova
nova = record {
  Db = Dict Json;
  Server = Dict Json;
  get_instance = λ id db. some db;
  can = λ policy server. true;
  getattr = λ server id. find id server;
  translate_attributes = λ properties before. some before;
  is_unlocked = λ server db. true;
  is_stopped = λ server db. true;
  update_instance = λ server updates db. some (updates, updates);
}

first_part :
    {A B : Type 0} (a b : A) (c d : B)
    → ◌≡◌ {A = Option (A × B)} (some (a, c)) (some (b, d))
    → a ≡ b
first_part a b c d e = cc e

second_part :
    {A B : Type 0} (a b : A) (c d : B)
    → ◌≡◌ {A = Option (A × B)} (some (a, c)) (some (b, d))
    → c ≡ d
second_part a b c d e = cc e

some_same : {A : Type 0} (a b : A) → some a ≡ some b → a ≡ b
some_same a b e = cc e

nova-IsStore : IsStore nova
nova-IsStore = record {
  found_again = λ id server server' updates db db' f u.
      ap some (
        sym (second_part updates server' updates db' u) ∙ first_part updates server' updates db' u);
  applied = λ server server' updates db db' key value u f.
      ap (find key) (sym (first_part updates server' updates db' u)) ∙ f;
  translated = λ properties before updates key value t f.
      ap (find key) (sym (some_same before updates t)) ∙ f;
}

abbrev windows : Dict Json
windows = ("os_type", str "windows") ∷ []

show_updated_example :
    (◌≡◌ {A = String} "os_type" "os_type")
    × (find "os_type" windows ≡ some (str "windows"))
    × (show nova "s1" "os_type" windows ≡ (answer windows, windows))
unfolding update chef_bcpc.Json.Json-discrete String-discrete
    chef_bcpc.ServerProperties.update_property chef_bcpc.ServerProperties.update_instance_if_stopped
show_updated_example =
    show-update nova "s1" "os_type" windows (("os_type", null) ∷ []) (str "windows") windows
      nova-IsStore (λ server. refl) refl
