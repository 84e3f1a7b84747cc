-- ===== src/Databags/Tests.antt =====
-- The data bags of a source whose every letter is `a`, every byte 0 and every UUID the same.
use chef_bcpc.Prelude.{
  ℕ, String, Bool, true, false, Option, none, some, List, [], ◌∷◌, ◌≡◌, refl, replicate, arith,
  length,
}
use Prim.Native.String.{char_at}
use chef_bcpc.Json.{Json, null, str, obj, field, end}
use chef_bcpc.Run.{Outcome, ok, raised, file_exists_error, struct_error}
use chef_bcpc.Run.Returns.{Gave}
use chef_bcpc.Inventory.Filters.{osadmin, openrc}
use chef_bcpc.Databags.{Certificates, Source, ascii_letters}
use chef_bcpc.Databags.Codec.{ceph_digits}
use chef_bcpc.Databags.Codec.Decode.{b64_bytes, unpack, unpack-ceph_digits}
use chef_bcpc.Databags.Bags.{generate, save}
use chef_bcpc.Databags.Bags.Passwords.{IsChoosing, IsPassword, Sound, generate-Sound}
use chef_bcpc.Databags.Bags.Admin.{cloud_vars, osadmin-generate}
use chef_bcpc.Databags.Bags.Saved.{save_kept, save_late}
use chef_bcpc.Databags.Bags.Steady.{IsFiling}

abbrev certificates : Certificates
certificates = record {
  ca_crt = "c0";
  ca_key = "k0";
  server_crt = "c1";
  server_key = "k1";
  client_ro_crt = "c2";
  client_ro_key = "k2";
  client_rw_crt = "c3";
  client_rw_key = "k3";
  api_crt = "c4";
  api_key = "k4";
  ssh_public = "p5";
  ssh_private = "k5";
  nova_ssh_public = "p6";
  nova_ssh_private = "k6";
}

abbrev exists : Option Json → Bool
exists none = false
exists (some _) = true

-- The world is the content of the file.
abbrev source : Source
source = record {
  certificates = certificates;
  World = Option Json;
  urandom = λ n w. (replicate n 0, w);
  choice = λ symbols w. (char_at symbols 0, w);
  uuid4 = λ w. ("b6a5c5c8", w);
  time = λ w. 1700000000;
  toplevel = λ w. "/srv/chef-bcpc";
  is_file = λ path w. exists w;
  truncate = λ path w. some null;
  dump = λ path bags w. some bags;
}

source-IsChoosing : IsChoosing source
unfolding chef_bcpc.Prelude.ℕ_discrete
source-IsChoosing = record { chosen = λ w. refl }

abbrev value_of : Outcome Json → Json
value_of (ok v) = v
value_of _ = null

abbrev bags : Json
bags = value_of ((generate source none).0)

-- The call gives some data bags.
generate-ok : Gave (generate source none) bags none
unfolding chef_bcpc.Databags.Bags.generate chef_bcpc.Databags.Bags.config
    chef_bcpc.Databags.Bags.ceph chef_bcpc.Databags.Bags.etcd chef_bcpc.Databags.Bags.powerdns
    chef_bcpc.Databags.Bags.proxysql chef_bcpc.Databags.Bags.keystone chef_bcpc.Databags.Bags.mysql
    chef_bcpc.Databags.Bags.nova chef_bcpc.Databags.Bags.rabbit chef_bcpc.Databags.Bags.ssl
    chef_bcpc.Databags.Bags.zones chef_bcpc.Databags.dict chef_bcpc.Databags.dict_fields
    chef_bcpc.Databags.generate_string chef_bcpc.Databags.draw chef_bcpc.Databags.generate_uuid
    chef_bcpc.Databags.letters chef_bcpc.Databags.Codec.generate_ceph_key
    chef_bcpc.Databags.Codec.generate_fernet chef_bcpc.Databags.Codec.ceph_digits
    chef_bcpc.Databags.Codec.b64_digits chef_bcpc.Databags.Codec.little_endian
    chef_bcpc.Databags.Codec.pack_header chef_bcpc.Run.◌>>=◌ chef_bcpc.Run.pure chef_bcpc.Run.gets
    chef_bcpc.Run.or_raise
generate-ok = (refl, refl)

generate_example : Sound bags
generate_example = generate-Sound source source-IsChoosing none none bags generate-ok

osadmin_example :
    (databags : Json) × (secret : Json) × (bags ≡ obj (field "chef_databags" databags end))
    × (osadmin {S = Option Json}
          (cloud_vars databags (str "openstack.bcpc.example.com") (str "dev"))
          none
        ≡ (ok (openrc secret (str "openstack.bcpc.example.com") (str "dev")), none))
    × IsPassword secret
osadmin_example =
    osadmin-generate source none none bags (str "openstack.bcpc.example.com") (str "dev")
      source-IsChoosing generate-ok

-- A file is read as what was written into it.
abbrev read : String → Option Json → Option Json
read path w = w

source-IsFiling : IsFiling source read
source-IsFiling = record {
  read_dump = λ path bags w. refl;
  is_file-dump = λ path bags w. refl;
  toplevel-dump = λ path bags w. refl;
  read_truncate = λ path w. refl;
  toplevel-truncate = λ path w. refl;
  time-truncate = λ path w. omega arith;
  same_urandom = λ n w. record { files = λ path. refl; root = refl; later = omega arith };
  same_choice = λ symbols w. record { files = λ path. refl; root = refl; later = omega arith };
  same_uuid4 = λ w. record { files = λ path. refl; root = refl; later = omega arith };
}

-- The same in 2038.
abbrev late_source : Source
late_source = record source { time = λ w. 2147483648 }

late_source-IsFiling : IsFiling late_source read
late_source-IsFiling = record {
  read_dump = λ path bags w. refl;
  is_file-dump = λ path bags w. refl;
  toplevel-dump = λ path bags w. refl;
  read_truncate = λ path w. refl;
  toplevel-truncate = λ path w. refl;
  time-truncate = λ path w. omega arith;
  same_urandom = λ n w. record { files = λ path. refl; root = refl; later = omega arith };
  same_choice = λ symbols w. record { files = λ path. refl; root = refl; later = omega arith };
  same_uuid4 = λ w. record { files = λ path. refl; root = refl; later = omega arith };
}

-- With `force`, an old file is written anew.
save-ok : Gave (save source true (some (str "old"))) tt (some bags)
unfolding chef_bcpc.Databags.Bags.generate chef_bcpc.Databags.Bags.config
    chef_bcpc.Databags.Bags.ceph chef_bcpc.Databags.Bags.etcd chef_bcpc.Databags.Bags.powerdns
    chef_bcpc.Databags.Bags.proxysql chef_bcpc.Databags.Bags.keystone chef_bcpc.Databags.Bags.mysql
    chef_bcpc.Databags.Bags.nova chef_bcpc.Databags.Bags.rabbit chef_bcpc.Databags.Bags.ssl
    chef_bcpc.Databags.Bags.zones chef_bcpc.Databags.dict chef_bcpc.Databags.dict_fields
    chef_bcpc.Databags.generate_string chef_bcpc.Databags.draw chef_bcpc.Databags.generate_uuid
    chef_bcpc.Databags.letters chef_bcpc.Databags.Codec.generate_ceph_key
    chef_bcpc.Databags.Codec.generate_fernet chef_bcpc.Databags.Codec.ceph_digits
    chef_bcpc.Databags.Codec.b64_digits chef_bcpc.Databags.Codec.little_endian
    chef_bcpc.Databags.Codec.pack_header chef_bcpc.Run.◌>>=◌ chef_bcpc.Run.pure chef_bcpc.Run.gets
    chef_bcpc.Run.or_raise chef_bcpc.Databags.Bags.save chef_bcpc.Databags.Bags.write
    chef_bcpc.Run.modify
save-ok = (refl, refl)

save_kept_example :
    (made : Json) × ((generate source (some null)).0 ≡ ok made)
    × (some bags ≡ some made)
    × (save source false (some bags) ≡ (raised file_exists_error, some bags))
save_kept_example =
    save_kept source read source-IsFiling true (some (str "old")) tt (some bags) save-ok

-- A key of two bytes.
digits_example :
    (digits : List ℕ) × (ceph_digits 1700000000 (7 ∷ 255 ∷ []) ≡ some digits)
    × (unpack (b64_bytes digits) ≡ some (1, 1700000000, 0, 2, 7 ∷ 255 ∷ []))
digits_example =
    unpack-ceph_digits 1700000000 (7 ∷ 255 ∷ []) (ground arith) (ground arith) (ground arith)

save_late_example :
    ((save late_source true (some (str "old"))).0 ≡ raised struct_error)
    × ((save late_source true (some (str "old"))).1 ≡ some null)
save_late_example =
    save_late late_source read late_source-IsFiling true (some (str "old")) (omega arith) refl
