-- ===== src/Databags.antt =====
-- The secrets of a new cloud, `BCCChefDatabags` of virtual/bin/lib/bcc_chef_databags.py. What it draws
-- (randomness, the time, key pairs and certificates) comes from a `Source`.
pub mod Codec
pub mod Bags
mod Tests
use chef_bcpc.Prelude.{ℕ, zero, suc, ◌<◌, String, Bool, Option, List, [], ◌∷◌}
use Prim.Native.Char.{Char}
use chef_bcpc.Json.{Json, null, str, Fields, end, field, obj}
use chef_bcpc.Run.{Exec, ok, pure, ◌>>=◌}

-- `string.ascii_letters`
abbrev pub ascii_letters : String
ascii_letters = "abcdefghijklmnopqrstuvwxyzABCDEFGHIJKLMNOPQRSTUVWXYZ"

-- The key pairs and certificates of `EtcdSSL`, `APISSL` and the two `SSH`, as their methods give them.
pub record Certificates : Type 0 where
  pub ca_crt : String
  pub ca_key : String
  pub server_crt : String
  pub server_key : String
  pub client_ro_crt : String
  pub client_ro_key : String
  pub client_rw_crt : String
  pub client_rw_key : String
  pub api_crt : String
  pub api_key : String
  pub ssh_public : String
  pub ssh_private : String
  pub nova_ssh_public : String
  pub nova_ssh_private : String

-- The operating system and its files: `os.urandom`, `secrets.choice`, `uuid.uuid4`, `time.time` in
-- whole seconds, the root of the git repository, `os.path.isfile`, `open(path, 'w')` and `yaml.dump`.
pub record Source : Type 1 where
  pub certificates : Certificates
  pub World : Type 0
  pub urandom : ℕ → World → List ℕ × World
  pub choice : String → World → Char × World
  pub uuid4 : World → String × World
  pub time : World → ℕ
  pub toplevel : World → String
  pub is_file : String → World → Bool
  pub truncate : String → World → World
  pub dump : String → Json → World → World

module _ (S : Source) where
  abbrev pub Draw : Type 0 → Type 0
  Draw A = Exec S.World A

  -- A call that draws.
  unfoldable pub draw : {A : Type 0} → (S.World → A × S.World) → Draw A
  draw f w = let (a, v) = f w in (ok a, v)

  unfoldable pub letters : ℕ → S.World → String × S.World
  letters zero w = (String.[], w)
  letters (suc n) w =
      let (c, v) = S.choice ascii_letters w in let (s, u) = letters n v in (String.◌∷◌ c s, u)

  -- `generate_string`
  unfoldable pub generate_string : ℕ → Draw String
  generate_string length = draw (letters length)

  -- `generate_uuid`
  unfoldable pub generate_uuid : Draw String
  generate_uuid = draw S.uuid4

  -- A dictionary display: the values are computed in the order in which they stand.
  unfoldable pub dict_fields : List (String × Draw Json) → Draw Fields
  dict_fields [] = pure end
  dict_fields ((k, m) ∷ entries) = do v ← m; fields ← dict_fields entries; pure (field k v fields)

  unfoldable pub dict : List (String × Draw Json) → Draw Json
  dict entries = do fields ← dict_fields entries; pure (obj fields)

  abbrev pub text : String → Draw Json
  text s = pure (str s)

  -- `self.generate_string()`
  abbrev pub password : Draw Json
  password = (generate_string 32 >>= λ s. pure (str s))
