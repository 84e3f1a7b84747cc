-- ===== src/Databags/Codec.antt =====
-- The Ceph keys, `generate_ceph_key`: a header packed by `struct` and random bytes, in Base64. Bytes
-- are numbers below 256.
pub mod Decode
use chef_bcpc.Prelude.{
  ℕ, zero, suc, ◌+◌, ◌*◌, ◌/◌, ◌%◌, ◌&&◌, ltb, String, Bool, Option, none, some, List, [], ◌∷◌,
  ◌++◌, length, if◌then◌else◌,
}
use Prim.Native.String.{char_at}
use chef_bcpc.Json.{Json, str}
use chef_bcpc.Run.{pure, gets, or_raise, ◌>>=◌, struct_error}
use chef_bcpc.Databags.{Source, Draw, draw}

-- The `k` low bytes of a number, the lowest first.
unfoldable pub little_endian : ℕ → ℕ → List ℕ
little_endian zero n = []
little_endian (suc k) n = n % 256 ∷ little_endian k (n / 256)

-- `struct.pack('<hiih', ...)` for numbers that are not negative; `none` is its struct.error.
unfoldable pub pack_header : ℕ → ℕ → ℕ → ℕ → Option (List ℕ)
unfolding little_endian
pack_header version seconds nanos size =
    if ltb version 32768 && ltb seconds 2147483648 && ltb nanos 2147483648 && ltb size 32768
    then some (
        little_endian 2 version
        ++ little_endian 4 seconds
        ++ little_endian 4 nanos
        ++ little_endian 2 size)
    else none

-- Base64 in digits: 0 to 63 stand for the symbols of the alphabet, 64 for `=`.
unfoldable pub b64_digits : List ℕ → List ℕ
b64_digits [] = []
b64_digits (a ∷ []) = a / 4 ∷ (a % 4 * 16) ∷ 64 ∷ 64 ∷ []
b64_digits (a ∷ b ∷ []) = a / 4 ∷ (a % 4 * 16 + b / 16) ∷ (b % 16 * 4) ∷ 64 ∷ []
b64_digits (a ∷ b ∷ c ∷ bytes) =
    a / 4 ∷ (a % 4 * 16 + b / 16) ∷ (b % 16 * 4 + c / 64) ∷ c % 64 ∷ b64_digits bytes

abbrev pub alphabet : String
alphabet = "ABCDEFGHIJKLMNOPQRSTUVWXYZabcdefghijklmnopqrstuvwxyz0123456789+/="

abbrev pub symbols : List ℕ → String
symbols [] = String.[]
symbols (d ∷ digits) = String.◌∷◌ (char_at alphabet d) (symbols digits)

-- `base64.urlsafe_b64encode` has `-` and `_` in place of `+` and `/`.
abbrev pub url_alphabet : String
url_alphabet = "ABCDEFGHIJKLMNOPQRSTUVWXYZabcdefghijklmnopqrstuvwxyz0123456789-_="

abbrev pub url_symbols : List ℕ → String
url_symbols [] = String.[]
url_symbols (d ∷ digits) = String.◌∷◌ (char_at url_alphabet d) (url_symbols digits)

-- The digits of the key made at `seconds`.
unfoldable pub ceph_digits : ℕ → List ℕ → Option (List ℕ)
unfolding pack_header b64_digits
ceph_digits seconds key = elim (pack_header 1 seconds 0 (length key)) [
  | none ↦ none
  | some header ↦ some (b64_digits (header ++ key))
]

module _ (S : Source) where
  -- `generate_ceph_key`
  unfoldable pub generate_ceph_key : Draw S Json
  generate_ceph_key = do
    key ← draw S (S.urandom 16)
    seconds ← gets S.time
    digits ← or_raise struct_error (ceph_digits seconds key)
    pure (str (symbols digits))

  -- `generate_fernet`, in the alphabet for URLs
  unfoldable pub generate_fernet : Draw S Json
  generate_fernet = do key ← draw S (S.urandom 32); pure (str (url_symbols (b64_digits key)))
