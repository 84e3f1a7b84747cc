-- ===== src/Databags/Codec/Decode.antt =====
-- A reader of Ceph keys, and that it gives back what was packed.
use chef_bcpc.Prelude.{
  ℕ, zero, suc, ◌+◌, ◌*◌, ◌/◌, ◌%◌, ◌<◌, ◌==◌, Option, none, some, List, [], ◌∷◌, ◌++◌, length,
  arith, ◌≡◌, refl, if◌then◌else◌, ap, ◌∙◌,
}
use chef_bcpc.Databags.Codec.{little_endian, pack_header, b64_digits, ceph_digits}

abbrev pub AllBytes : List ℕ → Type 0
AllBytes [] = Unit
AllBytes (b ∷ bytes) = (b < 256) × AllBytes bytes

-- The bytes of Base64 digits.
abbrev pub b64_bytes : List ℕ → List ℕ
b64_bytes (p ∷ q ∷ r ∷ s ∷ digits) =
    let rest = b64_bytes digits in
    if r == 64
    then (p * 4 + q / 16) ∷ []
    else (if s == 64
        then (p * 4 + q / 16) ∷ (q % 16 * 16 + r / 4) ∷ []
        else (p * 4 + q / 16) ∷ (q % 16 * 16 + r / 4) ∷ (r % 4 * 64 + s) ∷ rest)
b64_bytes _ = []

-- Whatever bytes are encoded in Base64, the digits are those bytes' alone.
pub b64_bytes-b64_digits : (bytes : List ℕ) → AllBytes bytes → b64_bytes (b64_digits bytes) ≡ bytes
unfolding b64_digits
b64_bytes-b64_digits [] h = refl
b64_bytes-b64_digits (a ∷ []) h = ground arith
b64_bytes-b64_digits (a ∷ b ∷ []) h = ground arith
b64_bytes-b64_digits (a ∷ b ∷ c ∷ bytes) h = ground (arith, b64_bytes-b64_digits bytes)

-- The bytes of a number, the lowest first, and the number again.
abbrev pub number : List ℕ → ℕ
number [] = 0
number (b ∷ bytes) = b + 256 * number bytes

-- The version, the time in seconds, the nanoseconds, the size and the secret of a packed key.
abbrev pub unpack : List ℕ → Option (ℕ × ℕ × ℕ × ℕ × List ℕ)
unpack (a ∷ b ∷ c ∷ d ∷ e ∷ f ∷ g ∷ h ∷ i ∷ j ∷ k ∷ l ∷ secret) = some (
  number (a ∷ b ∷ []),
  number (c ∷ d ∷ e ∷ f ∷ []),
  number (g ∷ h ∷ i ∷ j ∷ []),
  number (k ∷ l ∷ []),
  secret,
)
unpack _ = none

AllBytes-little_endian : (k n : ℕ) → AllBytes (little_endian k n)
unfolding little_endian
AllBytes-little_endian zero n = tt
AllBytes-little_endian (suc k) n = (omega arith, AllBytes-little_endian k (n / 256))

AllBytes-append : (xs ys : List ℕ) → AllBytes xs → AllBytes ys → AllBytes (xs ++ ys)
AllBytes-append [] ys h g = g
AllBytes-append (x ∷ xs) ys h g = (h.0, AllBytes-append xs ys h.1 g)

abbrev header_of : ℕ → ℕ → List ℕ
header_of seconds size =
    little_endian 2 1 ++ little_endian 4 seconds ++ little_endian 4 0 ++ little_endian 2 size

AllBytes-header : (seconds size : ℕ) → AllBytes (header_of seconds size)
AllBytes-header seconds size =
    AllBytes-append _ _
      (AllBytes-append _ _
        (AllBytes-append _ _ (AllBytes-little_endian 2 1) (AllBytes-little_endian 4 seconds))
        (AllBytes-little_endian 4 0))
      (AllBytes-little_endian 2 size)

unpack-header :
    (seconds : ℕ) (key : List ℕ)
    → seconds < 2147483648
    → length key < 32768
    → unpack (header_of seconds (length key) ++ key) ≡ some (1, seconds, 0, length key, key)
unfolding little_endian
unpack-header seconds key t n = ground arith

pack_header_fits :
    (seconds size : ℕ)
    → seconds < 2147483648
    → size < 32768
    → pack_header 1 seconds 0 size ≡ some (header_of seconds size)
unfolding pack_header
pack_header_fits seconds size t n = ground arith

-- A Ceph key of at most 32767 bytes that is made before 2^31 seconds have passed is encoded, and
-- who reads the code finds version 1, the time, no nanoseconds, the size and the key.
pub unpack-ceph_digits :
    (seconds : ℕ) (key : List ℕ)
    → seconds < 2147483648
    → length key < 32768
    → AllBytes key
    → (digits : List ℕ) × (ceph_digits seconds key ≡ some digits)
      × (unpack (b64_bytes digits) ≡ some (1, seconds, 0, length key, key))
unfolding ceph_digits
unpack-ceph_digits seconds key t n bytes =
    rw (ceph_digits, pack_header_fits seconds (length key) t n)
      (
        b64_digits (header_of seconds (length key) ++ key),
        refl,
        ap unpack (
              b64_bytes-b64_digits (header_of seconds (length key) ++ key) (
                AllBytes-append (header_of seconds (length key)) key
                  (AllBytes-header seconds (length key)) bytes))
            ∙ unpack-header seconds key t n,
      )
