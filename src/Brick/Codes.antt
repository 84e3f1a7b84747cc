-- ===== src/Brick/Codes.antt =====
-- Texts as code points: a number, and the pattern of the devices that the connector skips.
use chef_bcpc.Prelude.{
  ℕ, ◌+◌, ◌-◌, ◌*◌, Bool, false, ◌&&◌, ◌||◌, ◌==◌, leb, Option, none, some, List, [], ◌∷◌,
  if◌then◌else◌,
}

abbrev pub is_digit : ℕ → Bool
is_digit c = leb 48 c && leb c 57

-- `int(text)` for a text of digits.
abbrev pub digits_value : ℕ → List ℕ → Option ℕ
digits_value n [] = some n
digits_value n (c ∷ cs) =
    let rest = digits_value (n * 10 + (c - 48)) cs in if is_digit c then rest else none

unfoldable pub int : List ℕ → Option ℕ
int [] = none
int (c ∷ cs) = digits_value 0 (c ∷ cs)

-- `[0-9]+[cp][0-9]+.*`, after a first digit, and from the start.
abbrev pub after_digit : List ℕ → Bool
after_digit [] = false
after_digit (c ∷ []) = false
after_digit (c ∷ d ∷ cs) =
    let rest = after_digit (d ∷ cs) in
    if is_digit c then rest else ((c == 99 || c == 112) && is_digit d)

abbrev pub starts_digit : List ℕ → Bool
starts_digit [] = false
starts_digit (c ∷ cs) = is_digit c

abbrev pub after_nvme : List ℕ → Bool
after_nvme (n ∷ v ∷ m ∷ e ∷ cs) =
    n == 110 && v == 118 && m == 109 && e == 101 && starts_digit cs && after_digit cs
after_nvme _ = false

-- `nvmec_match.match(name)` on a name of one line.
unfoldable pub nvmec_match : List ℕ → Bool
nvmec_match [] = false
nvmec_match (c ∷ cs) = after_nvme (c ∷ cs) || nvmec_match cs
