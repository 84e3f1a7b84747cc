-- ===== src/Dynamic/Texts.antt =====
-- `strip` on a text.
use chef_bcpc.Prelude.{ℕ, Bool, ◌&&◌, ◌||◌, leb, String, str_eq, if◌then◌else◌}
use Prim.Native.Char.{code}

-- ASCII white space
abbrev pub is_space : ℕ → Bool
is_space c = (leb 9 c && leb c 13) || (leb 28 c && leb c 32)

abbrev pub strip_left : String → String
strip_left String.[] = String.[]
strip_left (String.◌∷◌ c s) =
    let rest = strip_left s in if is_space (code c) then rest else String.◌∷◌ c s

abbrev pub strip_right : String → String
strip_right String.[] = String.[]
strip_right (String.◌∷◌ c s) =
    let rest = strip_right s in
    if str_eq rest "" && is_space (code c) then String.[] else String.◌∷◌ c rest

-- `text.strip()`
unfoldable pub strip : String → String
strip s = strip_left (strip_right s)
