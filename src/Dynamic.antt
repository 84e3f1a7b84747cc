-- ===== src/Dynamic.antt =====
-- Python's operations on a value whose type is known only at run time, as the drivers apply them to
-- a decoded reply: `value[key]`, `value.get(key, default)`, `assert`, `value.split('/')`.
pub mod Returns
pub mod Texts
use chef_bcpc.Prelude.{
  ℕ, ◌+◌, ◌==◌, ◌&&◌, ◌||◌, leb, String, Bool, true, false, Option, none, some, List, [], ◌∷◌,
  if◌then◌else◌, contains, str_eq, is_some,
}
use Prim.Native.Char.{code}
use Prim.Native.String.{slice, len}
use text.Mathlib.Text.{find?}
use chef_bcpc.Json.{
  Json, null, bool, num, str, arr, obj, Fields, end, field, lookup, to_list, Json-discrete,
}
use chef_bcpc.Run.{
  Exec, Done, Error, pure, raise, or_raise, key_error, type_error, attribute_error, assertion_error,
}
use chef_bcpc.Run.Pace.{Halts, Halts-pure, Paced-raise, Halts-or_raise}

abbrev pub or_default : Json → Option Json → Json
or_default d none = d
or_default d (some v) = v

-- Texts as code points: `s.casefold()` for ASCII, `part in s`.
abbrev pub codes : String → List ℕ
codes String.[] = []
codes (String.◌∷◌ c s) = code c ∷ codes s

fold_code : ℕ → ℕ
fold_code c = if leb 65 c && leb c 90 then c + 32 else c

pub casefold : List ℕ → List ℕ
unfolding fold_code
casefold [] = []
casefold (c ∷ cs) = fold_code c ∷ casefold cs

begins_with : List ℕ → List ℕ → Bool
begins_with [] cs = true
begins_with (p ∷ ps) [] = false
begins_with (p ∷ ps) (c ∷ cs) = p == c && begins_with ps cs

pub occurs : List ℕ → List ℕ → Bool
unfolding begins_with
occurs part [] = begins_with part []
occurs part (c ∷ cs) = begins_with part (c ∷ cs) || occurs part cs

-- The characters of a text and the keys of a dict, as values.
abbrev pub characters : String → List Json
characters String.[] = []
characters (String.◌∷◌ c s) = str (String.◌∷◌ c String.[]) ∷ characters s

abbrev pub keys : Fields → List Json
keys end = []
keys (field k v fs) = str k ∷ keys fs

-- The members of a value; `none` where it has no such thing.
abbrev pub items_of : Json → Option (List Json)
items_of (arr xs) = some (to_list xs)
items_of (str s) = some (characters s)
items_of (obj fs) = some (keys fs)
items_of null = none
items_of (bool b) = none
items_of (num n) = none

-- A list and a dict have no hash.
abbrev pub is_hashable : Json → Bool
is_hashable (arr xs) = false
is_hashable (obj fs) = false
is_hashable null = true
is_hashable (bool b) = true
is_hashable (num n) = true
is_hashable (str s) = true

-- `k` as a key of a dict, `part` as a part of a text; `none` where Python raises a TypeError.
abbrev pub in_dict : Json → Fields → Option Bool
in_dict (str k) fs = some (is_some (lookup k fs))
in_dict null fs = some false
in_dict (bool b) fs = some false
in_dict (num n) fs = some false
in_dict (arr xs) fs = none
in_dict (obj gs) fs = none

abbrev pub in_text : Json → String → Option Bool
in_text (str part) s = some (occurs (codes part) (codes s))
in_text null s = none
in_text (bool b) s = none
in_text (num n) s = none
in_text (arr xs) s = none
in_text (obj fs) s = none

-- Whether a value is in another: a member of a list, a key of a dict, a part of a text.
abbrev pub holds : Json → Json → Option Bool
holds v (arr xs) = some (contains Json-discrete (to_list xs) v)
holds v (obj fs) = in_dict v fs
holds v (str s) = in_text v s
holds v null = none
holds v (bool b) = none
holds v (num n) = none

module _ {S : Type 0} where
  -- `value[key]`
  unfoldable pub item : String → Json → Exec S Json
  item k (obj fs) = or_raise key_error (lookup k fs)
  item k null = raise type_error
  item k (bool b) = raise type_error
  item k (num n) = raise type_error
  item k (str s) = raise type_error
  item k (arr xs) = raise type_error

  -- `value.get(key, default)`
  unfoldable pub get : String → Json → Json → Exec S Json
  get k d (obj fs) = pure (or_default d (lookup k fs))
  get k d null = raise attribute_error
  get k d (bool b) = raise attribute_error
  get k d (num n) = raise attribute_error
  get k d (str s) = raise attribute_error
  get k d (arr xs) = raise attribute_error

  -- A value on which `remove` is called: only a list has it, and `e` is raised for a value with no
  -- members.
  unfoldable pub as_list : Error → Json → Exec S (List Json)
  as_list e (arr xs) = pure (to_list xs)
  as_list e null = raise e
  as_list e (bool b) = raise e
  as_list e (num n) = raise e
  as_list e (str s) = raise attribute_error
  as_list e (obj fs) = raise attribute_error

  -- What `for` runs over, in a loop or in `set(value)`: the members of a list, the characters of a
  -- text, the keys of a dict.
  unfoldable pub iterate : Json → Exec S (List Json)
  iterate v = or_raise type_error (items_of v)

  -- `v in container`
  unfoldable pub is_in : Json → Json → Exec S Bool
  is_in v container = or_raise type_error (holds v container)

  -- `assert test`
  unfoldable pub assert : Bool → Exec S Done
  assert true = pure tt
  assert false = raise assertion_error

module _ {S : Type 0} (clock : S → ℕ) where
  pub Halts-item : (k : String) (v : Json) → Halts clock (item k v)
  unfolding item
  Halts-item k (obj fs) = Halts-or_raise clock key_error (lookup k fs)
  Halts-item k _ = Paced-raise clock _ type_error

  pub Halts-get : (k : String) (d v : Json) → Halts clock (get k d v)
  unfolding get
  Halts-get k d (obj fs) = Halts-pure clock _
  Halts-get k d _ = Paced-raise clock _ attribute_error

  pub Halts-as_list : (e : Error) (v : Json) → Halts clock (as_list e v)
  unfolding as_list
  Halts-as_list e (arr xs) = Halts-pure clock _
  Halts-as_list e _ = Paced-raise clock _ _

  pub Halts-iterate : (v : Json) → Halts clock (iterate v)
  unfolding iterate
  Halts-iterate v = Halts-or_raise clock type_error (items_of v)

  pub Halts-is_in : (v container : Json) → Halts clock (is_in v container)
  unfolding is_in
  Halts-is_in v container = Halts-or_raise clock type_error (holds v container)

  pub Halts-assert : (b : Bool) → Halts clock (assert b)
  unfolding assert
  Halts-assert true = Halts-pure clock tt
  Halts-assert false = Paced-raise clock _ assertion_error

-- `d[key] = value`: an old entry keeps its place.
abbrev pub put : String → Json → Fields → Fields
put k v end = field k v end
put k v (field j w fs) = if str_eq j k then field j v fs else field j w (put k v fs)

-- `key in value`
unfoldable pub has_key : {S : Type 0} → String → Json → Exec S Bool
has_key k (obj fs) = pure (is_some (lookup k fs))
has_key k (arr xs) = pure (contains Json-discrete (to_list xs) (str k))
has_key k (str s) = pure (occurs (codes k) (codes s))
has_key k null = raise type_error
has_key k (bool b) = raise type_error
has_key k (num n) = raise type_error

pub Halts-has_key : {S : Type 0} (clock : S → ℕ) (k : String) (v : Json) → Halts clock (has_key k v)
unfolding has_key
Halts-has_key clock k (obj fs) = Halts-pure clock _
Halts-has_key clock k (arr xs) = Halts-pure clock _
Halts-has_key clock k (str s) = Halts-pure clock _
Halts-has_key clock k null = Paced-raise clock _ type_error
Halts-has_key clock k (bool b) = Paced-raise clock _ type_error
Halts-has_key clock k (num n) = Paced-raise clock _ type_error

-- `first, second = text.split(separator)`: the two parts, if there are two.
unfoldable pub split_pair : String → String → Option (String × String)
split_pair separator s = elim (find? s separator) [
  | none ↦ none
  | some k ↦
      let rest = slice s (k + len separator) (len s) in
      elim (find? rest separator) [ none ↦ some (slice s 0 k, rest) | some _ ↦ none ]
]
