-- ===== src/Json.antt =====
-- JSON values as the drivers read them: Python's `None`, `bool`, `int`, `str`, `list` and `dict`.
-- A dict is its entries in insertion order. Numbers are the non-negative integers.
use chef_bcpc.Prelude.{
  ℕ, String, String-discrete, ℕ_discrete, Bool, true, false, Option, none, some, List, [], ◌∷◌,
  ◌<>◌, str_eq, if◌then◌else◌, print_nat, ◌==◌, not, ite,
}

mutual
  pub data Json : Type 0 where
    null : Json
    bool : Bool → Json
    num : ℕ → Json
    str : String → Json
    arr : Items → Json
    obj : Fields → Json

  pub data Items : Type 0 where
    nil : Items
    cons : Json → Items → Items

  pub data Fields : Type 0 where
    end : Fields
    field : String → Json → Fields → Fields

unfoldable pub Json-discrete : Discrete Json
Json-discrete = hlevel (String-discrete, ℕ_discrete)

abbrev pub to_list : Items → List Json
to_list nil = []
to_list (cons x xs) = x ∷ to_list xs

abbrev pub of_list : List Json → Items
of_list [] = nil
of_list (x ∷ xs) = cons x (of_list xs)

-- `d.get(key)` on a dict, `none` for a missing key.
abbrev pub lookup : String → Fields → Option Json
lookup k end = none
lookup k (field j v fs) = if str_eq j k then some v else lookup k fs

-- Python's truth of a value: `None`, `False`, `0`, `''`, `[]` and `{}` are false.
abbrev pub truthy : Json → Bool
truthy null = false
truthy (bool b) = b
truthy (num n) = not (n == 0)
truthy (str s) = not (str_eq s "")
truthy (arr nil) = false
truthy (arr (cons x xs)) = true
truthy (obj end) = false
truthy (obj (field k v fs)) = true

-- `value == text`, for a text known to the program.
abbrev pub is_text : String → Json → Bool
is_text s v = ite (Json-discrete v (str s)) true false

-- `str(value)`, and `repr(value)` for the values inside a container (texts with no quotation
-- mark, backslash or control character).
unfoldable mutual
  pub print : Json → String
  print null = "None"
  print (bool true) = "True"
  print (bool false) = "False"
  print (num n) = print_nat n
  print (str s) = s
  print (arr xs) = "[" <> print_items xs <> "]"
  print (obj fs) = "{" <> print_fields fs <> "}"

  pub repr : Json → String
  repr null = "None"
  repr (bool true) = "True"
  repr (bool false) = "False"
  repr (num n) = print_nat n
  repr (str s) = "'" <> s <> "'"
  repr (arr xs) = "[" <> print_items xs <> "]"
  repr (obj fs) = "{" <> print_fields fs <> "}"

  pub print_items : Items → String
  print_items nil = ""
  print_items (cons x nil) = repr x
  print_items (cons x (cons y xs)) = repr x <> ", " <> print_items (cons y xs)

  pub print_fields : Fields → String
  print_fields end = ""
  print_fields (field k v end) = "'" <> k <> "': " <> repr v
  print_fields (field k v (field j w fs)) =
      "'" <> k <> "': " <> repr v <> ", " <> print_fields (field j w fs)
