-- ===== src/Prelude/Texts.antt =====
-- Texts: equality as a decision, and the decimal form of a number (`str(n)`).
use Prim.Native.Nat.{ℕ, zero, suc, ◌+◌, ◌/◌, ◌%◌}
use Prim.Native.String.{String, ◌++◌ as ◌<>◌}
use mathlib.Core.Path.{◌≡◌, refl}
use mathlib.Core.Logic.{dite, ◌≢◌, inl, inr}
use mathlib.Core.Bool.{true, false, Bool-discrete}
use text.Mathlib.Text.{◌==◌ as str_eq}
use text.Mathlib.TextEquality.{eq_iff}
use mathlib.Core.List.{List, [], ◌∷◌}
use native.Mathlib.Omega.{arith}
use chef_bcpc.Prelude.Lists.{contains, distinct}
use chef_bcpc.Prelude.Tests.{◌==◌, if◌then◌else◌, Bool-cases}

unfoldable pub String-discrete : Discrete String
String-discrete s t =
    dite (Bool-discrete (str_eq s t) true) (λ same. yes ((eq_iff s t).0 same))
      (λ differ. no (λ p. differ ((eq_iff s t).1 p)))

pub str_eq_self : (s : String) → str_eq s s ≡ true
str_eq_self s = (eq_iff s s).1 refl

pub str_eq_other : (s t : String) → s ≢ t → str_eq s t ≡ false
str_eq_other s t ne = elim (Bool-cases (str_eq s t)) [
  | inl e ↦ absurd (ne ((eq_iff s t).0 e))
  | inr e ↦ e
]

pub contains-distinct :
    (z : String) (zs : List String)
    → contains String-discrete (distinct String-discrete zs) z ≡ contains String-discrete zs z
contains-distinct z [] = refl
contains-distinct z (x ∷ zs) = ground (arith, contains-distinct z zs, contains-distinct x zs)

digit : ℕ → String
digit zero = "0"
digit (suc zero) = "1"
digit (suc (suc zero)) = "2"
digit (suc (suc (suc zero))) = "3"
digit (suc (suc (suc (suc zero)))) = "4"
digit (suc (suc (suc (suc (suc zero))))) = "5"
digit (suc (suc (suc (suc (suc (suc zero)))))) = "6"
digit (suc (suc (suc (suc (suc (suc (suc zero))))))) = "7"
digit (suc (suc (suc (suc (suc (suc (suc (suc zero)))))))) = "8"
digit _ = "9"

-- Fuel `n + 1` is more than the number of digits of `n`.
print_fuel : ℕ → ℕ → String
unfolding digit
print_fuel zero n = ""
print_fuel (suc f) n =
    let front = print_fuel f (n / 10) in
    if n / 10 == 0 then digit (n % 10) else front <> digit (n % 10)

unfoldable pub print_nat : ℕ → String
unfolding print_fuel
print_nat n = print_fuel (n + 1) n
