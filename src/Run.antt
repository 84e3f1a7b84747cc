-- ===== src/Run.antt =====
-- Methods that change an object, may raise, and wait: what they return, the exceptions of the
-- programs, and Python's control flow as actions on a state. The state comes back after a raise
-- too, since what was written stays written.
pub mod Loop
pub mod Pace
pub mod Keeps
pub mod Returns
pub mod Surely
use chef_bcpc.Prelude.{Bool, true, false, Option, none, some}

-- The exceptions, without the texts that they carry.
pub data Error : Type 0 where
  unknown_cmd volume_driver volume_backend_api volume_not_found invalid_auth_key : Error
  extend_volume_error brick_exception process_execution_error file_error os_error : Error
  assertion_error key_error index_error attribute_error type_error value_error : Error
  unbound_local_error runtime_error struct_error file_exists_error : Error

-- `diverged`: a loop ran out of its fuel. `Pace` proves that it never happens where the clock runs.
pub data Outcome {ℓ} (A : Type ℓ) : Type ℓ where
  ok : A → Outcome A
  raised : Error → Outcome A
  diverged : Outcome A

abbrev pub Exec {ℓ} : Type ℓ → Type ℓ → Type ℓ
Exec S A = S → Outcome A × S

abbrev pub Done : Type 0
Done = Unit

module _ {ℓ} {S A : Type ℓ} where
  unfoldable pub pure : A → Exec S A
  pure a s = (ok a, s)

  unfoldable pub raise : Error → Exec S A
  raise e s = (raised e, s)

  unfoldable pub gets : (S → A) → Exec S A
  gets f s = (ok (f s), s)

  -- The value of an option, or an exception.
  unfoldable pub or_raise : Error → Option A → Exec S A
  or_raise e none s = (raised e, s)
  or_raise e (some a) s = (ok a, s)

  abbrev pub handle : (Error → Exec S A) → Outcome A × S → Outcome A × S
  handle h (ok a, s) = (ok a, s)
  handle h (raised e, s) = h e s
  handle h (diverged, s) = (diverged, s)

  -- `try: m / except Exception as e: h e`
  unfoldable pub catch : Exec S A → (Error → Exec S A) → Exec S A
  catch m h s = handle h (m s)

-- `except` clauses that name a class.
abbrev pub is_volume_not_found : Error → Bool
is_volume_not_found volume_not_found = true
is_volume_not_found _ = false

-- `cinder.exception.CinderException` and its subclasses
abbrev pub is_cinder_exception : Error → Bool
is_cinder_exception unknown_cmd = true
is_cinder_exception volume_driver = true
is_cinder_exception volume_backend_api = true
is_cinder_exception volume_not_found = true
is_cinder_exception invalid_auth_key = true
is_cinder_exception extend_volume_error = true
is_cinder_exception _ = false

unfoldable pub modify {ℓ} : {S : Type ℓ} → (S → S) → S → Outcome Done × S
modify f s = (ok tt, f s)

module _ {ℓ} {S A B : Type ℓ} where
  abbrev pub continue : (A → Exec S B) → Outcome A × S → Outcome B × S
  continue f (ok a, s) = f a s
  continue f (raised e, s) = (raised e, s)
  continue f (diverged, s) = (diverged, s)

  infixl 10 ◌>>=◌
  unfoldable pub ◌>>=◌ : Exec S A → (A → Exec S B) → Exec S B
  ◌>>=◌ m f s = continue f (m s)

infixl 10 ◌>>◌
abbrev pub ◌>>◌ {ℓ} : {S A B : Type ℓ} → Exec S A → Exec S B → Exec S B
m >> n = m >>= λ _. n

module _ {ℓ} {S A B : Type ℓ} where
  abbrev pub conclude : Exec S B → Outcome A × S → Outcome A × S
  conclude cleanup (ok a, s) = (cleanup >>= λ _. pure a) s
  conclude cleanup (raised e, s) = (cleanup >>= λ _. raise e) s
  conclude cleanup (diverged, s) = (diverged, s)

  -- `try: m / finally: cleanup`
  unfoldable pub try_finally : Exec S A → Exec S B → Exec S A
  try_finally m cleanup s = conclude cleanup (m s)
