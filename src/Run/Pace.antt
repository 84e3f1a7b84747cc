-- ===== src/Run/Pace.antt =====
-- Termination of actions on a state that holds a clock: an action ends, by a return or a raise,
-- and the clock does not go back. `Paced k` adds that a return of `a` took `k a` ticks at least.
pub mod Loops
use chef_bcpc.Prelude.{
  ℕ, ◌+◌, ◌-◌, ◌≤◌, ◌≡◌, Bool, true, false, Option, none, some, arith, if◌then◌else◌,
}
use chef_bcpc.Run.{
  Error, Outcome, ok, raised, diverged, Exec, pure, raise, gets, or_raise, catch, modify, ◌>>=◌,
  handle, continue, try_finally, conclude,
}
use chef_bcpc.Run.Loop.{Step, again, leave}

module _ {S : Type 0} (clock : S → ℕ) where
  -- How a call that began at time `t` ended.
  abbrev pub Ended : {A : Type 0} → (A → ℕ) → ℕ → Outcome A × S → Type 0
  Ended k t (ok a, s) = t + k a ≤ clock s
  Ended k t (raised e, s) = t ≤ clock s
  Ended k t (diverged, s) = ⊥

  pub record Paced {A : Type 0} (k : A → ℕ) (m : Exec S A) : Type 0 where
    pub at : (s : S) → Ended k (clock s) (m s)

  abbrev pub Halts : {A : Type 0} → Exec S A → Type 0
  Halts m = Paced (λ _. 0) m

  -- A return takes a tick.
  abbrev pub Ticks : {A : Type 0} → Exec S A → Type 0
  Ticks m = Paced (λ _. 1) m

  -- The body of a loop: going round again takes a tick.
  abbrev pub cost : {L R : Type 0} → Step L R → ℕ
  cost (again l) = 1
  cost (leave r) = 0

  abbrev pub Rounds : {L R : Type 0} → Exec S (Step L R) → Type 0
  Rounds m = Paced cost m

  pub Ended-weaken :
      {A : Type 0} (j k : A → ℕ) (t u : ℕ) (r : Outcome A × S)
      → ((a : A) → k a ≤ j a)
      → u ≤ t
      → Ended j t r
      → Ended k u r
  Ended-weaken j k t u (ok a, s) h le e = omega (arith, h a)
  Ended-weaken j k t u (raised x, s) h le e = omega arith
  Ended-weaken j k t u (diverged, s) h le e = e

  pub Ticks-Halts : {A : Type 0} (m : Exec S A) → Ticks m → Halts m
  Ticks-Halts m p = record {
    at = λ s.
        Ended-weaken (λ _. 1) (λ _. 0) (clock s) (clock s) (m s) (λ a. omega arith) (omega arith)
          (p.at s);
  }

  pub Ticks-Rounds : {L R : Type 0} (m : Exec S (Step L R)) → Ticks m → Rounds m
  Ticks-Rounds m p = record {
    at = λ s.
        Ended-weaken (λ _. 1) cost (clock s) (clock s) (m s) (λ a. ground arith) (omega arith)
          (p.at s);
  }

  pub Halts-pure : {A : Type 0} (a : A) → Halts (pure a)
  unfolding pure
  Halts-pure a = record { at = λ s. omega arith }

  pub Paced-raise : {A : Type 0} (k : A → ℕ) (e : Error) → Paced k (raise e)
  unfolding raise
  Paced-raise k e = record { at = λ s. omega arith }

  pub Rounds-leave : {L R : Type 0} (r : R) → Rounds {L = L} (pure (leave r))
  unfolding pure
  Rounds-leave r = record { at = λ s. omega arith }

  pub Halts-gets : {A : Type 0} (f : S → A) → Halts (gets f)
  unfolding gets
  Halts-gets f = record { at = λ s. omega arith }

  pub Halts-or_raise : {A : Type 0} (e : Error) (o : Option A) → Halts (or_raise e o)
  unfolding or_raise
  Halts-or_raise e none = record { at = λ s. omega arith }
  Halts-or_raise e (some a) = record { at = λ s. omega arith }

  pub Halts-modify : (f : S → S) → ((s : S) → clock (f s) ≡ clock s) → Halts (modify f)
  unfolding modify
  Halts-modify f same = record { at = λ s. omega (arith, same s) }

  Ended-continue :
      {A B : Type 0} (i : ℕ) (k : B → ℕ) (f : A → Exec S B) (t : ℕ) (r : Outcome A × S)
      → ((a : A) (s : S) → t + i ≤ clock s → Ended k t (f a s))
      → Ended (λ _. i) t r
      → Ended k t (continue f r)
  Ended-continue i k f t (ok a, s) g e = g a s e
  Ended-continue i k f t (raised x, s) g e = e
  Ended-continue i k f t (diverged, s) g e = e

  -- The rest keeps the pace, or the first part does.
  pub Paced-bind :
      {A B : Type 0} (k : B → ℕ) (m : Exec S A) (f : A → Exec S B)
      → Halts m
      → ((a : A) → Paced k (f a))
      → Paced k (m >>= f)
  unfolding ◌>>=◌
  Paced-bind k m f hm hf = record {
    at = λ s.
        Ended-continue 0 k f (clock s) (m s)
          (λ a u le.
            Ended-weaken k k (clock u) (clock s) (f a u) (λ b. omega arith) (omega arith)
              ((hf a).at u))
          (hm.at s);
  }

  pub Ended-shift :
      {B : Type 0} (t u : ℕ) (r : Outcome B × S)
      → t + 1 ≤ u
      → Ended (λ _. 0) u r
      → Ended (λ _. 1) t r
  Ended-shift t u (ok a, s) le e = omega arith
  Ended-shift t u (raised x, s) le e = omega arith
  Ended-shift t u (diverged, s) le e = e

  pub Ticks-bind :
      {A B : Type 0} (m : Exec S A) (f : A → Exec S B)
      → Ticks m
      → ((a : A) → Halts (f a))
      → Ticks (m >>= f)
  unfolding ◌>>=◌
  Ticks-bind m f hm hf = record {
    at = λ s.
        Ended-continue 1 (λ _. 1) f (clock s) (m s)
          (λ a u le. Ended-shift (clock s) (clock u) (f a u) le ((hf a).at u)) (hm.at s);
  }

  pub Rounds-bind :
      {A L R : Type 0} (m : Exec S A) (f : A → Exec S (Step L R))
      → Ticks m
      → ((a : A) → Halts (f a))
      → Rounds (m >>= f)
  Rounds-bind m f hm hf = Ticks-Rounds (m >>= f) (Ticks-bind m f hm hf)

  pub Paced-if :
      {A : Type 0} (k : A → ℕ) (b : Bool) (m n : Exec S A)
      → Paced k m
      → Paced k n
      → Paced k (if b then m else n)
  Paced-if k true m n hm hn = hm
  Paced-if k false m n hm hn = hn

  pub Paced-catch :
      {A : Type 0} (k : A → ℕ) (m : Exec S A) (h : Error → Exec S A)
      → Paced k m
      → ((e : Error) → Paced k (h e))
      → Paced k (catch m h)
  unfolding catch
  Paced-catch {A} k m h hm hh = record { at = λ s. handled (clock s) (m s) (hm.at s) }
    where
      handled : (t : ℕ) (r : Outcome A × S) → Ended k t r → Ended k t (handle h r)
      handled t (ok a, s) e = e
      handled t (raised x, s) e =
          Ended-weaken k k (clock s) t (h x s) (λ b. omega arith) e ((hh x).at s)
      handled t (diverged, s) e = e

  Ended-add :
      {B : Type 0} (i t u : ℕ) (k : B → ℕ) (r : Outcome B × S)
      → t + i ≤ u
      → Ended (λ b. k b - i) u r
      → Ended k t r
  Ended-add i t u k (ok b, s) le e = omega arith
  Ended-add i t u k (raised x, s) le e = omega arith
  Ended-add i t u k (diverged, s) le e = e

  -- The time of the first part counts for the whole.
  pub Paced-bind_cost :
      {A B : Type 0} (j : A → ℕ) (k : B → ℕ) (m : Exec S A) (f : A → Exec S B)
      → Paced j m
      → ((a : A) → Paced (λ b. k b - j a) (f a))
      → Paced k (m >>= f)
  unfolding ◌>>=◌
  Paced-bind_cost {A} {B} j k m f hm hf = record { at = λ s. go (clock s) (m s) (hm.at s) }
    where
      go : (t : ℕ) (r : Outcome A × S) → Ended j t r → Ended k t (continue f r)
      go t (ok a, s) e = Ended-add (j a) t (clock s) k (f a s) e ((hf a).at s)
      go t (raised x, s) e = e
      go t (diverged, s) e = e

  pub Halts-try_finally :
      {A B : Type 0} (m : Exec S A) (cleanup : Exec S B)
      → Halts m
      → Halts cleanup
      → Halts (try_finally m cleanup)
  unfolding try_finally
  Halts-try_finally {A} m cleanup hm hc = record { at = λ s. concluded (clock s) (m s) (hm.at s) }
    where
      concluded :
          (t : ℕ) (r : Outcome A × S) → Ended (λ _. 0) t r → Ended (λ _. 0) t (conclude cleanup r)
      concluded t (ok a, s) e =
          Ended-weaken (λ _. 0) (λ _. 0) (clock s) t _ (λ _. omega arith) (omega arith)
            ((Paced-bind (λ _. 0) cleanup (λ _. pure a) hc (λ _. Halts-pure a)).at s)
      concluded t (raised x, s) e =
          Ended-weaken (λ _. 0) (λ _. 0) (clock s) t _ (λ _. omega arith) (omega arith)
            ((Paced-bind (λ _. 0) cleanup (λ _. raise {A = A} x) hc
                (λ _. Paced-raise (λ _. 0) x)).at
              s)
      concluded t (diverged, s) e = e
