-- ===== src/Run/Surely.antt =====
-- Calls that always return, and what a call that returned says of a chain, a handler and a loop.
use chef_bcpc.Prelude.{ℕ, ◌≤◌, String, Bool, true, false, ◌≡◌, refl, ◌∙◌, ap, arith, if◌then◌else◌}
use chef_bcpc.Run.{
  Error, Outcome, ok, raised, diverged, Exec, Done, pure, catch, handle, continue, ◌>>=◌,
}
use chef_bcpc.Run.Loop.{Step, again, leave, go_round}
use chef_bcpc.Run.Pace.{Ended, Halts}

-- A call returns.
pub record Returns {S A : Type 0} (m : Exec S A) : Type 0 where
  pub gives : (s : S) → (a : A) × ((m s).0 ≡ ok a)

module _ {S A B : Type 0} where
  continue-ok :
      (f : A → Exec S B) (r : Outcome A × S) (a : A) → r.0 ≡ ok a → continue f r ≡ f a (r.1)
  continue-ok f (ok b, s) a e = ap (λ x. f x s) (cc e)
  continue-ok f (raised x, s) a e = cc e
  continue-ok f (diverged, s) a e = cc e

  pub bind-ok :
      (m : Exec S A) (f : A → Exec S B) (s : S) (a : A)
      → (m s).0 ≡ ok a
      → (m >>= f) s ≡ f a ((m s).1)
  unfolding ◌>>=◌
  bind-ok m f s a e = continue-ok f (m s) a e

  pub Returns-bind :
      (m : Exec S A) (f : A → Exec S B) → Returns m → ((a : A) → Returns (f a)) → Returns (m >>= f)
  Returns-bind m f hm hf = record {
    gives = λ s.
        let (a, e) = hm.gives s in
        let (b, e') = (hf a).gives ((m s).1) in (b, ap (λ r. r.0) (bind-ok m f s a e) ∙ e');
  }

module _ {S A : Type 0} where
  pub Returns-pure : (a : A) → Returns {S = S} (pure a)
  unfolding pure
  Returns-pure a = record { gives = λ s. (a, refl) }

  pub Returns-if :
      (b : Bool) (m n : Exec S A) → Returns m → Returns n → Returns (if b then m else n)
  Returns-if true m n hm hn = hm
  Returns-if false m n hm hn = hn

  handle-ok :
      (clock : S → ℕ) (h : Error → Exec S A) (t : ℕ) (r : Outcome A × S)
      → ((e : Error) → Returns (h e))
      → Ended clock (λ _. 0) t r
      → (a : A) × ((handle h r).0 ≡ ok a)
  handle-ok clock h t (ok a, s) hh e = (a, refl)
  handle-ok clock h t (raised x, s) hh e = (hh x).gives s
  handle-ok clock h t (diverged, s) hh e = absurd e

  -- A call that ends, and whose exceptions are caught.
  pub Returns-catch :
      (clock : S → ℕ) (m : Exec S A) (h : Error → Exec S A)
      → Halts clock m
      → ((e : Error) → Returns (h e))
      → Returns (catch m h)
  unfolding catch
  Returns-catch clock m h hm hh = record {
    gives = λ s. handle-ok clock h (clock s) (m s) hh (hm.at s);
  }

  pub Ended-later :
      (clock : S → ℕ) (t : ℕ) (r : Outcome A × S) (a : A)
      → Ended clock (λ _. 0) t r
      → r.0 ≡ ok a
      → t ≤ clock (r.1)
  Ended-later clock t (ok b, s) a e g = omega arith
  Ended-later clock t (raised x, s) a e g = cc g
  Ended-later clock t (diverged, s) a e g = cc g

  pub catch-ok :
      (m : Exec S A) (h : Error → Exec S A) (s : S) (a : A)
      → (m s).0 ≡ ok a
      → (catch m h s).0 ≡ ok a
  unfolding catch
  catch-ok m h s a e = handled (m s) e
    where
      handled : (r : Outcome A × S) → r.0 ≡ ok a → (handle h r).0 ≡ ok a
      handled (ok b, t) g = g
      handled (raised x, t) g = cc g
      handled (diverged, t) g = cc g

module _ {S : Type 0} where
  pub go_round_leave :
      (rest : Done → Exec S (Step {0, 0} Done String)) (r : Outcome (Step {0, 0} Done String) × S)
      (d : String)
      → r.0 ≡ ok (leave d)
      → (go_round rest r).0 ≡ ok (leave d)
  go_round_leave rest (ok (leave c), s) d e = e
  go_round_leave rest (ok (again u), s) d e = cc e
  go_round_leave rest (raised x, s) d e = cc e
  go_round_leave rest (diverged, s) d e = cc e

  pub go_round_again :
      (rest : Done → Exec S (Step {0, 0} Done String)) (r : Outcome (Step {0, 0} Done String) × S)
      → r.0 ≡ ok (again tt)
      → go_round rest r ≡ rest tt (r.1)
  go_round_again rest (ok (again u), s) e = refl
  go_round_again rest (ok (leave c), s) e = cc e
  go_round_again rest (raised x, s) e = cc e
  go_round_again rest (diverged, s) e = cc e
