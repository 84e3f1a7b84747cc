-- ===== src/Run/Keeps.antt =====
-- What actions do to a part of the state, whether they return or raise: `rel` relates the part
-- before to the part after, and no IndexError is raised where the part was `good`. A loop does what its rounds do.
use chef_bcpc.Prelude.{
  ℕ, zero, suc, ◌≡◌, Bool, true, false, Option, none, some, if◌then◌else◌, subst, sym, Bool-cases,
  inl, inr,
}
use chef_bcpc.Run.{
  Error, index_error, Outcome, ok, raised, diverged, Exec, pure, raise, gets, or_raise, catch,
  modify, ◌>>=◌, handle, continue, try_finally, conclude,
}
use chef_bcpc.Run.Loop.{Step, again, leave, while, while_until, while_before, go_round}

abbrev pub is_index_error : Error → Bool
is_index_error index_error = true
is_index_error _ = false

-- A relation that actions can be chained along, from a part that is `good`.
pub record Relation (V : Type 0) : Type 1 where
  pub rel : V → V → Type 0
  pub rel_refl : (v : V) → rel v v
  pub rel_trans : {u v w : V} → rel u v → rel v w → rel u w
  pub good : V → Type 0
  pub stays_good : {u v : V} → rel u v → good u → good v

module _ {S V : Type 0} (view : S → V) (R : Relation V) where
  abbrev pub Kept : {A : Type 0} → V → Outcome A × S → Type 0
  Kept v (ok a, s) = R.rel v (view s)
  Kept v (raised e, s) = R.rel v (view s) × (is_index_error e ≡ false)
  Kept v (diverged, s) = R.rel v (view s)

  pub record Keeps {A : Type 0} (m : Exec S A) : Type 0 where
    pub at : (s : S) → R.good (view s) → Kept (view s) (m s)

  Kept-trans : {A : Type 0} (u v : V) (r : Outcome A × S) → R.rel u v → Kept v r → Kept u r
  Kept-trans u v (ok a, s) p q = R.rel_trans p q
  Kept-trans u v (raised e, s) p q = (R.rel_trans p q.0, q.1)
  Kept-trans u v (diverged, s) p q = R.rel_trans p q

  pub Keeps-pure : {A : Type 0} (a : A) → Keeps (pure a)
  unfolding pure
  Keeps-pure a = record { at = λ s g. R.rel_refl (view s) }

  pub Keeps-raise : {A : Type 0} (e : Error) → is_index_error e ≡ false → Keeps (raise {A = A} e)
  unfolding raise
  Keeps-raise e h = record { at = λ s g. (R.rel_refl (view s), h) }

  pub Keeps-gets : {A : Type 0} (f : S → A) → Keeps (gets f)
  unfolding gets
  Keeps-gets f = record { at = λ s g. R.rel_refl (view s) }

  pub Keeps-or_raise :
      {A : Type 0} (e : Error) (o : Option A) → is_index_error e ≡ false → Keeps (or_raise e o)
  unfolding or_raise
  Keeps-or_raise e none h = record { at = λ s g. (R.rel_refl (view s), h) }
  Keeps-or_raise e (some a) h = record { at = λ s g. R.rel_refl (view s) }

  -- A change outside the view.
  pub Keeps-modify : (f : S → S) → ((s : S) → view (f s) ≡ view s) → Keeps (modify f)
  unfolding modify
  Keeps-modify f same = record {
    at = λ s g. subst (λ v. R.rel (view s) v) (sym (same s)) (R.rel_refl (view s));
  }

  Kept-continue :
      {A B : Type 0} (v : V) (f : A → Exec S B) (r : Outcome A × S)
      → ((a : A) → Keeps (f a))
      → R.good v
      → Kept v r
      → Kept v (continue f r)
  Kept-continue v f (ok a, s) hf g h =
      Kept-trans v (view s) (f a s) h ((hf a).at s (R.stays_good h g))
  Kept-continue v f (raised e, s) hf g h = h
  Kept-continue v f (diverged, s) hf g h = h

  pub Keeps-bind :
      {A B : Type 0} (m : Exec S A) (f : A → Exec S B)
      → Keeps m
      → ((a : A) → Keeps (f a))
      → Keeps (m >>= f)
  unfolding ◌>>=◌
  Keeps-bind m f hm hf = record { at = λ s g. Kept-continue (view s) f (m s) hf g (hm.at s g) }

  pub Keeps-if :
      {A : Type 0} (b : Bool) (m n : Exec S A) → Keeps m → Keeps n → Keeps (if b then m else n)
  Keeps-if true m n hm hn = hm
  Keeps-if false m n hm hn = hn

  Kept-handle :
      {A : Type 0} (v : V) (h : Error → Exec S A) (r : Outcome A × S)
      → ((e : Error) → is_index_error e ≡ false → Keeps (h e))
      → R.good v
      → Kept v r
      → Kept v (handle h r)
  Kept-handle v h (ok a, s) hh g k = k
  Kept-handle v h (raised e, s) hh g k =
      Kept-trans v (view s) (h e s) k.0 ((hh e k.1).at s (R.stays_good k.0 g))
  Kept-handle v h (diverged, s) hh g k = k

  pub Keeps-catch :
      {A : Type 0} (m : Exec S A) (h : Error → Exec S A)
      → Keeps m
      → ((e : Error) → is_index_error e ≡ false → Keeps (h e))
      → Keeps (catch m h)
  unfolding catch
  Keeps-catch m h hm hh = record { at = λ s g. Kept-handle (view s) h (m s) hh g (hm.at s g) }

  Kept-conclude :
      {A B : Type 0} (v : V) (cleanup : Exec S B) (r : Outcome A × S)
      → Keeps cleanup
      → R.good v
      → Kept v r
      → Kept v (conclude cleanup r)
  Kept-conclude v cleanup (ok a, s) hc g k =
      Kept-trans v (view s) _ k
        ((Keeps-bind cleanup (λ _. pure a) hc (λ _. Keeps-pure a)).at s (R.stays_good k g))
  Kept-conclude {A} v cleanup (raised e, s) hc g k = Kept-trans v (view s) _ k.0 (
      (Keeps-bind cleanup (λ _. raise {A = A} e) hc (λ _. Keeps-raise e k.1)).at s
        (R.stays_good k.0 g))
  Kept-conclude v cleanup (diverged, s) hc g k = k

  pub Keeps-try_finally :
      {A B : Type 0} (m : Exec S A) (cleanup : Exec S B)
      → Keeps m
      → Keeps cleanup
      → Keeps (try_finally m cleanup)
  unfolding try_finally
  Keeps-try_finally m cleanup hm hc = record {
    at = λ s g. Kept-conclude (view s) cleanup (m s) hc g (hm.at s g);
  }

  Kept-go_round :
      {L Q : Type 0} (v : V) (rest : L → Exec S (Step L Q)) (r : Outcome (Step L Q) × S)
      → ((l : L) → Keeps (rest l))
      → R.good v
      → Kept v r
      → Kept v (go_round rest r)
  Kept-go_round v rest (ok (again l), s) hr g k =
      Kept-trans v (view s) (rest l s) k ((hr l).at s (R.stays_good k g))
  Kept-go_round v rest (ok (leave q), s) hr g k = k
  Kept-go_round v rest (raised e, s) hr g k = k
  Kept-go_round v rest (diverged, s) hr g k = k

  Keeps-while :
      {L Q : Type 0} (fuel : ℕ) (test : S → Bool) (body : L → Exec S (Step L Q))
      → ((l : L) → Keeps (body l))
      → (l : L) → Keeps (while fuel test body l)
  unfolding while
  Keeps-while zero test body hb l = record { at = λ s g. R.rel_refl (view s) }
  Keeps-while (suc fuel) test body hb l = record {
    at = λ s g. elim (Bool-cases (test s)) [
      | inr e ↦ rw (e, while) (R.rel_refl (view s))
      | inl e ↦
          rw (e, while)
            (Kept-go_round (view s) (while fuel test body) (body l s)
              (Keeps-while fuel test body hb) g ((hb l).at s g))
    ];
  }

  module _ (clock : S → ℕ) {L Q : Type 0} where
    pub Keeps-while_until :
        (stop : ℕ) (body : L → Exec S (Step L Q)) (l : L)
        → ((l : L) → Keeps (body l))
        → Keeps (while_until clock stop body l)
    unfolding while_until
    Keeps-while_until stop body l hb = record { at = λ s g. (Keeps-while _ _ body hb l).at s g }

    pub Keeps-while_before :
        (stop : ℕ) (body : L → Exec S (Step L Q)) (l : L)
        → ((l : L) → Keeps (body l))
        → Keeps (while_before clock stop body l)
    unfolding while_before
    Keeps-while_before stop body l hb = record { at = λ s g. (Keeps-while _ _ body hb l).at s g }
