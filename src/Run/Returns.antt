-- ===== src/Run/Returns.antt =====
-- What a normal return says: the parts of a chain returned too, and a loop was left by one of its
-- rounds, or ran out of time after one.
use chef_bcpc.Prelude.{
  ℕ, zero, suc, ◌≡◌, ◌⊎◌, inl, inr, Bool, true, false, refl, Option, none, some, if◌then◌else◌,
}
use chef_bcpc.Run.{
  Error, Outcome, ok, raised, diverged, Exec, pure, raise, or_raise, ◌>>=◌, continue,
}
use chef_bcpc.Run.Loop.{Step, again, leave, while, while_until, while_before, go_round}

-- `r` is a normal return of `a` in the state `t`.
abbrev pub Gave : {S A : Type 0} → Outcome A × S → A → S → Type 0
Gave r a t = (r.0 ≡ ok a) × (r.1 ≡ t)

module _ {S A B : Type 0} where
  continue-Gave :
      (f : A → Exec S B) (r : Outcome A × S) (b : B) (t : S)
      → Gave (continue f r) b t
      → (a : A) × (r.0 ≡ ok a) × Gave (f a (r.1)) b t
  continue-Gave f (ok a, s) b t h = (a, refl, h)
  continue-Gave f (raised e, s) b t h = cc (h.0)
  continue-Gave f (diverged, s) b t h = cc (h.0)

  pub bind-Gave :
      (m : Exec S A) (f : A → Exec S B) (s : S) (b : B) (t : S)
      → Gave ((m >>= f) s) b t
      → (a : A) × ((m s).0 ≡ ok a) × Gave (f a ((m s).1)) b t
  unfolding ◌>>=◌
  bind-Gave m f s b t h = continue-Gave f (m s) b t h

module _ {S A : Type 0} where
  pub pure-Gave : (a b : A) (s t : S) → Gave (pure a s) b t → (a ≡ b) × (s ≡ t)
  unfolding pure
  pure-Gave a b s t h = (cc (h.0), h.1)

  pub raise-Gave : (e : Error) (b : A) (s t : S) → Gave (raise e s) b t → ⊥
  unfolding raise
  raise-Gave e b s t h = cc (h.0)

  pub or_raise-Gave :
      (e : Error) (o : Option A) (b : A) (s t : S)
      → Gave (or_raise e o s) b t
      → (o ≡ some b) × (s ≡ t)
  unfolding or_raise
  or_raise-Gave e none b s t h = cc (h.0)
  or_raise-Gave e (some a) b s t h = (cc (h.0), h.1)

  pub if-Gave :
      (b : Bool) (m n : Exec S A) (s : S) (a : A) (t : S)
      → Gave ((if b then m else n) s) a t
      → ((b ≡ true) × Gave (m s) a t) ⊎ ((b ≡ false) × Gave (n s) a t)
  if-Gave true m n s a t h = inl (refl, h)
  if-Gave false m n s a t h = inr (refl, h)

module _ {S L R : Type 0} (body : L → Exec S (Step L R)) where
  -- A round that ended as `last` in the state `t`.
  abbrev pub Round : Step L R → S → Type 0
  Round last t = (l : L) × (s : S) × Gave (body l s) last t

  go_round-Gave :
      (rest : L → Exec S (Step L R)) (l : L) (s : S) (r : Outcome (Step L R) × S) (last : Step L R)
      (t : S)
      → (body l s).0 ≡ r.0
      → (body l s).1 ≡ r.1
      → ((k : L) (u : S) → Gave (rest k u) last t → ((last ≡ again k) × (u ≡ t)) ⊎ Round last t)
      → Gave (go_round rest r) last t
      → Round last t
  go_round-Gave rest l s (ok (again k), u) last t e e' ih h = elim (ih k u h) [
    | inl stopped ↦ (l, s, (cc (e, stopped.0), cc (e', stopped.1)))
    | inr round ↦ round
  ]
  go_round-Gave rest l s (ok (leave r), u) last t e e' ih h = (l, s, (cc (e, h.0), cc (e', h.1)))
  go_round-Gave rest l s (raised x, u) last t e e' ih h = cc (h.0)
  go_round-Gave rest l s (diverged, u) last t e e' ih h = cc (h.0)

  while-Gave :
      (fuel : ℕ) (test : S → Bool) (l : L) (s : S) (last : Step L R) (t : S)
      → Gave (while fuel test body l s) last t
      → ((last ≡ again l) × (s ≡ t)) ⊎ Round last t
  unfolding while
  while-Gave zero test l s last t h = cc (h.0)
  while-Gave (suc fuel) test l s last t h =
      go (test s) refl (λ k u. while-Gave fuel test k u last t) h
    where
      go :
          (b : Bool)
          → test s ≡ b
          → ((k : L) (u : S)
              → Gave (while fuel test body k u) last t
              → ((last ≡ again k) × (u ≡ t)) ⊎ Round last t)
          → Gave
              (elim b [
                | true ↦ go_round (while fuel test body) (body l s)
                | false ↦ (ok (again l), s)
              ])
              last
              t
          → ((last ≡ again l) × (s ≡ t)) ⊎ Round last t
      go false e ih k = inl (cc (k.0), k.1)
      go true e ih k =
          inr (go_round-Gave (while fuel test body) l s (body l s) last t refl refl ih k)

  module _ (clock : S → ℕ) where
    pub while_until-Gave :
        (stop : ℕ) (l : L) (s : S) (last : Step L R) (t : S)
        → Gave (while_until clock stop body l s) last t
        → ((last ≡ again l) × (s ≡ t)) ⊎ Round last t
    unfolding while_until
    while_until-Gave stop l s last t h = while-Gave _ _ l s last t h

    pub while_before-Gave :
        (stop : ℕ) (l : L) (s : S) (last : Step L R) (t : S)
        → Gave (while_before clock stop body l s) last t
        → ((last ≡ again l) × (s ≡ t)) ⊎ Round last t
    unfolding while_before
    while_before-Gave stop l s last t h = while-Gave _ _ l s last t h
