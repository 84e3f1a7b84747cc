-- ===== src/Run/Pace/Loops.antt =====
-- Termination of loops: the rounds of a loop that watches a clock are limited by the ticks left.
use chef_bcpc.Prelude.{
  ℕ, zero, suc, ◌+◌, ◌-◌, ◌≤◌, ◌<◌, ◌≡◌, Bool, true, ltb, leb, arith, Bool-cases, inl, inr,
}
use chef_bcpc.Run.{Outcome, ok, raised, diverged, Exec}
use chef_bcpc.Run.Loop.{Step, again, leave, while, while_until, while_before, go_round}
use chef_bcpc.Run.Pace.{
  Ended, Paced, Halts, Ticks, Rounds, cost, Ended-weaken, Ended-shift, Ticks-Rounds,
}

module _ {S : Type 0} (clock : S → ℕ) where
  Ended-go_round :
      {L R : Type 0} (t : ℕ) (rest : L → Exec S (Step L R)) (r : Outcome (Step L R) × S)
      → ((l : L) (s : S) → t + 1 ≤ clock s → Ended clock (λ _. 0) (clock s) (rest l s))
      → Ended clock (cost clock) t r
      → Ended clock (λ _. 0) t (go_round rest r)
  Ended-go_round t rest (ok (again l), s) g e =
      Ended-weaken clock (λ _. 0) (λ _. 0) (clock s) t (rest l s) (λ _. omega arith) (omega arith)
        (g l s e)
  Ended-go_round t rest (ok (leave r), s) g e = e
  Ended-go_round t rest (raised x, s) g e = e
  Ended-go_round t rest (diverged, s) g e = e

  -- Fuel for every tick that is left is enough.
  while-Ended :
      {L R : Type 0} (stop : ℕ) (test : S → Bool) (body : L → Exec S (Step L R))
      → ((s : S) → test s ≡ true → clock s < stop)
      → ((l : L) → Rounds clock (body l))
      → (fuel : ℕ) (l : L) (s : S) → stop < clock s + fuel
      → 0 < fuel
      → Ended clock (λ _. 0) (clock s) (while fuel test body l s)
  unfolding while
  while-Ended stop test body before rounds zero l s enough pos = absurd (omega arith)
  while-Ended stop test body before rounds (suc fuel) l s enough pos = elim (Bool-cases (test s)) [
    | inr e ↦ rw (e, while) (omega arith)
    | inl e ↦
        let lt = before s e in
        rw (e, while)
          (Ended-go_round (clock s) (while fuel test body) (body l s)
            (λ l' u le.
              while-Ended stop test body before rounds fuel l' u (omega arith) (omega arith))
            ((rounds l).at s))
  ]

  pub Halts-while_until :
      {L R : Type 0} (stop : ℕ) (body : L → Exec S (Step L R)) (l : L)
      → ((l : L) → Rounds clock (body l))
      → Halts clock (while_until clock stop body l)
  unfolding while_until
  Halts-while_until stop body l rounds = record {
    at = λ s.
        while-Ended (stop + 1) (λ t. leb (clock t) stop) body (λ u e. ground arith) rounds
          (suc (stop + 1 - clock s)) l s (omega arith) (omega arith);
  }

  pub Halts-while_before :
      {L R : Type 0} (stop : ℕ) (body : L → Exec S (Step L R)) (l : L)
      → ((l : L) → Rounds clock (body l))
      → Halts clock (while_before clock stop body l)
  unfolding while_before
  Halts-while_before stop body l rounds = record {
    at = λ s.
        while-Ended stop (λ t. ltb (clock t) stop) body (λ u e. ground arith) rounds
          (suc (stop - clock s)) l s (omega arith) (omega arith);
  }

  -- Where each round takes a tick, a loop that is left by its body has taken one.
  abbrev pub left : {L R : Type 0} → Step L R → ℕ
  left (again l) = 0
  left (leave r) = 1

  Ended-first_round :
      {L R : Type 0} (t : ℕ) (rest : L → Exec S (Step L R)) (r : Outcome (Step L R) × S)
      → ((l : L) (s : S) → t + 1 ≤ clock s → Ended clock (λ _. 0) (clock s) (rest l s))
      → Ended clock (λ _. 1) t r
      → Ended clock left t (go_round rest r)
  Ended-first_round t rest (ok (again l), s) g e =
      Ended-weaken clock (λ _. 1) left t t (rest l s) (λ a. ground arith) (omega arith)
        (Ended-shift clock t (clock s) (rest l s) e (g l s e))
  Ended-first_round t rest (ok (leave r), s) g e = e
  Ended-first_round t rest (raised x, s) g e = e
  Ended-first_round t rest (diverged, s) g e = e

  while-left :
      {L R : Type 0} (stop : ℕ) (test : S → Bool) (body : L → Exec S (Step L R))
      → ((s : S) → test s ≡ true → clock s < stop)
      → ((l : L) → Ticks clock (body l))
      → (fuel : ℕ) (l : L) (s : S) → stop < clock s + suc fuel
      → Ended clock left (clock s) (while (suc fuel) test body l s)
  unfolding while
  while-left stop test body before ticks fuel l s enough = elim (Bool-cases (test s)) [
    | inr e ↦ rw (e, while) (omega arith)
    | inl e ↦
        let lt = before s e in
        rw (e, while)
          (Ended-first_round (clock s) (while fuel test body) (body l s)
            (λ l' u le.
              while-Ended stop test body before (λ x. Ticks-Rounds clock (body x) (ticks x)) fuel l'
                u (omega arith) (omega arith))
            ((ticks l).at s))
  ]

  pub left-while_until :
      {L R : Type 0} (stop : ℕ) (body : L → Exec S (Step L R)) (l : L)
      → ((l : L) → Ticks clock (body l))
      → Paced clock left (while_until clock stop body l)
  unfolding while_until
  left-while_until stop body l ticks = record {
    at = λ s.
        while-left (stop + 1) (λ t. leb (clock t) stop) body (λ u e. ground arith) ticks
          (stop + 1 - clock s) l s (omega arith);
  }
