-- ===== src/Run/Loop.antt =====
-- `while test: body`, with the loop's variables in `L`. The body goes round `again`, or leaves by a
-- `break` or a `return`. What the loop returns shows how it ended.
use chef_bcpc.Prelude.{ℕ, zero, suc, ◌+◌, ◌-◌, Bool, true, false, ltb, leb}
use chef_bcpc.Run.{Outcome, ok, raised, diverged, Exec}

pub data Step {ℓ κ} (L : Type ℓ) (R : Type κ) : Type (ℓ ⊔ κ) where
  again : L → Step L R
  leave : R → Step L R

module _ {ℓ} {S L R : Type ℓ} where
  abbrev pub go_round : (L → Exec S (Step L R)) → Outcome (Step L R) × S → Outcome (Step L R) × S
  go_round rest (ok (again l), s) = rest l s
  go_round rest (ok (leave r), s) = (ok (leave r), s)
  go_round rest (raised e, s) = (raised e, s)
  go_round rest (diverged, s) = (diverged, s)

  unfoldable pub while : ℕ → (S → Bool) → (L → Exec S (Step L R)) → L → Exec S (Step L R)
  while zero test body l s = (diverged, s)
  while (suc fuel) test body l s = elim (test s) [
    | true ↦ go_round (while fuel test body) (body l s)
    | false ↦ (ok (again l), s)
  ]

-- The two loops of the drivers, which watch a clock. A round that goes `again` takes at least one
-- tick, so there are no more rounds than ticks left.
module _ {ℓ} {S : Type ℓ} (clock : S → ℕ) {L R : Type ℓ} where
  -- `while time.time() <= stop`
  unfoldable pub while_until : ℕ → (L → Exec S (Step L R)) → L → Exec S (Step L R)
  while_until stop body l s = while (suc (stop + 1 - clock s)) (λ t. leb (clock t) stop) body l s

  -- `while time.time() < stop`
  unfoldable pub while_before : ℕ → (L → Exec S (Step L R)) → L → Exec S (Step L R)
  while_before stop body l s = while (suc (stop - clock s)) (λ t. ltb (clock t) stop) body l s
