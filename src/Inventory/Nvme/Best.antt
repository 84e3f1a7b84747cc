-- ===== src/Inventory/Nvme/Best.antt =====
-- The format that is chosen is the first of the best.
use chef_bcpc.Prelude.{
  ℕ, zero, suc, ◌+◌, ◌<◌, true, false, some, List, [], ◌∷◌, get_elem?, arith, ◌≡◌, refl, ◌≢◌,
  Bool-cases, inl, inr, ◌⊎◌,
}
use chef_bcpc.Inventory.Nvme.{Lbaf, key_less, enumerate, insert, sorted, optimal_nvme_lbaf}

-- A format is better than another if its relative performance is lower; with the same performance,
-- if its sectors are larger; with the same sectors too, if its metadata is smaller.
abbrev pub Better : Lbaf → Lbaf → Type 0
Better a b = (a.rp < b.rp) ⊎ ((a.rp ≡ b.rp) × ((b.ds < a.ds) ⊎ ((a.ds ≡ b.ds) × (a.ms < b.ms))))

-- No format is better than the format `b` at index `k`, and `b` is better than every one before it.
pub record IsBest (lbafs : List Lbaf) (k : ℕ) (b : Lbaf) : Type 0 where
  pub found : get_elem? lbafs k ≡ some b
  pub least : (j : ℕ) (x : Lbaf) → get_elem? lbafs j ≡ some x → ¬ Better x b
  pub first : (j : ℕ) (x : Lbaf) → get_elem? lbafs j ≡ some x → j < k → Better b x

-- The same, in terms of the keys that are compared.
record IsFirst (lbafs : List Lbaf) (k : ℕ) (b : Lbaf) : Type 0 where
  found : get_elem? lbafs k ≡ some b
  least : (j : ℕ) (x : Lbaf) → get_elem? lbafs j ≡ some x → key_less x b ≡ false
  first : (j : ℕ) (x : Lbaf) → get_elem? lbafs j ≡ some x → j < k → key_less b x ≡ true

compare_cases : (a b : ℕ) → (a < b) ⊎ ((a ≡ b) ⊎ (b < a))
compare_cases zero zero = inr (inl refl)
compare_cases zero (suc b) = inl (omega arith)
compare_cases (suc a) zero = inr (inr (omega arith))
compare_cases (suc a) (suc b) = elim (compare_cases a b) [
  | inl lt ↦ inl (omega arith)
  | inr (inl e) ↦ inr (inl (omega arith))
  | inr (inr gt) ↦ inr (inr (omega arith))
]

key_less-Better : (a b : Lbaf) → key_less a b ≡ true → Better a b
unfolding key_less
key_less-Better a b h = elim (compare_cases a.rp b.rp) [
  | inl lt ↦ inl lt
  | inr (inr gt) ↦ absurd (ground arith)
  | inr (inl e) ↦ inr (
    e,
    elim (compare_cases b.ds a.ds) [
      | inl lt ↦ inl lt
      | inr (inr gt) ↦ absurd (ground arith)
      | inr (inl e') ↦ inr (ground arith, ground arith)
    ],
  )
]

Better-key_less : (a b : Lbaf) → key_less a b ≡ false → ¬ Better a b
unfolding key_less
Better-key_less a b h (inl lt) = ground arith
Better-key_less a b h (inr (e, inl lt)) = ground arith
Better-key_less a b h (inr (e, inr (e', lt))) = ground arith

IsFirst-IsBest : (lbafs : List Lbaf) (k : ℕ) (b : Lbaf) → IsFirst lbafs k b → IsBest lbafs k b
IsFirst-IsBest lbafs k b v = record {
  found = v.found;
  least = λ j x h. Better-key_less x b (v.least j x h);
  first = λ j x h lt. key_less-Better b x (v.first j x h lt);
}

key_less_refl : (a : Lbaf) → key_less a a ≡ false
unfolding key_less
key_less_refl a = ground arith

key_less_asym : (a b : Lbaf) → key_less a b ≡ true → key_less b a ≡ false
unfolding key_less
key_less_asym a b h = ground arith

key_less_trans : (a b c : Lbaf) → key_less b a ≡ false → key_less c b ≡ false → key_less c a ≡ false
unfolding key_less
key_less_trans a b c h k = ground arith

later-IsFirst :
    (l : Lbaf) (lbafs : List Lbaf) (k : ℕ) (b : Lbaf)
    → key_less b l ≡ true
    → IsFirst lbafs k b
    → IsFirst (l ∷ lbafs) (suc k) b
later-IsFirst l lbafs k b better v = record { found = v.found; least = at_least; first = is_first }
  where
    at_least : (j : ℕ) (x : Lbaf) → get_elem? (l ∷ lbafs) j ≡ some x → key_less x b ≡ false
    at_least zero x h = ground (arith, key_less_asym b l)
    at_least (suc j) x h = v.least j x h

    is_first :
        (j : ℕ) (x : Lbaf) → get_elem? (l ∷ lbafs) j ≡ some x → j < suc k → key_less b x ≡ true
    is_first zero x h lt = ground arith
    is_first (suc j) x h lt = v.first j x h (omega arith)

now-IsFirst :
    (l : Lbaf) (lbafs : List Lbaf) (k : ℕ) (b : Lbaf)
    → key_less b l ≡ false
    → IsFirst lbafs k b
    → IsFirst (l ∷ lbafs) 0 l
now-IsFirst l lbafs k b worse v = record {
  found = refl;
  least = at_least;
  first = λ j x h lt. ground arith;
}
  where
    at_least : (j : ℕ) (x : Lbaf) → get_elem? (l ∷ lbafs) j ≡ some x → key_less x l ≡ false
    at_least zero x h = ground (arith, key_less_refl l)
    at_least (suc j) x h = key_less_trans l b x worse (v.least j x h)

-- `xs` begins with the best of `lbafs`, whose index is counted from `n`.
record StartsBest (n : ℕ) (lbafs : List Lbaf) (xs : List (ℕ × Lbaf)) : Type 0 where
  index : ℕ
  best : Lbaf
  rest : List (ℕ × Lbaf)
  shape : xs ≡ (n + index, best) ∷ rest
  is_best : IsFirst lbafs index best

insert-kept :
    (x y : ℕ × Lbaf) (ys : List (ℕ × Lbaf))
    → key_less y.1 x.1 ≡ true
    → insert x (y ∷ ys) ≡ y ∷ insert x ys
unfolding insert
insert-kept x y ys h = rw h refl

insert-first :
    (x y : ℕ × Lbaf) (ys : List (ℕ × Lbaf))
    → key_less y.1 x.1 ≡ false
    → insert x (y ∷ ys) ≡ x ∷ y ∷ ys
unfolding insert
insert-first x y ys h = rw h refl

insert-StartsBest :
    (n : ℕ) (l : Lbaf) (lbafs : List Lbaf) (xs : List (ℕ × Lbaf))
    → StartsBest (suc n) lbafs xs
    → StartsBest n (l ∷ lbafs) (insert (n, l) xs)
insert-StartsBest n l lbafs xs v = elim (Bool-cases (key_less v.best l)) [
  | inl better ↦ record {
    index = suc v.index;
    best = v.best;
    rest = insert (n, l) v.rest;
    shape = rw (v.shape, insert-kept (n, l) (suc n + v.index, v.best) v.rest better) (ground arith);
    is_best = later-IsFirst l lbafs v.index v.best better v.is_best;
  }
  | inr worse ↦ record {
    index = 0;
    best = l;
    rest = (suc n + v.index, v.best) ∷ v.rest;
    shape = rw (v.shape, insert-first (n, l) (suc n + v.index, v.best) v.rest worse) (ground arith);
    is_best = now-IsFirst l lbafs v.index v.best worse v.is_best;
  }
]

sorted-StartsBest :
    (n : ℕ) (l : Lbaf) (lbafs : List Lbaf)
    → StartsBest n (l ∷ lbafs) (sorted (enumerate n (l ∷ lbafs)))
unfolding sorted insert
sorted-StartsBest n l [] = record {
  index = 0;
  best = l;
  rest = [];
  shape = ground arith;
  is_best = record { found = refl; least = λ j x h. only j x h; first = λ j x h lt. ground arith };
}
  where
    only : (j : ℕ) (x : Lbaf) → get_elem? (l ∷ []) j ≡ some x → key_less x l ≡ false
    only zero x h = ground (arith, key_less_refl l)
    only (suc j) x h = cc h
sorted-StartsBest n l (m ∷ lbafs) =
    insert-StartsBest n l (m ∷ lbafs) (sorted (enumerate (suc n) (m ∷ lbafs)))
      (sorted-StartsBest (suc n) m lbafs)

-- Where there is a format, `optimal_nvme_lbaf` answers the index of one that no other is better
-- than, by lower relative performance, then larger sectors, then smaller metadata; of several such
-- formats, the first.
pub optimal_nvme_lbaf-IsBest :
    (lbafs : List Lbaf)
    → lbafs ≢ []
    → (k : ℕ) × (b : Lbaf) × (optimal_nvme_lbaf lbafs ≡ some k) × IsBest lbafs k b
unfolding optimal_nvme_lbaf
optimal_nvme_lbaf-IsBest [] h = absurd (h refl)
optimal_nvme_lbaf-IsBest (l ∷ lbafs) h =
    let v = sorted-StartsBest 0 l lbafs in
    (
      v.index,
      v.best,
      rw v.shape (ground arith),
      IsFirst-IsBest (l ∷ lbafs) v.index v.best v.is_best,
    )
