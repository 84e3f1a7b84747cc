-- ===== src/Inventory/Nvme.antt =====
-- The choice of a format for an NVMe namespace, `optimal_nvme_lbaf` of
-- ansible/playbooks/roles/common/filter_plugins/util.py.
pub mod Best
use chef_bcpc.Prelude.{
  ℕ, suc, ◌==◌, ◌&&◌, ◌||◌, ltb, Bool, Option, none, some, List, [], ◌∷◌, if◌then◌else◌,
}

-- A format as `nvme id-ns` describes it: relative performance, sector size and metadata size.
pub record Lbaf : Type 0 where
  pub rp : ℕ
  pub ds : ℕ
  pub ms : ℕ

-- `lbaf_filter(a) < lbaf_filter(b)` on the keys `(rp, -ds, ms)`.
unfoldable pub key_less : Lbaf → Lbaf → Bool
key_less a b = ltb a.rp b.rp || (a.rp == b.rp && (ltb b.ds a.ds || (a.ds == b.ds && ltb a.ms b.ms)))

-- The formats with their index, from `n` on.
abbrev pub enumerate : ℕ → List Lbaf → List (ℕ × Lbaf)
enumerate n [] = []
enumerate n (l ∷ lbafs) = (n, l) ∷ enumerate (suc n) lbafs

-- `sorted` is stable: a format stands before the later ones with the same key.
unfoldable pub insert : ℕ × Lbaf → List (ℕ × Lbaf) → List (ℕ × Lbaf)
insert x [] = x ∷ []
insert x (y ∷ ys) = let rest = insert x ys in if key_less y.1 x.1 then y ∷ rest else x ∷ y ∷ ys

unfoldable pub sorted : List (ℕ × Lbaf) → List (ℕ × Lbaf)
unfolding insert
sorted [] = []
sorted (x ∷ xs) = insert x (sorted xs)

-- `ordered_lbafs[0]['index']`; `none` is its IndexError.
abbrev pub first_index : List (ℕ × Lbaf) → Option ℕ
first_index [] = none
first_index (x ∷ xs) = some x.0

unfoldable pub optimal_nvme_lbaf : List Lbaf → Option ℕ
unfolding sorted
optimal_nvme_lbaf lbafs = first_index (sorted (enumerate 0 lbafs))
