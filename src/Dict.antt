-- ===== src/Dict.antt =====
-- Python dictionaries with keys that are texts, as their entries in the order of insertion.
use chef_bcpc.Prelude.{
  String, String-discrete, Option, none, some, List, [], ◌∷◌, ite, if_pos, if_neg, arith, ◌≡◌, ◌≢◌,
  refl, subst, sym, ◌∙◌, ap,
}

abbrev pub Dict {ℓ} : Type ℓ → Type ℓ
Dict V = List (String × V)

module _ {ℓ} {V : Type ℓ} where
  -- `d.get(k)`
  abbrev pub find : String → Dict V → Option V
  find k [] = none
  find k ((j, v) ∷ d) = ite (String-discrete j k) (some v) (find k d)

  -- `d[k] = v`: an old entry keeps its place.
  abbrev pub put : String → V → Dict V → Dict V
  put k v [] = (k, v) ∷ []
  put k v ((j, w) ∷ d) =
      let rest = put k v d in ite (String-discrete j k) ((j, v) ∷ d) ((j, w) ∷ rest)

  -- `d.update(new)`
  unfoldable pub update : Dict V → Dict V → Dict V
  update d [] = d
  update d ((k, v) ∷ new) = update (put k v d) new

  -- `del d[k]`
  abbrev pub drop : String → Dict V → Dict V
  drop k [] = []
  drop k ((j, v) ∷ d) = let rest = drop k d in ite (String-discrete j k) d ((j, v) ∷ rest)

  -- The value that stands, when `new` comes over `old`.
  abbrev pub override : Option V → Option V → Option V
  override none old = old
  override (some v) old = some v

  -- A dictionary has a key once.
  abbrev pub IsDict : Dict V → Type ℓ
  IsDict [] = Unit {ℓ}
  IsDict ((k, v) ∷ d) = (find k d ≡ none) × IsDict d

  pub find-put_same : (k : String) (v : V) (d : Dict V) → find k (put k v d) ≡ some v
  find-put_same k v [] = ground arith
  find-put_same k v ((i, w) ∷ d) = ground (arith, find-put_same k v d)

  pub find-put_other : (k j : String) (v : V) (d : Dict V) → j ≢ k → find k (put j v d) ≡ find k d
  find-put_other k j v [] h = ground arith
  find-put_other k j v ((i, w) ∷ d) h = ground (arith, find-put_other k j v d h)

  find_head : (k : String) (v : V) (d : Dict V) → find k ((k, v) ∷ d) ≡ some v
  find_head k v d = ground arith

  find_tail : (k j : String) (v : V) (d : Dict V) → j ≢ k → find k ((j, v) ∷ d) ≡ find k d
  find_tail k j v d h = ground arith

  update_head :
      (k : String) (v : V) (d new : Dict V)
      → find k new ≡ none
      → find k (update (put k v d) new) ≡ override (find k new) (find k (put k v d))
      → find k (update (put k v d) new) ≡ override (find k ((k, v) ∷ new)) (find k d)
  update_head k v d new absent h =
      h
      ∙ ap (λ o. override o (find k (put k v d))) absent
      ∙ find-put_same k v d
      ∙ (sym (ap (λ o. override o (find k d)) (find_head k v new)))

  -- After `d.update(new)` a key has its value in `new`, if it is in there, or else its value in `d`.
  pub find-update :
      (k : String) (d new : Dict V)
      → IsDict new
      → find k (update d new) ≡ override (find k new) (find k d)
  unfolding update
  find-update k d [] h = refl
  find-update k d ((j, v) ∷ new) h = elim (String-discrete j k) [
    | yes e ↦
        subst (λ i. find i (update (put j v d) new) ≡ override (find i ((j, v) ∷ new)) (find i d)) e
          (update_head j v d new h.0 (find-update j (put j v d) new h.1))
    | no ne ↦
        rw (find-update k (put j v d) new h.1, find-put_other k j v d ne, find_tail k j v new ne)
          refl
  ]

  -- `del` of a key that stands once.
  pub find-drop_same : (k : String) (d : Dict V) → IsDict d → find k (drop k d) ≡ none
  find-drop_same k [] h = refl
  find-drop_same k ((j, v) ∷ d) h = elim (String-discrete j k) [
    | yes e ↦ ground (arith, ap (λ i. find i d) e, h.0)
    | no ne ↦ ground (arith, find-drop_same k d h.1)
  ]

  pub find-drop_other : (k j : String) (d : Dict V) → j ≢ k → find k (drop j d) ≡ find k d
  find-drop_other k j [] h = refl
  find-drop_other k j ((i, w) ∷ d) h = ground (arith, find-drop_other k j d h)

  put_match : (k j : String) (v w : V) (d : Dict V) → j ≡ k → put k v ((j, w) ∷ d) ≡ (j, v) ∷ d
  put_match k j v w d e = if_pos (String-discrete j k) e ((j, v) ∷ d) ((j, w) ∷ put k v d)

  put_miss :
      (k j : String) (v w : V) (d : Dict V) → j ≢ k → put k v ((j, w) ∷ d) ≡ (j, w) ∷ put k v d
  put_miss k j v w d ne = if_neg (String-discrete j k) ne ((j, v) ∷ d) ((j, w) ∷ put k v d)

  drop_match : (k j : String) (w : V) (d : Dict V) → j ≡ k → drop k ((j, w) ∷ d) ≡ d
  drop_match k j w d e = if_pos (String-discrete j k) e d ((j, w) ∷ drop k d)

  drop_miss : (k j : String) (w : V) (d : Dict V) → j ≢ k → drop k ((j, w) ∷ d) ≡ (j, w) ∷ drop k d
  drop_miss k j w d ne = if_neg (String-discrete j k) ne d ((j, w) ∷ drop k d)

  pub IsDict-put : (k : String) (v : V) (d : Dict V) → IsDict d → IsDict (put k v d)
  IsDict-put k v [] h = (refl, tt)
  IsDict-put k v ((j, w) ∷ d) h = elim (String-discrete j k) [
    | yes e ↦ subst IsDict (sym (put_match k j v w d e)) h
    | no ne ↦
        subst IsDict (sym (put_miss k j v w d ne))
          (find-put_other j k v d (λ e. ne (sym e)) ∙ h.0, IsDict-put k v d h.1)
  ]

  pub IsDict-drop : (k : String) (d : Dict V) → IsDict d → IsDict (drop k d)
  IsDict-drop k [] h = h
  IsDict-drop k ((j, w) ∷ d) h = elim (String-discrete j k) [
    | yes e ↦ subst IsDict (sym (drop_match k j w d e)) h.1
    | no ne ↦
        subst IsDict (sym (drop_miss k j w d ne))
          (find-drop_other j k d (λ e. ne (sym e)) ∙ h.0, IsDict-drop k d h.1)
  ]
