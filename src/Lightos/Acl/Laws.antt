-- ===== src/Lightos/Acl/Laws.antt =====
-- What the updates do to the members of an ACL.
use chef_bcpc.Prelude.{
  true, false, List, [], ◌∷◌, ◌++◌, arith, ◌≡◌, ◌≢◌, ◌⊎◌, inl, inr, refl, sym, ◌∙◌, ite, Bool-cases,
}
use mathlib.Core.Bool.{◌||◌}
use chef_bcpc.Json.{Json, Json-discrete}
use chef_bcpc.Lightos.Volume.{allow_none}
use chef_bcpc.Lightos.Acl.{member, discard, add_host, or_allow_none, remove_host}

-- No entry stands twice.
abbrev pub IsDistinct : List Json → Type 0
IsDistinct [] = Unit
IsDistinct (a ∷ acl) = (member a acl ≡ false) × IsDistinct acl

discard-cons :
    (a x : Json) (acl : List Json)
    → discard a (x ∷ acl) ≡ ite (Json-discrete x a) acl (x ∷ discard a acl)
unfolding discard
discard-cons a x acl = ground arith

pub member-discard_ne :
    (a b : Json) (acl : List Json) → a ≢ b → member b (discard a acl) ≡ member b acl
unfolding discard
member-discard_ne a b [] ne = refl
member-discard_ne a b (x ∷ acl) ne =
    ground (arith, member-discard_ne a b acl ne, discard-cons a x acl)

pub member-discard :
    (a b : Json) (acl : List Json) → member b (discard a acl) ≡ true → member b acl ≡ true
unfolding discard
member-discard a b [] h = h
member-discard a b (x ∷ acl) h = ground (arith, member-discard a b acl, discard-cons a x acl)

pub member-discard_self :
    (a : Json) (acl : List Json) → IsDistinct acl → member a (discard a acl) ≡ false
unfolding discard
member-discard_self a [] h = refl
member-discard_self a (x ∷ acl) h =
    ground (arith, member-discard_self a acl h.1, discard-cons a x acl)

pub discard-IsDistinct : (a : Json) (acl : List Json) → IsDistinct acl → IsDistinct (discard a acl)
unfolding discard
discard-IsDistinct a [] h = tt
discard-IsDistinct a (x ∷ acl) h =
    ground (arith, discard-IsDistinct a acl h.1, discard-cons a x acl, member-discard a x acl)

pub member-append :
    (b : Json) (xs ys : List Json) → member b (xs ++ ys) ≡ (member b xs || member b ys)
member-append b [] ys = refl
member-append b (x ∷ xs) ys = ground (arith, member-append b xs ys)

pub append-IsDistinct :
    (b : Json) (xs : List Json) → IsDistinct xs → member b xs ≡ false → IsDistinct (xs ++ b ∷ [])
append-IsDistinct b [] h n = (refl, tt)
append-IsDistinct b (x ∷ xs) h n =
    ground (arith, append-IsDistinct b xs h.1, member-append x xs (b ∷ []))

pub discard_fresh : (a : Json) (acl : List Json) → member a acl ≡ false → discard a acl ≡ acl
unfolding discard
discard_fresh a [] h = refl
discard_fresh a (x ∷ acl) h = ground (arith, discard_fresh a acl, discard-cons a x acl)

discard-append :
    (a : Json) (acl : List Json) → member a acl ≡ false → discard a (acl ++ a ∷ []) ≡ acl
unfolding discard
discard-append a [] h = ground arith
discard-append a (x ∷ acl) h =
    ground (arith, discard-append a acl, discard-cons a x (acl ++ a ∷ []))

-- The form in which the driver keeps an ACL: closed to all, or a list of hosts with no repetition.
pub record IsAcl (acl : List Json) : Type 0 where
  pub shape : (acl ≡ allow_none ∷ []) ⊎ ((acl ≢ []) × (member allow_none acl ≡ false))
  pub distinct : IsDistinct acl

hosts-fresh : (acl : List Json) → IsAcl acl → member allow_none (discard allow_none acl) ≡ false
hosts-fresh acl v = member-discard_self allow_none acl v.distinct

append-ne-nil : (host : Json) (acl : List Json) → acl ++ host ∷ [] ≢ []
append-ne-nil host [] = ground arith
append-ne-nil host (x ∷ acl) = ground arith

member-ne-nil : (host : Json) (acl : List Json) → member host acl ≡ true → acl ≢ []
member-ne-nil host [] h = cc
member-ne-nil host (x ∷ acl) h = ground arith

none_added :
    (host : Json) (acl : List Json)
    → IsAcl acl
    → host ≢ allow_none
    → member allow_none (discard allow_none acl ++ host ∷ []) ≡ false
none_added host acl v ne =
    ground (arith, member-append allow_none (discard allow_none acl) (host ∷ []), hosts-fresh acl v)

-- Adding a host to an ACL in that form keeps the form; the host is in the list, and every other
-- entry is in it exactly if it was, ALLOW_NONE apart, which is gone.
pub add_host-IsAcl :
    (host : Json) (acl : List Json)
    → IsAcl acl
    → host ≢ allow_none
    → IsAcl (add_host host acl)
      × (member host (add_host host acl) ≡ true)
      × (member allow_none (add_host host acl) ≡ false)
      × ((b : Json) → b ≢ host → b ≢ allow_none → member b (add_host host acl) ≡ member b acl)
unfolding add_host
add_host-IsAcl host acl v ne = elim (Bool-cases (member host (discard allow_none acl))) [
  | inl old ↦ rw old (
    record {
      shape = inr (member-ne-nil host (discard allow_none acl) old, hosts-fresh acl v);
      distinct = discard-IsDistinct allow_none acl v.distinct;
    },
    old,
    hosts-fresh acl v,
    λ b bh bn. member-discard_ne allow_none b acl (λ e. bn (sym e)),
  )
  | inr new ↦ rw new (
    record {
      shape = inr (append-ne-nil host (discard allow_none acl), none_added host acl v ne);
      distinct =
          append-IsDistinct host (discard allow_none acl)
            (discard-IsDistinct allow_none acl v.distinct) new;
    },
    ground (arith, member-append host (discard allow_none acl) (host ∷ [])),
    none_added host acl v ne,
    λ b bh bn. ground (
      arith,
      member-append b (discard allow_none acl) (host ∷ []),
      member-discard_ne allow_none b acl,
    ),
  )
]

or_allow_none-IsAcl :
    (acl : List Json)
    → IsDistinct acl
    → (acl ≡ allow_none ∷ []) ⊎ (member allow_none acl ≡ false)
    → IsAcl (or_allow_none acl)
unfolding or_allow_none
or_allow_none-IsAcl [] d h = record { shape = inl refl; distinct = (refl, tt) }
or_allow_none-IsAcl (x ∷ acl) d (inl closed) = record { shape = inl closed; distinct = d }
or_allow_none-IsAcl (x ∷ acl) d (inr hosts) = record {
  shape = inr (ground arith, hosts);
  distinct = d;
}

member-or_allow_none :
    (b : Json) (acl : List Json) → b ≢ allow_none → member b (or_allow_none acl) ≡ member b acl
unfolding or_allow_none
member-or_allow_none b [] ne = ground arith
member-or_allow_none b (x ∷ acl) ne = refl

discard_closed :
    (host : Json) → host ≢ allow_none → discard host (allow_none ∷ []) ≡ allow_none ∷ []
unfolding discard
discard_closed host ne = ground arith

hosts_left :
    (host : Json) (acl : List Json)
    → IsAcl acl
    → host ≢ allow_none
    → (discard host acl ≡ allow_none ∷ []) ⊎ (member allow_none (discard host acl) ≡ false)
hosts_left host acl v ne = elim v.shape [
  | inl closed ↦ inl (rw closed (discard_closed host ne))
  | inr (_, hosts) ↦ inr (rw (member-discard_ne host allow_none acl ne) hosts)
]

remove_host_lem :
    (host : Json) (acl : List Json) → remove_host host acl ≡ or_allow_none (discard host acl)
unfolding remove_host
remove_host_lem host acl = refl

or_allow_none_open : (acl : List Json) → acl ≢ [] → or_allow_none acl ≡ acl
unfolding or_allow_none
or_allow_none_open [] h = absurd (h refl)
or_allow_none_open (x ∷ acl) h = refl

-- Removing a host from an ACL in that form keeps the form; the host is not in the list, and every
-- other host is in it exactly if it was. A list that becomes empty is closed to all.
pub remove_host-IsAcl :
    (host : Json) (acl : List Json)
    → IsAcl acl
    → host ≢ allow_none
    → IsAcl (remove_host host acl)
      × (member host (remove_host host acl) ≡ false)
      × ((b : Json) → b ≢ host → b ≢ allow_none → member b (remove_host host acl) ≡ member b acl)
remove_host-IsAcl host acl v ne = rw remove_host_lem (
  or_allow_none-IsAcl (discard host acl) (discard-IsDistinct host acl v.distinct)
      (hosts_left host acl v ne),
  member-or_allow_none host (discard host acl) ne ∙ member-discard_self host acl v.distinct,
  λ b bh bn.
      member-or_allow_none b (discard host acl) bn ∙ member-discard_ne host b acl (λ e. bh (sym e)),
)

add_host_fresh :
    (host : Json) (acl : List Json)
    → member allow_none acl ≡ false
    → member host acl ≡ false
    → add_host host acl ≡ acl ++ host ∷ []
unfolding add_host
add_host_fresh host acl hosts fresh = rw (discard_fresh allow_none acl hosts, fresh)

reopened :
    (host : Json)
    → host ≢ allow_none
    → or_allow_none (discard host (add_host host (allow_none ∷ []))) ≡ allow_none ∷ []
unfolding or_allow_none add_host
reopened host ne = ground arith

-- Removing the host that was added to an ACL in that form gives the ACL back.
pub remove_host-add_host :
    (host : Json) (acl : List Json)
    → IsAcl acl
    → host ≢ allow_none
    → member host acl ≡ false
    → remove_host host (add_host host acl) ≡ acl
remove_host-add_host host acl v ne fresh = rw remove_host_lem (elim v.shape [
  | inl closed ↦ rw closed (reopened host ne)
  | inr (open_acl, hosts) ↦
      rw (add_host_fresh host acl hosts fresh, discard-append host acl fresh)
        (or_allow_none_open acl open_acl)
])
