-- ===== src/Topology/Matching.antt =====
-- The nodes that a block of the SSH configuration is about.
use chef_bcpc.Prelude.{
  ℕ, zero, suc, ltb, String, Bool, true, false, Option, none, some, List, [], ◌∷◌, map, length,
  get_elem?, str_eq, eq_iff, ◌≡◌, ◌≢◌, refl, ◌∙◌, ap, subst, if◌then◌else◌, inl, inr,
}
use chef_bcpc.Run.{raise, or_raise, key_error, index_error, value_error}
use chef_bcpc.Run.Returns.{Gave, bind-Gave, pure-Gave, raise-Gave, or_raise-Gave, if-Gave}
use chef_bcpc.Dict.{find}
use chef_bcpc.Topology.{Block, Node, name_of, change_at, first_of, matching, one_of}

pub get_elem?-change_same :
    (i : ℕ) (f : Node → Node) (nodes : List Node) (n : Node)
    → get_elem? nodes i ≡ some n
    → get_elem? (change_at i f nodes) i ≡ some (f n)
get_elem?-change_same i f [] n h = cc h
get_elem?-change_same zero f (x ∷ nodes) n h = ap (λ o. mapped f o) h
  where
    mapped : (Node → Node) → Option Node → Option Node
    mapped g none = none
    mapped g (some m) = some (g m)
get_elem?-change_same (suc i) f (x ∷ nodes) n h = get_elem?-change_same i f nodes n h

pub get_elem?-change_other :
    (i j : ℕ) (f : Node → Node) (nodes : List Node)
    → i ≢ j
    → get_elem? (change_at i f nodes) j ≡ get_elem? nodes j
get_elem?-change_other i j f [] ne = refl
get_elem?-change_other zero zero f (x ∷ nodes) ne = absurd (ne refl)
get_elem?-change_other zero (suc j) f (x ∷ nodes) ne = refl
get_elem?-change_other (suc i) zero f (x ∷ nodes) ne = refl
get_elem?-change_other (suc i) (suc j) f (x ∷ nodes) ne =
    get_elem?-change_other i j f nodes (λ e. ne (ap suc e))

-- The nodes at the positions have the name of the block.
abbrev pub Named : Block → List Node → ℕ → Type 0
Named block nodes i = (n : Node) → get_elem? nodes i ≡ some n → find "Host" block ≡ some (name_of n)

abbrev pub AllNamed : Block → List Node → List ℕ → Type 0
AllNamed block nodes [] = Unit
AllNamed block nodes (i ∷ is) = Named block nodes i × AllNamed block nodes is

AllNamed-suc :
    (block : Block) (node : Node) (nodes : List Node) (is : List ℕ)
    → AllNamed block nodes is
    → AllNamed block (node ∷ nodes) (map suc is)
AllNamed-suc block node nodes [] h = tt
AllNamed-suc block node nodes (i ∷ is) h = (h.0, AllNamed-suc block node nodes is h.1)

AllNamed-if :
    (block : Block) (node : Node) (nodes : List Node) (is : List ℕ) (name : String) (b : Bool)
    → find "Host" block ≡ some name
    → str_eq name (name_of node) ≡ b
    → AllNamed block (node ∷ nodes) is
    → AllNamed block (node ∷ nodes) (if b then 0 ∷ is else is)
AllNamed-if block node nodes is name true found same h = (
  (λ n e.
      found
      ∙ ap some ((eq_iff name (name_of node)).0 same)
      ∙ ap (λ m. some (name_of m)) (the_node e)),
  h,
)
  where
    the_node : {n : Node} → some node ≡ some n → node ≡ n
    the_node e = cc e
AllNamed-if block node nodes is name false found same h = h

pub matching-AllNamed :
    {S : Type 0} (block : Block) (nodes : List Node) (s : S) (is : List ℕ) (t : S)
    → Gave (matching block nodes s) is t
    → AllNamed block nodes is × (s ≡ t)
unfolding matching
matching-AllNamed block [] s is t h =
    let (e, same) = pure-Gave [] is s t h in (subst (AllNamed block []) e tt, same)
matching-AllNamed block (node ∷ nodes) s is t h =
    let (name, e1, h1) = bind-Gave (or_raise key_error (find "Host" block)) _ s is t h in
    let (rest, e2, h2) = bind-Gave (matching block nodes) _ _ is t h1 in
    let (found, same1) = or_raise-Gave key_error (find "Host" block) name s _ (e1, refl) in
    let (named, same2) = matching-AllNamed block nodes _ rest _ (e2, refl) in
    let (e, same3) = pure-Gave _ is _ t h2 in
    (
      subst (AllNamed block (node ∷ nodes)) e (
          AllNamed-if block node nodes (map suc rest) name (str_eq name (name_of node)) found refl
            (AllNamed-suc block node nodes rest named)),
      same1 ∙ same2 ∙ same3,
    )

pub one_of-first :
    {S : Type 0} (is : List ℕ) (s : S) (i : ℕ) (t : S)
    → Gave (one_of is s) i t
    → (first_of is ≡ some i) × (s ≡ t)
unfolding one_of
one_of-first is s i t h = elim (if-Gave (ltb 2 (length is)) (raise value_error) _ s i t h) [
  | inl (_, g) ↦ absurd (raise-Gave value_error i s t g)
  | inr (_, g) ↦ or_raise-Gave index_error (first_of is) i s t g
]

pub first-Named :
    (block : Block) (nodes : List Node) (is : List ℕ) (i : ℕ)
    → AllNamed block nodes is
    → first_of is ≡ some i
    → Named block nodes i
first-Named block nodes [] i h e = cc e
first-Named block nodes (j ∷ is) i h e = subst (Named block nodes) (cc e) h.0
