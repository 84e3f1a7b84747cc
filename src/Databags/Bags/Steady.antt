-- ===== src/Databags/Bags/Steady.antt =====
-- What making the data bags leaves alone, the files and the root of the repository among it, and
-- how it fails once the header of a Ceph key has no room for the time.
pub mod Drawn
use chef_bcpc.Prelude.{ℕ, ◌≤◌, String, Option, none, some, ◌≡◌, refl, ◌∙◌, arith, true, ap}
use chef_bcpc.Json.{Json, null}
use chef_bcpc.Run.{
  Outcome, ok, raised, diverged, pure, gets, or_raise, ◌>>=◌, continue, struct_error,
}
use chef_bcpc.Databags.{Source, Draw, draw}

-- Between two moments no file changed and the repository stayed where it is; no time was won.
pub record Same (S : Source) (read : String → S.World → Option Json) (v w : S.World) : Type 0 where
  pub files : (path : String) → read path v ≡ read path w
  pub root : S.toplevel v ≡ S.toplevel w
  pub later : S.time v ≤ S.time w

-- How the files behave: `read` is what YAML makes of a file, nothing of an empty one. Drawing
-- changes no file and not the root of the repository, and the clock does not go back.
pub record IsFiling (S : Source) (read : String → S.World → Option Json) : Type 0 where
  pub read_dump :
      (path : String) (bags : Json) (w : S.World) → read path (S.dump path bags w) ≡ some bags
  pub is_file-dump :
      (path : String) (bags : Json) (w : S.World) → S.is_file path (S.dump path bags w) ≡ true
  pub toplevel-dump :
      (path : String) (bags : Json) (w : S.World) → S.toplevel (S.dump path bags w) ≡ S.toplevel w
  pub read_truncate : (path : String) (w : S.World) → read path (S.truncate path w) ≡ some null
  pub toplevel-truncate :
      (path : String) (w : S.World) → S.toplevel (S.truncate path w) ≡ S.toplevel w
  pub time-truncate : (path : String) (w : S.World) → S.time w ≤ S.time (S.truncate path w)
  pub same_urandom : (n : ℕ) (w : S.World) → Same S read w ((S.urandom n w).1)
  pub same_choice : (symbols : String) (w : S.World) → Same S read w ((S.choice symbols w).1)
  pub same_uuid4 : (w : S.World) → Same S read w ((S.uuid4 w).1)

-- 2^31 seconds, in January 2038.
abbrev pub last_second : ℕ
last_second = 2147483648

module _ (S : Source) (read : String → S.World → Option Json) where
  pub Same-refl : (w : S.World) → Same S read w w
  Same-refl w = record { files = λ path. refl; root = refl; later = omega arith }

  pub Same-trans : (u v w : S.World) → Same S read u v → Same S read v w → Same S read u w
  Same-trans u v w p q = record {
    files = λ path. p.files path ∙ q.files path;
    root = p.root ∙ q.root;
    later = omega (arith, p.later, q.later);
  }

  -- A call that draws only: it returns, or raises a struct.error.
  abbrev pub Drew : {A : Type 0} → S.World → Outcome A × S.World → Type 0
  Drew s (ok a, t) = Same S read s t
  Drew s (raised e, t) = (e ≡ struct_error) × Same S read s t
  Drew s (diverged, t) = ⊥

  pub record Steady {A : Type 0} (m : Draw S A) : Type 0 where
    pub at : (s : S.World) → Drew s (m s)

  abbrev pub Failed : {A : Type 0} → S.World → Outcome A × S.World → Type 0
  Failed s r = (r.0 ≡ raised struct_error) × Same S read s (r.1)

  -- A call that fails from `last_second` on.
  pub record Late {A : Type 0} (m : Draw S A) : Type 0 where
    pub fails : (s : S.World) → last_second ≤ S.time s → Failed s (m s)

  Drew-trans :
      {A : Type 0} (u v : S.World) (r : Outcome A × S.World) → Same S read u v → Drew v r → Drew u r
  Drew-trans u v (ok a, t) p q = Same-trans u v t p q
  Drew-trans u v (raised e, t) p q = (q.0, Same-trans u v t p q.1)
  Drew-trans u v (diverged, t) p q = q

  continue-Drew :
      {A B : Type 0} (s : S.World) (f : A → Draw S B) (r : Outcome A × S.World)
      → Drew s r
      → ((a : A) → Steady (f a))
      → Drew s (continue f r)
  continue-Drew s f (ok a, t) p h = Drew-trans s t (f a t) p ((h a).at t)
  continue-Drew s f (raised e, t) p h = p
  continue-Drew s f (diverged, t) p h = p

  pub Steady-bind :
      {A B : Type 0} (m : Draw S A) (f : A → Draw S B)
      → Steady m
      → ((a : A) → Steady (f a))
      → Steady (m >>= f)
  unfolding ◌>>=◌
  Steady-bind m f p h = record { at = λ s. continue-Drew s f (m s) (p.at s) h }

  pub Steady-pure : {A : Type 0} (a : A) → Steady (pure a)
  unfolding pure
  Steady-pure a = record { at = λ s. Same-refl s }

  pub Steady-gets : {A : Type 0} (f : S.World → A) → Steady (gets f)
  unfolding gets
  Steady-gets f = record { at = λ s. Same-refl s }

  pub Steady-or_raise : {A : Type 0} (o : Option A) → Steady (or_raise struct_error o)
  unfolding or_raise
  Steady-or_raise none = record { at = λ s. (refl, Same-refl s) }
  Steady-or_raise (some a) = record { at = λ s. Same-refl s }

  pub Steady-draw :
      {A : Type 0} (f : S.World → A × S.World)
      → ((w : S.World) → Same S read w ((f w).1))
      → Steady (draw S f)
  unfolding draw
  Steady-draw f p = record { at = p }

  -- The first part of a chain fails, or a later one.
  continue-Late :
      {A B : Type 0} (s : S.World) (f : A → Draw S B) (r : Outcome A × S.World)
      → Failed s r
      → Failed s (continue f r)
  continue-Late s f (ok a, t) h = cc (h.0)
  continue-Late s f (raised e, t) h = (cc (h.0), h.1)
  continue-Late s f (diverged, t) h = cc (h.0)

  pub Late-first : {A B : Type 0} (m : Draw S A) (f : A → Draw S B) → Late m → Late (m >>= f)
  unfolding ◌>>=◌
  Late-first m f p = record { fails = λ s h. continue-Late s f (m s) (p.fails s h) }

  continue-Late_next :
      {A B : Type 0} (s : S.World) (f : A → Draw S B) (r : Outcome A × S.World)
      → last_second ≤ S.time s
      → Drew s r
      → ((a : A) → Late (f a))
      → Failed s (continue f r)
  continue-Late_next s f (ok a, t) h p late =
      let (e, q) = (late a).fails t (omega (arith, p.later)) in (e, Same-trans s t _ p q)
  continue-Late_next s f (raised e, t) h p late = (ap raised (p.0), p.1)
  continue-Late_next s f (diverged, t) h p late = absurd p

  pub Late-next :
      {A B : Type 0} (m : Draw S A) (f : A → Draw S B)
      → Steady m
      → ((a : A) → Late (f a))
      → Late (m >>= f)
  unfolding ◌>>=◌
  Late-next m f p late = record { fails = λ s h. continue-Late_next s f (m s) h (p.at s) late }
