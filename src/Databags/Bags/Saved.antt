-- ===== src/Databags/Bags/Saved.antt =====
-- What `save` does to the files, and what it leaves in them where it fails.
use chef_bcpc.Prelude.{
  ◌≤◌, String, ◌<>◌, Bool, true, false, not, ◌&&◌, Option, some, ◌≡◌, refl, if◌then◌else◌, sym, ◌∙◌,
  ap, arith,
}
use chef_bcpc.Json.{Json, null}
use chef_bcpc.Run.{
  Outcome, ok, raised, diverged, Done, raise, gets, modify, ◌>>=◌, continue, file_exists_error,
  struct_error,
}
use chef_bcpc.Run.Returns.{Gave, bind-Gave}
use chef_bcpc.Databags.{Source}
use chef_bcpc.Databags.Bags.{generate, databags_path, write, save}
use chef_bcpc.Databags.Bags.Steady.{Same, IsFiling, last_second, Drew, Failed}
use chef_bcpc.Databags.Bags.Steady.Drawn.{generate-Steady, generate-Late}

module _ (S : Source) (read : String → S.World → Option Json) (filing : IsFiling S read) where
  refused :
      (w : S.World)
      → S.is_file (databags_path S w) w ≡ true
      → save S false w ≡ (raised file_exists_error, w)
  unfolding save gets raise ◌>>=◌
  refused w h = rw h refl

  write-Gave :
      (path : String) (w : S.World) (u : Done) (v : S.World)
      → Gave (write S path w) u v
      → (bags : Json) × ((generate S (S.truncate path w)).0 ≡ ok bags)
        × (v ≡ S.dump path bags ((generate S (S.truncate path w)).1))
  unfolding write modify
  write-Gave path w u v h =
      let (_, _, h1) = bind-Gave (modify (S.truncate path)) _ w u v h in
      let (bags, e, h2) = bind-Gave (generate S) _ _ u v h1 in (bags, e, sym (h2.1))

  opened :
      (b : Bool) (w : S.World) (u : Done) (v : S.World)
      → Gave ((if b then raise file_exists_error else write S (databags_path S w)) w) u v
      → Gave (write S (databags_path S w) w) u v
  unfolding raise
  opened true w u v h = cc (h.0)
  opened false w u v h = h

  drawn :
      (s : S.World) (r : Outcome Json × S.World) (bags : Json)
      → Drew S read s r
      → r.0 ≡ ok bags
      → Same S read s (r.1)
  drawn s (ok a, t) bags p e = p
  drawn s (raised x, t) bags p e = cc e
  drawn s (diverged, t) bags p e = cc e

  -- The file is where it was.
  same_path :
      (w : S.World) (bags : Json)
      → (generate S (S.truncate (databags_path S w) w)).0 ≡ ok bags
      → databags_path S
          (S.dump (databags_path S w) bags ((generate S (S.truncate (databags_path S w) w)).1))
        ≡ databags_path S w
  same_path w bags e =
      ap (λ root. root <> "/ansible/group_vars/all/chef_databags.yml")
        (filing.toplevel-dump (databags_path S w) bags _
          ∙ sym (
              (drawn (S.truncate (databags_path S w) w) _ bags
                ((generate-Steady S read filing).at (S.truncate (databags_path S w) w)) e).root)
          ∙ filing.toplevel-truncate (databags_path S w) w)

  dumped :
      (path path' : String) (bags : Json) (w v : S.World)
      → v ≡ S.dump path bags w
      → path' ≡ path
      → (read path' v ≡ some bags) × (S.is_file path' v ≡ true)
  dumped path path' bags w v e p =
      rw (p, e) (filing.read_dump path bags w, filing.is_file-dump path bags w)

  -- Where YAML reads back what it wrote and drawing changes neither the files nor the root of the
  -- repository: once `save` has returned, the file, read again, holds the data bags that `generate`
  -- returned, and another `save` without `force` raises FileExistsError and changes nothing.
  pub save_kept :
      (force : Bool) (w : S.World) (u : Done) (v : S.World)
      → Gave (save S force w) u v
      → (bags : Json) × ((generate S (S.truncate (databags_path S w) w)).0 ≡ ok bags)
        × (read (databags_path S v) v ≡ some bags)
        × (save S false v ≡ (raised file_exists_error, v))
  unfolding save gets ◌>>=◌
  save_kept force w u v h =
      let (bags, e, written) = write-Gave (databags_path S w) w u v (opened _ w u v h) in
      let (content, exists) =
        dumped (databags_path S w) (databags_path S v) bags _ v written
          (ap (databags_path S) written ∙ same_path w bags e) in
      (bags, e, content, refused v exists)

  -- What a failure leaves of the file.
  failed :
      (path : String) (s : S.World) (r : Outcome Json × S.World)
      → Failed S read s r
      → ((continue (λ bags. modify (S.dump path bags)) r).0 ≡ raised struct_error)
        × (read path ((continue (λ bags. modify (S.dump path bags)) r).1) ≡ read path s)
  failed path s (ok a, t) h = cc (h.0)
  failed path s (raised e, t) h = (cc (h.0), sym (h.1.files path))
  failed path s (diverged, t) h = cc (h.0)

  write_late :
      (path : String) (w : S.World)
      → last_second ≤ S.time w
      → ((write S path w).0 ≡ raised struct_error) × (read path ((write S path w).1) ≡ some null)
  unfolding write modify ◌>>=◌
  write_late path w late =
      let (e, kept) = failed path (S.truncate path w) (generate S (S.truncate path w)) (
        (generate-Late S read filing).fails (S.truncate path w)
          (omega (arith, filing.time-truncate path w, late))) in
      (e, kept ∙ filing.read_truncate path w)

  -- Where drawing changes no file and the clock does not go back: from 2^31 seconds on, in 2038, a
  -- `save` that is not refused raises struct.error, since no Ceph key can be made, and leaves an
  -- empty file, whatever the file held before.
  pub save_late :
      (force : Bool) (w : S.World)
      → last_second ≤ S.time w
      → S.is_file (databags_path S w) w && not force ≡ false
      → ((save S force w).0 ≡ raised struct_error)
        × (read (databags_path S w) ((save S force w).1) ≡ some null)
  unfolding save gets ◌>>=◌
  save_late force w late free = rw free (write_late (databags_path S w) w late)
