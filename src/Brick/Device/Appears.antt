-- ===== src/Brick/Device/Appears.antt =====
-- A device that shows up in time is found.
use chef_bcpc.Prelude.{
  ℕ, zero, suc, ◌+◌, ◌-◌, ◌*◌, ◌≤◌, ◌<◌, ltb, leb, leb→le, String, ◌<>◌, true, Option, none, some,
  List, [], ◌∷◌, ◌≡◌, refl, ◌∙◌, ap, ◌⊎◌, inl, inr, Bool-cases, arith, if◌then◌else◌, is_some,
}
use text.Mathlib.Text.{starts_with}
use chef_bcpc.Run.{Outcome, ok, raised, diverged, Done, pure, gets, catch, ◌>>=◌}
use chef_bcpc.Run.Loop.{Step, again, leave, while, while_before, go_round}
use chef_bcpc.Run.Pace.{Ended, cost, Paced-bind, Halts-pure}
use chef_bcpc.Run.Surely.{
  Returns, bind-ok, Returns-bind, Returns-pure, Returns-if, Returns-catch, Ended-later, catch-ok,
  go_round_leave, go_round_again,
}
use chef_bcpc.Brick.{Host, IsPrompt}
use chef_bcpc.Brick.Device.{
  found, device_of, check_device_exists_using_dev_lnk, read_wwid, is_match, first_match,
  check_device_exists_reading_block_class, unless_linked, device_round, get_device_by_uuid,
  wait_device_timeout,
}
use chef_bcpc.Brick.Device.Pace.{check_link-Halts, device_round-Rounds}

abbrev pub link_path : String → String
link_path uuid = "/dev/disk/by-id/nvme-uuid." <> uuid

-- From a tick on there is the link of the device, and it leads to a device of NVMe.
pub record IsLinked (H : Host) (uuid : String) (from : ℕ) : Type 0 where
  pub there : (w : H.World) → from ≤ H.clock w → (H.exists (link_path uuid) w).0 ≡ ok true
  pub leads :
      (w : H.World)
      → from ≤ H.clock w
      → (d : String) × ((H.realpath (link_path uuid) w).0 ≡ ok d)
        × (starts_with d "/dev/nvme" ≡ true)

-- The list of block devices can be had, a sleep is not broken off, and a round of the search takes at
-- most `longest` ticks.
pub record IsQuick (H : Host) (uuid : String) (longest : ℕ) : Type 0 where
  pub lists : Returns H.block_devices
  pub sleeps : Returns (H.sleep 1)
  pub rounds : (w : H.World) → H.clock ((device_round H uuid tt w).1) ≤ H.clock w + longest

step_cases : (s : Step {0, 0} Done String) → ((d : String) × (s ≡ leave d)) ⊎ (s ≡ again tt)
step_cases (leave d) = inl (d, refl)
step_cases (again u) = inr refl

lt→ltb : (a b : ℕ) → a < b → ltb a b ≡ true
lt→ltb a b h = ground arith

module _ (H : Host) (prompt : IsPrompt H) (uuid : String) (from longest : ℕ)
    (linked : IsLinked H uuid from) (quick : IsQuick H uuid longest) where
  Returns-read_wwid : (path : String) → Returns (read_wwid H path)
  unfolding read_wwid
  Returns-read_wwid path =
      Returns-catch H.clock _ _
        (Paced-bind H.clock _ (H.read_line path) _ (prompt.read_line_halts path)
          (λ line. Halts-pure H.clock _))
        (λ e. Returns-pure none)

  Returns-first_match : (names : List String) → Returns (first_match H uuid names)
  unfolding first_match
  Returns-first_match [] = Returns-pure none
  Returns-first_match (name ∷ names) =
      Returns-bind (read_wwid H ("/sys/class/block/" <> name <> "/wwid")) _ (Returns-read_wwid _)
        (λ wwid.
          Returns-if (is_match H uuid name wwid) (pure (some ("/dev/" <> name))) _ (Returns-pure _)
            (Returns-first_match names))

  Returns-check_class : Returns (check_device_exists_reading_block_class H uuid)
  unfolding check_device_exists_reading_block_class
  Returns-check_class = Returns-bind H.block_devices _ quick.lists Returns-first_match

  Returns-unless_linked : (device : Option String) → Returns (unless_linked H uuid device)
  unfolding unless_linked
  Returns-unless_linked (some device) = Returns-pure _
  Returns-unless_linked none =
      Returns-bind (check_device_exists_reading_block_class H uuid) _ Returns-check_class (λ device.
        Returns-if (is_some device) (pure (found device)) _ (Returns-pure _)
          (Returns-bind (H.sleep 1) _ quick.sleeps (λ _. Returns-pure _)))

  Returns-link : Returns (catch (check_device_exists_using_dev_lnk H uuid) (λ e. pure none))
  Returns-link = Returns-catch H.clock _ _ (check_link-Halts H prompt uuid) (λ e. Returns-pure none)

  Returns-round : Returns (device_round H uuid tt)
  unfolding device_round
  Returns-round =
      Returns-bind (catch (check_device_exists_using_dev_lnk H uuid) (λ e. pure none)) _
        Returns-link Returns-unless_linked

  nvme_device :
      (d : String) (v : H.World)
      → starts_with d "/dev/nvme" ≡ true
      → (pure (if starts_with d "/dev/nvme" then some d else none) v).0 ≡ ok (some d)
  unfolding pure
  nvme_device d v e = rw e refl

  -- The link is there, so the round finds the device.
  link-found :
      (w : H.World)
      → from ≤ H.clock w
      → (d : String) × ((check_device_exists_using_dev_lnk H uuid w).0 ≡ ok (some d))
  unfolding check_device_exists_using_dev_lnk
  link-found w late =
      let e = linked.there w late in
      let w1 = (H.exists (link_path uuid) w).1 in
      let later =
        Ended-later H.clock (H.clock w) (H.exists (link_path uuid) w) true
          ((prompt.exists_halts (link_path uuid)).at w) e in
      let (d, e', starts) = linked.leads w1 (omega arith) in
      (
        d,
        ap (λ r. r.0) (bind-ok (H.exists (link_path uuid)) _ w true e)
            ∙ ap (λ r. r.0) (bind-ok (H.realpath (link_path uuid)) _ w1 d e')
            ∙ nvme_device d ((H.realpath (link_path uuid) w1).1) starts,
      )

  round-found :
      (w : H.World)
      → from ≤ H.clock w
      → (d : String) × ((device_round H uuid tt w).0 ≡ ok (leave d))
  unfolding device_round unless_linked pure
  round-found w late =
      let (d, e) = link-found w late in
      (
        d,
        ap (λ r. r.0)
            (bind-ok (catch (check_device_exists_using_dev_lnk H uuid) (λ x. pure none)) _ w
              (some d) (catch-ok _ _ w (some d) e)),
      )

  started :
      (stop fuel : ℕ) (w : H.World)
      → H.clock w < stop
      → while (suc fuel) (λ t. ltb (H.clock t) stop) (device_round H uuid) tt w
        ≡ go_round
            (while fuel (λ t. ltb (H.clock t) stop) (device_round H uuid))
            (device_round H uuid tt w)
  unfolding while
  started stop fuel w before = rw (while, lt→ltb (H.clock w) stop before) refl

  went_on :
      (t : ℕ) (r : Outcome (Step {0, 0} Done String) × H.World)
      → Ended H.clock (cost H.clock) t r
      → r.0 ≡ ok (again tt)
      → t + 1 ≤ H.clock (r.1)
  went_on t (ok (again u), v) h e = h
  went_on t (ok (leave d), v) h e = cc e
  went_on t (raised x, v) h e = cc e
  went_on t (diverged, v) h e = cc e

  -- The loop, from a state before the deadline.
  search_found :
      (stop fuel : ℕ) (w : H.World)
      → from + longest ≤ stop
      → H.clock w < stop
      → stop < H.clock w + fuel
      → (d : String) × ((while fuel (λ t. ltb (H.clock t) stop) (device_round H uuid) tt w).0
          ≡ ok (leave d))
  unfolding while
  search_found stop zero w room before enough = absurd (omega arith)
  search_found stop (suc fuel) w room before enough = elim (Bool-cases (leb from (H.clock w))) [
    | inl reached ↦
        let (d, e) = round-found w (leb→le from (H.clock w) reached) in
        (d, ap (λ r. r.0) (started stop fuel w before) ∙ go_round_leave _ _ d e)
    | inr early ↦ elim (step_cases ((Returns-round.gives w).0)) [
      | inl (d, left) ↦ (
        d,
        ap (λ r. r.0) (started stop fuel w before)
            ∙ go_round_leave _ _ d ((Returns-round.gives w).1 ∙ ap ok left),
      )
      | inr on ↦
          let e = (Returns-round.gives w).1 ∙ ap ok on in
          let w1 = (device_round H uuid tt w).1 in
          let slow =
            went_on (H.clock w) (device_round H uuid tt w)
              ((device_round-Rounds H prompt uuid tt).at w) e in
          let fast = quick.rounds w in
          let (d, e') = search_found stop fuel w1 room (ground arith) (omega arith) in
          (
            d,
            ap (λ r. r.0) (started stop fuel w before) ∙ ap (λ r. r.0) (go_round_again _ _ e) ∙ e',
          )
    ]
  ]

  -- Where the link of the device is there from some tick on, and that tick is the time of a round or
  -- more before the deadline of sixty seconds, the search returns a device.
  pub get_device_by_uuid-some :
      (w : H.World)
      → from + longest ≤ H.clock w + wait_device_timeout * H.second
      → 0 < H.second
      → (d : String) × ((get_device_by_uuid H uuid w).0 ≡ ok (some d))
  unfolding get_device_by_uuid while_before gets pure ◌>>=◌
  get_device_by_uuid-some w room second =
      let stop = H.clock w + wait_device_timeout * H.second in
      let (d, e) = search_found stop (suc (stop - H.clock w)) w room (omega arith) (omega arith) in
      (
        d,
        ap (λ r. r.0)
            (bind-ok (while_before H.clock stop (device_round H uuid) tt)
              (λ end. pure (device_of end)) w (leave d) e),
      )
