-- ===== src/Brick/Volumes/Pace.antt =====
-- The methods of the connector end.
use chef_bcpc.Prelude.{refl, String, ℕ, ◌≤◌, ◌≢◌, Bool, Option, none, some, arith}
use chef_bcpc.Json.{Json}
use chef_bcpc.Run.{Error, Outcome, ok, raised, diverged}
use chef_bcpc.Run.Pace.{Ended, Halts, Paced-bind, Halts-pure, Paced-raise, Halts-modify}
use chef_bcpc.Brick.{Host, IsPrompt, Call}
use chef_bcpc.Brick.Device.Pace.{
  calls, get_device_by_uuid-Halts, get_size_by_uuid-Halts, dsc_connect_volume-Halts,
  dsc_disconnect_volume-Halts,
}
use chef_bcpc.Brick.Volumes.{
  Message, Connector, in_world, call, book, connected, connect_volume, flush, flush_failed,
  disconnect_volume, extend_volume,
}

module _ (H : Host) where
  -- The time of a connector.
  abbrev pub time : Connector H → ℕ
  time c = H.clock c.world

  in_world-Ended :
      {A : Type 0} (c : Connector H) (r : Outcome A × H.World)
      → Ended H.clock (λ _. 0) (time c) r
      → Ended time (λ _. 0) (time c) (in_world H c r)
  in_world-Ended c (ok a, w) e = e
  in_world-Ended c (raised x, w) e = e
  in_world-Ended c (diverged, w) e = e

  call-Halts : {A : Type 0} (m : Call H A) → Halts H.clock m → Halts time (call H m)
  unfolding call
  call-Halts m h = record { at = λ c. in_world-Ended c (m c.world) (h.at c.world) }

  book-Halts : (message : Message) → Halts time (book H message)
  unfolding book
  book-Halts message = Halts-modify time _ (λ c. refl)

  module _ (prompt : IsPrompt H) where
    connected-Halts :
        (c uuid : Json) (device : Option String) → Halts time (connected H c uuid device)
    unfolding connected
    connected-Halts c uuid none =
        Paced-bind time _ _ _ (call-Halts _ (prompt.delete_dsc_file_halts _))
          (λ _. Paced-raise time _ _)
    connected-Halts c uuid (some device_path) =
        Paced-bind time _ _ _ (book-Halts _) (λ _. Halts-pure time _)

    connect_volume-Halts : (c : Json) → Halts time (connect_volume H c)
    unfolding connect_volume
    connect_volume-Halts c =
        search
          (calls, call-Halts, dsc_connect_volume-Halts, get_device_by_uuid-Halts, connected-Halts)
          depth 9

    flush-Halts : (device : Option String) → Halts time (flush H device)
    unfolding flush
    flush-Halts none = Halts-pure time _
    flush-Halts (some path) =
        Paced-bind time _ _ _ (call-Halts _ (prompt.flush_device_io_halts path))
          (λ _. Halts-pure time _)

    flush_failed-Halts : (keep_on : Bool) (e : Error) → Halts time (flush_failed H keep_on e)
    unfolding flush_failed
    flush_failed-Halts keep_on e = search calls

    disconnect_volume-Halts :
        (c : Json) (force ignore_errors : Bool)
        → Halts time (disconnect_volume H c force ignore_errors)
    unfolding disconnect_volume
    disconnect_volume-Halts c force ignore_errors =
        search
          (
            calls, call-Halts, book-Halts, get_device_by_uuid-Halts, flush-Halts,
            flush_failed-Halts, dsc_disconnect_volume-Halts,
          )
          depth 12

    extend_volume-Halts : (c : Json) → Halts time (extend_volume H c)
    unfolding extend_volume
    extend_volume-Halts c = search (calls, call-Halts, get_size_by_uuid-Halts)

    Ended-cases :
        {A : Type 0} (s : Connector H) (r : Outcome A × Connector H)
        → Ended time (λ _. 0) (time s) r
        → (r.0 ≢ diverged) × (time s ≤ time (r.1))
    Ended-cases s (ok u, t) e = ground arith
    Ended-cases s (raised x, t) e = ground arith
    Ended-cases s (diverged, t) e = absurd e

    -- Where a sleep takes time and the calls of the system end, connecting a volume, disconnecting it
    -- and reading its new size all return or raise, whatever the system answers, and the clock does
    -- not go back.
    pub connector_ends :
        (c : Json) (force ignore_errors : Bool) (s : Connector H)
        → (((connect_volume H c s).0 ≢ diverged) × (time s ≤ time ((connect_volume H c s).1)))
          × (((disconnect_volume H c force ignore_errors s).0 ≢ diverged)
              × (time s ≤ time ((disconnect_volume H c force ignore_errors s).1)))
          × (((extend_volume H c s).0 ≢ diverged) × (time s ≤ time ((extend_volume H c s).1)))
    connector_ends c force ignore_errors s = (
      Ended-cases s _ ((connect_volume-Halts c).at s),
      Ended-cases s _ ((disconnect_volume-Halts c force ignore_errors).at s),
      Ended-cases s _ ((extend_volume-Halts c).at s),
    )
