-- ===== src/Brick/Volumes/Booked.antt =====
-- What is booked of a connection, and the database that comes of it.
use chef_bcpc.Prelude.{String, Option, none, some, List, ◌≡◌, refl, subst}
use chef_bcpc.Json.{Json, obj, print, lookup}
use chef_bcpc.Run.{
  Error, Outcome, ok, raised, diverged, pure, raise, or_raise, modify, ◌>>=◌, continue, key_error,
}
use chef_bcpc.Dynamic.{item}
use chef_bcpc.Brick.{Host, Call}
use chef_bcpc.Brick.Dsc.{dsc_connect_volume, dsc_file_name}
use chef_bcpc.Brick.Device.{get_device_by_uuid}
use chef_bcpc.Brick.Volumes.{
  Message, add, Connector, enqueue, Method, in_world, call, book, connected, connect_volume,
}

module _ (H : Host) where
  -- A method that leaves the queue as it is.
  record Quiet {A : Type 0} (m : Method H A) : Type 0 where
    same : (s : Connector H) → ((m s).1).message_queue ≡ s.message_queue

  -- A return books a message, and an exception leaves the queue as it was.
  abbrev pub Booked :
      {A : Type 0} → Message → Option (List Message) → Outcome A × Connector H → Type 0
  Booked message queue (ok a, t) = t.message_queue ≡ enqueue message queue
  Booked message queue (raised e, t) = t.message_queue ≡ queue
  Booked message queue (diverged, t) = t.message_queue ≡ queue

  in_world-queue :
      {A : Type 0} (c : Connector H) (r : Outcome A × H.World)
      → ((in_world H c r).1).message_queue ≡ c.message_queue
  in_world-queue c (r, w) = refl

  Quiet-call : {A : Type 0} (m : Call H A) → Quiet (call H m)
  unfolding call
  Quiet-call m = record { same = λ s. in_world-queue s (m s.world) }

  Quiet-raise : {A : Type 0} (e : Error) → Quiet {A = A} (raise e)
  unfolding raise
  Quiet-raise e = record { same = λ s. refl }

  Quiet-or_raise : {A : Type 0} (e : Error) (o : Option A) → Quiet (or_raise e o)
  unfolding or_raise
  Quiet-or_raise e none = record { same = λ s. refl }
  Quiet-or_raise e (some a) = record { same = λ s. refl }

  Quiet-item : (k : String) (v : Json) → Quiet (item k v)
  unfolding item
  Quiet-item k (obj fs) = Quiet-or_raise key_error (lookup k fs)
  Quiet-item k _ = Quiet-raise _

  Booked-continue :
      {A B : Type 0} (message : Message) (queue : Option (List Message)) (f : A → Method H B)
      (r : Outcome A × Connector H)
      → (r.1).message_queue ≡ queue
      → ((a : A) (t : Connector H) → Booked message t.message_queue (f a t))
      → Booked message queue (continue f r)
  Booked-continue message queue f (ok a, t) same g =
      subst (λ q. Booked message q (f a t)) same (g a t)
  Booked-continue message queue f (raised e, t) same g = same
  Booked-continue message queue f (diverged, t) same g = same

  Booked-bind :
      {A B : Type 0} (message : Message) (m : Method H A) (f : A → Method H B)
      → Quiet m
      → ((a : A) (t : Connector H) → Booked message t.message_queue (f a t))
      → (s : Connector H) → Booked message s.message_queue ((m >>= f) s)
  unfolding ◌>>=◌
  Booked-bind message m f q g s = Booked-continue message s.message_queue f (m s) (q.same s) g

  connected-Booked :
      (c uuid : Json) (device : Option String) (s : Connector H)
      → Booked (add c) s.message_queue (connected H c uuid device s)
  unfolding connected book modify pure raise ◌>>=◌
  connected-Booked c uuid none s =
      Booked-bind (add c) (call H (H.delete_dsc_file (dsc_file_name uuid))) _ (Quiet-call _)
        (λ a t. refl) s
  connected-Booked c uuid (some device_path) s = refl

  -- connect_volume books the connection exactly if it returns: a return puts one message at the end
  -- of the queue, an exception leaves the queue as it was.
  pub connect_volume-Booked :
      (c : Json) (s : Connector H) → Booked (add c) s.message_queue (connect_volume H c s)
  unfolding connect_volume
  connect_volume-Booked c s =
      Booked-bind (add c) (item "uuid" c) _ (Quiet-item "uuid" c)
        (λ uuid. Booked-bind (add c) (call H (dsc_connect_volume H c)) _ (Quiet-call _) (λ _.
          Booked-bind (add c) (call H (get_device_by_uuid H (print uuid))) _ (Quiet-call _)
            (λ device. connected-Booked c uuid device)))
        s
