-- ===== src/Brick/Monitor/Connected.antt =====
-- The database after a connection.
use chef_bcpc.Prelude.{String, Option, some, List, [], ◌∷◌, ◌++◌, ◌≡◌, refl, ◌∙◌, ap, subst}
use chef_bcpc.Json.{Json, print}
use chef_bcpc.Run.{Outcome, ok, raised, diverged, Done}
use chef_bcpc.Run.Returns.{Gave, bind-Gave}
use chef_bcpc.Dict.{Dict, find, IsDict}
use chef_bcpc.Dynamic.{item}
use chef_bcpc.Dynamic.Returns.{item-path}
use chef_bcpc.Brick.{Host}
use chef_bcpc.Brick.Volumes.{Message, add, Connector, enqueue, connect_volume}
use chef_bcpc.Brick.Volumes.Booked.{Booked, connect_volume-Booked}
use chef_bcpc.Brick.Monitor.{monitor_message_queue}
use chef_bcpc.Brick.Monitor.Kept.{key, key_of, told, told_all, told_add, monitor_message_queue-Told}

told_all-append :
    (u : String) (messages : List Message) (m : Message) (old : Option Json)
    → told_all u (messages ++ m ∷ []) old ≡ told u m (told_all u messages old)
told_all-append u [] m old = refl
told_all-append u (x ∷ messages) m old = told_all-append u messages m (told u x old)

module _ (H : Host) where
  returned :
      {A : Type 0} (m : Message) (queue : Option (List Message)) (r : Outcome A × Connector H)
      (a : A) (t : Connector H)
      → Booked H m queue r
      → Gave r a t
      → t.message_queue ≡ enqueue m queue
  returned m queue (ok b, u) a t h g = subst (λ x. x.message_queue ≡ enqueue m queue) (g.1) h
  returned m queue (raised e, u) a t h g = cc (g.0)
  returned m queue (diverged, u) a t h g = cc (g.0)

  connected_key :
      (c v : Json) (s t : Connector H)
      → Gave (connect_volume H c s) v t
      → (k : String) × (key c ≡ some k)
  unfolding connect_volume
  connected_key c v s t h =
      let (uuid, e, _) = bind-Gave (item "uuid" c) _ s v t h in
      (print uuid, ap key_of (item-path "uuid" c uuid s _ (e, refl)))

  -- Where connect_volume returned, and the monitor then handled the messages that wait, the last of
  -- which is the one of this connection, its database has the properties of the connection.
  pub connect_volume-find :
      (c v : Json) (s t : Connector H) (waiting : List Message) (db db' : Dict Json) (u : Done)
      → s.message_queue ≡ some waiting
      → Gave (connect_volume H c s) v t
      → IsDict db
      → Gave (monitor_message_queue (waiting ++ add c ∷ []) db) u db'
      → (t.message_queue ≡ some (waiting ++ add c ∷ []))
        × ((k : String) × (key c ≡ some k) × (find k db' ≡ some c))
  connect_volume-find c v s t waiting db db' u queue h d g =
      let (k, e) = connected_key c v s t h in
      (
        returned (add c) s.message_queue (connect_volume H c s) v t (connect_volume-Booked H c s) h
            ∙ ap (enqueue (add c)) queue,
        (
          k,
          e,
          (monitor_message_queue-Told (waiting ++ add c ∷ []) db db' u d g).1 k
              ∙ told_all-append k waiting (add c) (find k db)
              ∙ told_add k c (told_all k waiting (find k db)) e,
        ),
      )
