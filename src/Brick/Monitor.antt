-- ===== src/Brick/Monitor.antt =====
-- The database of the connections, which the monitor keeps from the messages, `lightos_monitor`.
-- A uuid is a text.
pub mod Kept
pub mod Connected
use chef_bcpc.Prelude.{String, Bool, Option, List, [], ◌∷◌, if◌then◌else◌, is_some}
use chef_bcpc.Json.{Json, print}
use chef_bcpc.Run.{Exec, Done, pure, gets, modify, ◌>>=◌, ◌>>◌}
use chef_bcpc.Dict.{Dict, find, put, drop}
use chef_bcpc.Dynamic.{item}
use chef_bcpc.Brick.Volumes.{Message, add, delete}

-- `connection['uuid']`, as a key.
unfoldable pub uuid_of : {S : Type 0} → Json → Exec S String
uuid_of connection = (item "uuid" connection >>= λ uuid. pure (print uuid))

-- One message, which was taken off the queue.
unfoldable pub process : Message → Exec (Dict Json) Done
process (delete connection) = do
  uuid ← uuid_of connection
  known ← gets (find uuid)
  if is_some known then modify (drop uuid) else pure tt
process (add connection) = do uuid ← uuid_of connection; modify (put uuid connection)

-- `monitor_message_queue`, on the messages that wait
unfoldable pub monitor_message_queue : List Message → Exec (Dict Json) Done
monitor_message_queue [] = pure tt
monitor_message_queue (message ∷ messages) = (process message >> monitor_message_queue messages)
