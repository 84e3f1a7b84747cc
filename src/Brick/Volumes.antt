-- ===== src/Brick/Volumes.antt =====
-- What Nova calls, `connect_volume`, `disconnect_volume` and `extend_volume`, and the messages with
-- which they are booked. The uuid of a volume is a text.
pub mod Booked
pub mod Pace
use chef_bcpc.Prelude.{
  ℕ, String, Bool, true, false, not, ◌||◌, ◌&&◌, Option, none, some, List, [], ◌∷◌, ◌++◌,
  if◌then◌else◌, ◌≡◌,
}
use chef_bcpc.Json.{Json, str, Fields, end, field, obj, print}
use chef_bcpc.Run.{
  Error, Outcome, ok, raised, diverged, Exec, Done, pure, raise, gets, modify, catch, ◌>>=◌, ◌>>◌,
  brick_exception, process_execution_error,
}
use chef_bcpc.Dict.{Dict, put, drop}
use chef_bcpc.Dynamic.{item}
use chef_bcpc.Brick.{Host, Call}
use chef_bcpc.Brick.Dsc.{dsc_file_name, dsc_connect_volume, dsc_disconnect_volume, monitor_db}
use chef_bcpc.Brick.Device.{get_device_by_uuid, get_size_by_uuid}

-- A message of the queue, with the properties of a connection.
pub data Message : Type 0 where
  add : Json → Message
  delete : Json → Message

-- A connector: the world, and its queue of messages, if it has one.
pub record Connector (H : Host) : Type 0 where
  pub world : H.World
  pub message_queue : Option (List Message)

-- `message_queue.put(message)`
abbrev pub enqueue : Message → Option (List Message) → Option (List Message)
enqueue message none = none
enqueue message (some messages) = some (messages ++ message ∷ [])

abbrev pub is_process_execution_error : Error → Bool
is_process_execution_error process_execution_error = true
is_process_execution_error _ = false

-- The exception that a call raised and that is kept for the end.
abbrev pub Chained : Type 0
Chained = Bool

module _ (H : Host) where
  abbrev pub Method : Type 0 → Type 0
  Method A = Exec (Connector H) A

  abbrev pub in_world : {A : Type 0} → Connector H → Outcome A × H.World → Outcome A × Connector H
  in_world c (r, w) = (r, record c { world = w })

  -- A call of the system.
  unfoldable pub call : {A : Type 0} → Call H A → Method A
  call m c = in_world c (m c.world)

  -- `if self.message_queue: self.message_queue.put(message)`
  unfoldable pub book : Message → Method Done
  book message = modify (λ c. record c { message_queue = enqueue message c.message_queue })

  abbrev pub block_device : String → Json
  block_device path = obj (field "type" (str "block") (field "path" (str path) end))

  unfoldable pub connected : Json → Json → Option String → Method Json
  connected connection_properties uuid none = do
    call (H.delete_dsc_file (dsc_file_name uuid))
    raise brick_exception
  connected connection_properties uuid (some device_path) = do
    book (add connection_properties)
    pure (block_device device_path)

  -- `connect_volume`
  unfoldable pub connect_volume : Json → Method Json
  connect_volume connection_properties = do
    uuid ← item "uuid" connection_properties
    call (dsc_connect_volume H connection_properties)
    device_path ← call (get_device_by_uuid H (print uuid))
    connected connection_properties uuid device_path

  unfoldable pub flush : Option String → Method Chained
  flush none = pure false
  flush (some device_path) = (call (H.flush_device_io device_path) >> pure false)

  -- `except putils.ProcessExecutionError`
  unfoldable pub flush_failed : Bool → Error → Method Chained
  flush_failed keep_on e =
      if is_process_execution_error e then (if keep_on then pure true else raise e) else raise e

  -- `disconnect_volume`
  unfoldable pub disconnect_volume : Json → Bool → Bool → Method Done
  disconnect_volume connection_properties force ignore_errors = do
    book (delete connection_properties)
    uuid ← item "uuid" connection_properties
    device_path ← call (get_device_by_uuid H (print uuid))
    unflushed ← catch (flush device_path) (flush_failed (force || ignore_errors))
    left ←
        catch (call (dsc_disconnect_volume H connection_properties) >> pure false) (λ e. pure true)
    if (unflushed || left) && not ignore_errors then raise brick_exception else pure tt

  -- `extend_volume`
  unfoldable pub extend_volume : Json → Method (Option ℕ)
  extend_volume connection_properties = do
    uuid ← item "uuid" connection_properties
    call (get_size_by_uuid H (print uuid))
