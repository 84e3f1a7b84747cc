-- ===== src/Brick/Device.antt =====
-- The device of a volume, `_get_device_by_uuid` and what it calls, and its size.
pub mod Pace
pub mod Appears
use chef_bcpc.Prelude.{
  ℕ, ◌+◌, ◌*◌, ◌==◌, String, ◌<>◌, Bool, true, false, not, ◌&&◌, Option, none, some, List, [], ◌∷◌,
  if◌then◌else◌, str_eq, is_some,
}
use text.Mathlib.Text.{find?, starts_with}
use chef_bcpc.Run.{
  Exec, Done, Error, Outcome, pure, raise, gets, catch, or_raise, ◌>>=◌, ◌>>◌, attribute_error,
  value_error,
}
use chef_bcpc.Run.Loop.{Step, again, leave, while_before}
use chef_bcpc.Dynamic.{codes}
use chef_bcpc.Dynamic.Texts.{strip}
use chef_bcpc.Brick.{Host, Call}
use chef_bcpc.Brick.Codes.{int, nvmec_match}

-- `WAIT_DEVICE_TIMEOUT`
abbrev pub wait_device_timeout : ℕ
wait_device_timeout = 60

-- Two lists of code points are equal.
abbrev pub same_codes : List ℕ → List ℕ → Bool
same_codes [] [] = true
same_codes (c ∷ cs) (d ∷ ds) = c == d && same_codes cs ds
same_codes _ _ = false

-- What a `return` inside the loop makes of a device.
abbrev pub found : Option String → Step {0, 0} Done String
found none = again tt
found (some device) = leave device

-- What `_get_device_by_uuid` returns after the loop.
abbrev pub device_of : Step {0, 0} Done String → Option String
device_of (again _) = none
device_of (leave device) = some device

-- `path.split("/")[-1]`
abbrev pub last_part : String → String
last_part String.[] = String.[]
last_part (String.◌∷◌ c s) =
    let rest = last_part s in if is_some (find? (String.◌∷◌ c s) "/") then rest else String.◌∷◌ c s

-- `os.path.join("/sys/class/block/", devname, "size")`
abbrev pub size_path_name : String → String
size_path_name devname =
    if str_eq devname "" then "/sys/class/block/size" else "/sys/class/block/" <> devname <> "/size"

module _ (H : Host) where
  -- `_check_device_exists_using_dev_lnk`
  unfoldable pub check_device_exists_using_dev_lnk : String → Call H (Option String)
  check_device_exists_using_dev_lnk uuid = do
    there ← H.exists ("/dev/disk/by-id/nvme-uuid." <> uuid)
    if not there then pure none else do
      devname ← H.realpath ("/dev/disk/by-id/nvme-uuid." <> uuid)
      pure (if starts_with devname "/dev/nvme" then some devname else none)

  -- The first line of a file, stripped; `none` where it cannot be read.
  unfoldable pub read_wwid : String → Call H (Option (List ℕ))
  read_wwid match_path =
      catch (H.read_line match_path >>= λ line. pure (some (codes (strip line)))) (λ e. pure none)

  -- Whether the device of this name has the wwid, and is not skipped.
  abbrev pub is_match : String → String → Option (List ℕ) → Bool
  is_match uuid name none = false
  is_match uuid name (some match_wwid) =
      same_codes (codes ("uuid." <> uuid)) match_wwid && not (nvmec_match (codes name))

  unfoldable pub first_match : String → List String → Call H (Option String)
  first_match uuid [] = pure none
  first_match uuid (name ∷ names) = do
    match_wwid ← read_wwid ("/sys/class/block/" <> name <> "/wwid")
    if is_match uuid name match_wwid then pure (some ("/dev/" <> name)) else first_match uuid names

  -- `_check_device_exists_reading_block_class`
  unfoldable pub check_device_exists_reading_block_class : String → Call H (Option String)
  check_device_exists_reading_block_class uuid = (H.block_devices >>= first_match uuid)

  -- A round of the loop, once the link was looked at.
  unfoldable pub unless_linked : String → Option String → Call H (Step {0, 0} Done String)
  unless_linked uuid (some device) = pure (leave device)
  unless_linked uuid none = do
    device ← check_device_exists_reading_block_class uuid
    if is_some device then pure (found device) else (H.sleep 1 >> pure (again tt))

  unfoldable pub device_round : String → Done → Call H (Step {0, 0} Done String)
  device_round uuid _ = do
    device ← catch (check_device_exists_using_dev_lnk uuid) (λ e. pure none)
    unless_linked uuid device

  -- `_get_device_by_uuid`
  unfoldable pub get_device_by_uuid : String → Call H (Option String)
  get_device_by_uuid uuid = do
    start ← gets H.clock
    end ← while_before H.clock (start + wait_device_timeout * H.second) (device_round uuid) tt
    pure (device_of end)

  -- The size in bytes that the file says.
  unfoldable pub read_size : String → Call H (Option ℕ)
  read_size path = do
    size_blks ← H.read path
    blocks ← or_raise value_error (int (codes (strip size_blks)))
    pure (some (blocks * 512))

  -- `_get_size_by_uuid`: `none` has no `split`.
  unfoldable pub get_size_by_uuid : String → Call H (Option ℕ)
  get_size_by_uuid uuid = do
    device ← get_device_by_uuid uuid
    devpath ← or_raise attribute_error device
    catch (read_size (size_path_name (last_part devpath))) (λ e. pure none)
