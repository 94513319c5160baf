-- ===== src/Agent/Monitors/Usb.antt =====
-- agent/monitors/usb_monitor.py: USBMonitor. psutil is a parameter.
pub mod Members
pub mod Changes
pub mod Told
use guardian_pi.Base.{
  String, ◌<>◌, Bool, true, false, not, ◌||◌, List, [], ◌∷◌, ◌++◌, Option, none, some, map, filter,
  contains, is_substring, if◌then◌else◌,
}

pub record Partition : Type 0 where
  pub device : String
  pub mountpoint : String
  pub fstype : String
  pub opts : String

-- A connection with what the disk's usage tells, if it does not raise; the size by its text.
pub data Event : Type 0 where
  usb_connected : (device title : String) (details : Option (String × (String × String))) → Event
  usb_disconnected : (device title : String) → Event

abbrev pub device_of : Event → String
device_of (usb_connected device title details) = device
device_of (usb_disconnected device title) = device

-- set.add
abbrev pub add_device : String → List String → List String
add_device device devices = if contains devices device then devices else devices ++ device ∷ []

-- `lower` is str.lower; `total_gb` is the size in GB of a mountpoint, none where it raises.
module _ (lower : String → String) (total_gb : String → Option String) where
  unfoldable pub initialize : List Partition → List String → List String
  initialize [] known = known
  initialize (p ∷ partitions) known =
      initialize partitions
        (if is_substring "removable" (lower p.opts) then add_device p.device known else known)

  abbrev pub is_watched : Partition → Bool
  is_watched p =
      if is_substring "fixed" (lower p.opts)
      then false
      else is_substring "removable" (lower p.opts) || is_substring "usb" (lower p.opts)

  abbrev pub details_of : Partition → Option String → Option (String × (String × String))
  details_of p none = none
  details_of p (some total) = some (p.mountpoint, (p.fstype, total))

  abbrev pub connected : Partition → Event
  connected p =
      usb_connected p.device ("USB connected: " <> p.device) (details_of p (total_gb p.mountpoint))

  -- The loop over the partitions: the events, and the devices that are there.
  unfoldable pub watch :
      (known : List String) → List Partition → (current : List String) → List Event × List String
  watch known [] current = ([], current)
  watch known (p ∷ partitions) current =
      let (events, final) = watch known partitions (add_device p.device current) in
      let (skipped, unchanged) = watch known partitions current in
      if is_watched p
      then (if contains known p.device then (events, final) else (connected p ∷ events, final))
      else (skipped, unchanged)

  abbrev pub disconnected : String → Event
  disconnected device = usb_disconnected device ("USB disconnected: " <> device)

  -- The events, and the devices that are known afterwards.
  unfoldable pub check : List Partition → (known : List String) → List Event × List String
  check partitions known =
      let (events, current) = watch known partitions [] in
      (events ++ map disconnected (filter (λ d. not (contains current d)) known), current)
