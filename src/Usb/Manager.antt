-- ===== src/Usb/Manager.antt =====
-- The registry of devices: crates/server/src/usb/manager.rs, `DeviceManager`, and from device.rs
-- beside it what opening and closing mean for it. A key (bus, address) of two bytes is `bus * 256
-- + address`. What libusb says of a device is a record `Plugged`; its descriptor is cached by the
-- library, so that every reading of it is the same.
pub mod Registry
pub mod Calls
pub mod Debounce
pub mod Coherent
pub mod Attachment
pub mod Detachment
pub mod Hotplug
pub mod Reach
pub mod Settled
pub mod Handles
pub mod Tests
use mathlib.Core.Option
use rust_p2p_usb.Base.{
  ℕ, ◌+◌, ◌*◌, String, Bool, true, false, not, ◌&&◌, ◌||◌, Option, none, some, List, [], ◌∷◌, Map,
  lookup, insert, remove, contains_key, retain, ltb, ◌==◌, if◌then◌else◌, Result, ok, err, as_u32,
  is_some, map,
}
use rust_p2p_usb.Protocol.Types.{
  SharingMode, exclusive, shared, read_only, AttachError, DetachError, DeviceInfo, LockResult,
  UnlockResult, device_not_found, already_attached, permission_denied, policy_denied,
  handle_not_found, not_available, DeviceSharingStatus,
}
use rust_p2p_usb.Sharing
use rust_p2p_usb.Sharing.{DeviceSharingState, is_exclusive}
use rust_p2p_usb.Sharing.Grants.{process_queue, get_all_queue_positions, get_status}
use rust_p2p_usb.Sharing.Tracker
use rust_p2p_usb.Sharing.Tracker.{DeviceAccessTracker, SharingEvent, Instants, granted_events}
use rust_p2p_usb.Usb.Transfers.{RusbError, not_found, access}

pub record SharingConfig : Type 0 where
  pub default_mode : SharingMode
  pub default_lock_timeout_secs : ℕ
  pub default_max_clients : ℕ

pub record Descriptor : Type 0 where
  pub vendor_id : ℕ
  pub product_id : ℕ
  pub class_code : ℕ

-- `info` is what `device_info` reads of the device, for the id that it is given.
pub record Plugged : Type 0 where
  pub bus : ℕ
  pub address : ℕ
  pub descriptor : Result Descriptor RusbError
  pub info : ℕ → DeviceInfo

-- Of the handle that libusb gives, whether there is one.
pub record UsbDevice : Type 0 where
  pub device : Plugged
  pub id : ℕ
  pub opened : Bool

pub record DeviceManager : Type 0 where
  pub devices : Map UsbDevice
  pub device_ids : Map ℕ
  pub attached : Map (ℕ × String)
  pub next_device_id : ℕ
  pub next_handle_id : ℕ
  pub allowed_filters : List (List ℕ)
  pub access_tracker : DeviceAccessTracker
  pub sharing_config : SharingConfig

abbrev pub key_of : ℕ → ℕ → ℕ
key_of bus address = bus * 256 + address

unfoldable pub with_sharing_config : List (List ℕ) → SharingConfig → DeviceManager
with_sharing_config allowed_filters sharing_config = record {
  devices = [];
  device_ids = [];
  attached = [];
  next_device_id = 1;
  next_handle_id = 1;
  allowed_filters = allowed_filters;
  access_tracker = [];
  sharing_config = sharing_config;
}

unfoldable pub find_device : Option ℕ → Map UsbDevice → Option UsbDevice
find_device none devices = none
find_device (some key) devices = lookup key devices

unfoldable pub get_device_by_id : ℕ → DeviceManager → Option UsbDevice
unfolding find_device
get_device_by_id device_id m = find_device (lookup device_id m.device_ids) m.devices

abbrev pub id_of : Option (ℕ × String) → Option ℕ
id_of none = none
id_of (some (device_id, client)) = some device_id

unfoldable pub get_device_id_for_handle : ℕ → DeviceManager → Option ℕ
get_device_id_for_handle handle m = id_of (lookup handle m.attached)

unfoldable pub get_device_by_handle : ℕ → DeviceManager → Option UsbDevice
unfolding get_device_by_id get_device_id_for_handle
get_device_by_handle handle m = elim (get_device_id_for_handle handle m) [
  | none ↦ none
  | some device_id ↦ get_device_by_id device_id m
]

-- `attached.values().any(|(id, _)| *id == device_id)`
unfoldable pub any_of : ℕ → Map (ℕ × String) → Bool
any_of device_id [] = false
any_of device_id ((handle, (id, client)) ∷ rest) = id == device_id || any_of device_id rest

-- Writes a device's flag, where the device is there.
abbrev pub set_opened : Bool → Option ℕ → Map UsbDevice → Map UsbDevice
set_opened flag none devices = devices
set_opened flag (some key) devices = elim (lookup key devices) [
  | none ↦ devices
  | some d ↦ insert key (record d { opened = flag }) devices
]

-- `UsbDevice::open`, with what libusb answers where the device is not open, and the texts of its
-- errors.
abbrev pub attach_error : (RusbError → String) → RusbError → AttachError
attach_error to_string not_found = device_not_found
attach_error to_string access = permission_denied
attach_error to_string e = AttachError.other (to_string e)

unfoldable pub opening :
    (RusbError → String) → Result (Unit {0}) RusbError → UsbDevice → Option AttachError
opening to_string answer d =
    if d.opened then none else elim answer [ ok _ ↦ none | err e ↦ some (attach_error to_string e) ]

abbrev pub denial : Option SharingMode → String
denial none = "Device not available for sharing"
denial (some exclusive) = "Device is in exclusive mode and already attached"
denial (some shared) = "Maximum concurrent clients reached"
denial (some read_only) = "Maximum concurrent clients reached"

-- `get_state_mut`, with the change that follows.
unfoldable pub with_state :
    ℕ → (DeviceSharingState → DeviceSharingState) → DeviceAccessTracker → DeviceAccessTracker
with_state device_id change tracker = elim (lookup device_id tracker) [
  | none ↦ tracker
  | some s ↦ insert device_id (change s) tracker
]

-- The device is open, and gets the next handle.
unfoldable pub attach_opened : ℕ → ℕ → ℕ → String → DeviceManager → DeviceManager
unfolding with_state
attach_opened now locked_at device_id client_id m =
    let handle = m.next_handle_id in
    record m {
      devices = set_opened true (lookup device_id m.device_ids) m.devices;
      next_handle_id = as_u32 (handle + 1);
      access_tracker =
          with_state device_id (Sharing.attach_client now locked_at client_id handle)
            m.access_tracker;
      attached = insert handle (device_id, client_id) m.attached;
    }

abbrev pub attach_at :
    (RusbError → String)
    → Result (Unit {0}) RusbError
    → ℕ
    → ℕ
    → ℕ
    → String
    → Option UsbDevice
    → DeviceManager
    → Result ℕ AttachError × DeviceManager
attach_at to_string answer now locked_at device_id client_id none m = (err device_not_found, m)
attach_at to_string answer now locked_at device_id client_id (some d) m =
    elim (opening to_string answer d) [
      | some e ↦ (err e, m)
      | none ↦ (ok m.next_handle_id, attach_opened now locked_at device_id client_id m)
    ]

-- The two instants are those of `attach_client`.
unfoldable pub attach_device :
    (RusbError → String)
    → Result (Unit {0}) RusbError
    → ℕ
    → ℕ
    → ℕ
    → String
    → DeviceManager
    → Result ℕ AttachError × DeviceManager
unfolding attach_opened get_device_by_id opening
attach_device to_string answer now locked_at device_id client_id m =
    if not (contains_key device_id m.device_ids)
    then (err device_not_found, m)
    else if not (Tracker.can_attach device_id m.access_tracker)
    then (err (policy_denied (denial (Tracker.get_mode device_id m.access_tracker))), m)
    else if is_exclusive m.sharing_config.default_mode && any_of device_id m.attached
    then (err already_attached, m)
    else attach_at to_string answer now locked_at device_id client_id (get_device_by_id device_id m)
        m

-- The device is closed when the last of its clients has gone.
unfoldable pub detach_from : ℕ → ℕ → DeviceManager → DeviceManager
unfolding with_state any_of
detach_from handle device_id m =
    let others = remove handle m.attached in
    record m {
      attached = others;
      access_tracker =
          with_state device_id (λ s. (Sharing.detach_client handle s).1) m.access_tracker;
      devices =
          if any_of device_id others
          then m.devices
          else set_opened false (lookup device_id m.device_ids) m.devices;
    }

unfoldable pub detach_device : ℕ → DeviceManager → Result (Unit {0}) DetachError × DeviceManager
unfolding detach_from
detach_device handle m = elim (get_device_id_for_handle handle m) [
  | none ↦ (err handle_not_found, m)
  | some device_id ↦ (ok _, detach_from handle device_id m)
]
