-- ===== src/Usb/Manager/Calls.antt =====
-- The calls of the manager that reach the sharing state of a device.

use rust_p2p_usb.Base.{
  ℕ, String, Bool, false, not, Option, none, some, List, [], lookup, insert, contains_key,
  if◌then◌else◌, Result, ok, err,
}
use rust_p2p_usb.Protocol.Types.{
  SharingMode, AttachError, LockResult, UnlockResult, DeviceSharingStatus, device_not_found,
  not_available,
}
use rust_p2p_usb.Sharing
use rust_p2p_usb.Sharing.{DeviceSharingState}
use rust_p2p_usb.Sharing.Grants.{get_status}
use rust_p2p_usb.Sharing.Tracker
use rust_p2p_usb.Sharing.Tracker.{SharingEvent, Instants, granted_events, serve_queue}
use rust_p2p_usb.Usb.Manager.{DeviceManager, get_device_id_for_handle}

-- The device of a handle, by the sharing states, else by the attachments.
abbrev pub device_for_handle : ℕ → DeviceManager → Option ℕ
device_for_handle handle m = elim (Tracker.get_device_for_handle handle m.access_tracker) [
  | some device_id ↦ some device_id
  | none ↦ get_device_id_for_handle handle m
]

-- A call on the state of a device, which is written back; without a state, an answer of its own.
unfoldable pub on_state :
    {A : Type 0}
    → ℕ
    → (DeviceSharingState → A × DeviceSharingState)
    → A
    → DeviceManager
    → A × DeviceManager
on_state device_id call otherwise m = elim (lookup device_id m.access_tracker) [
  | none ↦ (otherwise, m)
  | some s ↦
      ((call s).0, record m { access_tracker = insert device_id (call s).1 m.access_tracker })
]

unfoldable pub acquire_lock : ℕ → ℕ → Bool → DeviceManager → LockResult × DeviceManager
unfolding on_state get_device_id_for_handle
acquire_lock now handle write_access m = elim (device_for_handle handle m) [
  | none ↦ (not_available "Handle not found", m)
  | some device_id ↦
      on_state device_id (Sharing.acquire_lock now handle write_access)
        (not_available "Device not registered for sharing") m
]

unfoldable pub release_lock : ℕ → DeviceManager → UnlockResult × DeviceManager
unfolding on_state get_device_id_for_handle
release_lock handle m = elim (device_for_handle handle m) [
  | none ↦ (UnlockResult.error "Handle not found", m)
  | some device_id ↦
      on_state device_id (Sharing.release_lock handle)
        (UnlockResult.error "Device not registered for sharing") m
]

-- The instants are those of `process_queue`.
unfoldable pub process_device_queue : ℕ → ℕ → ℕ → DeviceManager → List SharingEvent × DeviceManager
unfolding on_state
process_device_queue now granted_at device_id m =
    on_state device_id (serve_queue now granted_at device_id) [] m

unfoldable pub process_all_queues :
    (ℕ → Instants) → DeviceManager → List SharingEvent × DeviceManager
process_all_queues at m =
    let (events, tracker) = Tracker.process_all at m.access_tracker in
    (events, record m { access_tracker = tracker })

unfoldable pub get_sharing_status :
    ℕ → Option ℕ → DeviceManager → Result DeviceSharingStatus AttachError
get_sharing_status device_id handle m =
    if not (contains_key device_id m.device_ids)
    then err device_not_found
    else elim (Tracker.get_state device_id m.access_tracker) [
      | some s ↦ ok (get_status handle s)
      | none ↦ ok (record {
        device_id = device_id;
        sharing_mode = m.sharing_config.default_mode;
        attached_clients = 0;
        has_write_lock = false;
        queue_position = 0;
        queue_length = 0;
      })
    ]

abbrev pub client_of : Option (ℕ × String) → Option String
client_of none = none
client_of (some (device_id, client)) = some client

unfoldable pub get_client_id_for_handle : ℕ → DeviceManager → Option String
get_client_id_for_handle handle m = client_of (lookup handle m.attached)

unfoldable pub get_sharing_mode : ℕ → DeviceManager → Option SharingMode
get_sharing_mode device_id m = Tracker.get_mode device_id m.access_tracker
