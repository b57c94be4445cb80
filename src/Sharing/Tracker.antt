-- ===== src/Sharing/Tracker.antt =====
-- The devices that are shared: `DeviceAccessTracker` and `SharingEvent` of the same file. The hash
-- map of devices is walked in the order of its list. `get_state_mut` is `get_state` with an insert.
use mathlib.Core.Option
use rust_p2p_usb.Protocol.Types.{SharingMode}
use rust_p2p_usb.Base.{
  ℕ, Bool, true, Option, none, some, List, [], ◌∷◌, ◌++◌, Map, lookup, insert, remove, contains_key,
  if◌then◌else◌,
}
use rust_p2p_usb.Sharing
use rust_p2p_usb.Sharing.{DeviceSharingState, release_lock}
use rust_p2p_usb.Sharing.Grants.{process_queue, check_lock_timeout, get_all_queue_positions}

pub data SharingEvent : Type 0 where
  lock_expired access_granted : ℕ → ℕ → SharingEvent
  queue_position_changed : ℕ → ℕ → ℕ → SharingEvent

abbrev pub DeviceAccessTracker : Type 0
DeviceAccessTracker = Map DeviceSharingState

unfoldable pub register_device : ℕ → SharingMode → ℕ → ℕ → DeviceAccessTracker → DeviceAccessTracker
register_device device_id mode max_clients lock_timeout devices =
    insert device_id (Sharing.new device_id mode max_clients lock_timeout) devices

unfoldable pub unregister_device :
    ℕ → DeviceAccessTracker → Option DeviceSharingState × DeviceAccessTracker
unregister_device device_id devices = (lookup device_id devices, remove device_id devices)

unfoldable pub get_state : ℕ → DeviceAccessTracker → Option DeviceSharingState
get_state device_id devices = lookup device_id devices

unfoldable pub is_registered : ℕ → DeviceAccessTracker → Bool
is_registered device_id devices = contains_key device_id devices

unfoldable pub get_mode : ℕ → DeviceAccessTracker → Option SharingMode
get_mode device_id devices = Option.map (λ s. s.mode) (lookup device_id devices)

-- A device that is not registered may be attached to.
unfoldable pub can_attach : ℕ → DeviceAccessTracker → Bool
can_attach device_id devices = elim (lookup device_id devices) [
  | none ↦ true
  | some s ↦ Sharing.can_attach s
]

unfoldable pub get_device_for_handle : ℕ → DeviceAccessTracker → Option ℕ
get_device_for_handle handle [] = none
get_device_for_handle handle ((device_id, s) ∷ devices) =
    if contains_key handle s.attached_clients
    then some device_id
    else get_device_for_handle handle devices

-- What the calls of `Instant::now()` return for one device, in their order.
pub record Instants : Type 0 where
  pub checked : ℕ
  pub processed : ℕ
  pub granted : ℕ

abbrev pub changes : ℕ → List (ℕ × ℕ) → List SharingEvent
changes device_id [] = []
changes device_id ((handle, place) ∷ ps) =
    queue_position_changed device_id handle place ∷ changes device_id ps

-- The part of the loop's body that frees an expired lock.
unfoldable pub expire_lock : ℕ → ℕ → DeviceSharingState → List SharingEvent × DeviceSharingState
expire_lock now device_id s = elim (check_lock_timeout now s) [
  | none ↦ ([], s)
  | some handle ↦ (lock_expired device_id handle ∷ [], (release_lock handle s).1)
]

unfoldable pub granted_events :
    ℕ → Option ℕ × DeviceSharingState → List SharingEvent × DeviceSharingState
granted_events device_id (none, s) = ([], s)
granted_events device_id (some handle, s) =
    (access_granted device_id handle ∷ changes device_id (get_all_queue_positions s), s)

-- The part that processes the queue and reports the places of those who still wait.
unfoldable pub serve_queue : ℕ → ℕ → ℕ → DeviceSharingState → List SharingEvent × DeviceSharingState
serve_queue now granted_at device_id s = granted_events device_id (process_queue now granted_at s)

unfoldable pub process_device :
    Instants → ℕ → DeviceSharingState → List SharingEvent × DeviceSharingState
process_device at device_id s =
    let (expired, s1) = expire_lock at.checked device_id s in
    let (served, s2) = serve_queue at.processed at.granted device_id s1 in (expired ++ served, s2)

-- `at` gives the instants of each device's turn.
unfoldable pub process_all :
    (ℕ → Instants) → DeviceAccessTracker → List SharingEvent × DeviceAccessTracker
process_all at [] = ([], [])
process_all at ((device_id, s) ∷ devices) =
    let (events, s') = process_device (at device_id) device_id s in
    let (later, devices') = process_all at devices in (events ++ later, (device_id, s') ∷ devices')
