-- ===== src/Usb/Manager/Registry.antt =====
-- Devices that come and go: the filters, `add_device` and `remove_device`, and what the hot-plug
-- events make of them. `UsbEvent` is that of crates/common/src/channel.rs, as far as the manager
-- sends it.
use text.Mathlib.Text as Text
use rust_p2p_usb.Base.{
  ◌++◌, ℕ, ◌+◌, String, Bool, true, false, not, ◌&&◌, ◌||◌, Option, none, some, List, [], ◌∷◌, Map,
  lookup, insert, remove, retain, ◌==◌, if◌then◌else◌, Result, ok, err, as_u32, codes, same_text,
  split, parse_hex, trim_0x, map,
}
use rust_p2p_usb.Protocol.Types.{DeviceInfo}
use rust_p2p_usb.Sharing.Tracker.{register_device, unregister_device}
use rust_p2p_usb.Usb.Transfers.{RusbError, access}
use rust_p2p_usb.Usb.Manager.{
  DeviceManager, UsbDevice, Plugged, Descriptor, key_of, get_device_by_id,
}

-- One half of a filter: anything, or a number in hexadecimal.
abbrev pub half_matches : List ℕ → ℕ → Bool
half_matches text n =
    if same_text text (codes "*")
    then true
    else elim (parse_hex 65535 (trim_0x text)) [ none ↦ false | some v ↦ v == n ]

abbrev pub parts_match : ℕ → ℕ → List (List ℕ) → Bool
parts_match vid pid (v ∷ p ∷ []) = half_matches v vid && half_matches p pid
parts_match vid pid [] = false
parts_match vid pid (v ∷ []) = false
parts_match vid pid (v ∷ p ∷ x ∷ rest) = false

unfoldable pub some_filter : ℕ → ℕ → List (List ℕ) → Bool
some_filter vid pid [] = false
some_filter vid pid (f ∷ fs) =
    if parts_match vid pid (split 58 f) then true else some_filter vid pid fs

unfoldable pub check_filter : ℕ → ℕ → List (List ℕ) → Bool
unfolding some_filter
check_filter vid pid [] = true
check_filter vid pid (f ∷ fs) = some_filter vid pid (f ∷ fs)

unfoldable pub is_device_allowed : Plugged → DeviceManager → Bool
unfolding check_filter
is_device_allowed device m = elim device.descriptor [
  | err e ↦ false
  | ok d ↦ check_filter d.vendor_id d.product_id m.allowed_filters
]

abbrev pub is_root_hub : Result Descriptor RusbError → Bool
is_root_hub (err e) = false
is_root_hub (ok d) = d.vendor_id == 0x1d6b && d.class_code == 9

-- A device that is new gets the next id. The id is taken before its descriptor is read. Lock
-- timeouts are in seconds, as the instants of the sharing state are.
unfoldable pub add_read :
    Result Descriptor RusbError → Plugged → ℕ → DeviceManager → Result ℕ RusbError × DeviceManager
add_read (err e) device key m = (err e, record m { next_device_id = as_u32 (m.next_device_id + 1) })
add_read (ok descriptor) device key m =
    let device_id = m.next_device_id in
    let config = m.sharing_config in
    let usb_device : UsbDevice = record { device = device; id = device_id; opened = false } in
    (
      ok device_id,
      record m {
        next_device_id = as_u32 (device_id + 1);
        device_ids = insert device_id key m.device_ids;
        devices = insert key usb_device m.devices;
        access_tracker =
            register_device device_id config.default_mode config.default_max_clients
              config.default_lock_timeout_secs m.access_tracker;
      },
    )

unfoldable pub add_new : Plugged → ℕ → DeviceManager → Result ℕ RusbError × DeviceManager
unfolding add_read
add_new device key m = add_read device.descriptor device key m

-- `not_supported` is the error of that name.
unfoldable pub add_device : RusbError → Plugged → DeviceManager → Result ℕ RusbError × DeviceManager
unfolding add_new is_device_allowed
add_device not_supported device m =
    let key = key_of device.bus device.address in
    if not (is_device_allowed device m) then (err access, m) else elim (lookup key m.devices) [
      | some existing ↦ (ok existing.id, m)
      | none ↦
          if is_root_hub device.descriptor then (err not_supported, m) else add_new device key m
    ]

abbrev pub is_on : ℕ → ℕ × (ℕ × String) → Bool
is_on device_id (handle, (id, client)) = id == device_id

unfoldable pub handles_of : ℕ → Map (ℕ × String) → List ℕ
handles_of device_id [] = []
handles_of device_id ((handle, (id, client)) ∷ rest) =
    if id == device_id then handle ∷ handles_of device_id rest else handles_of device_id rest

unfoldable pub names_client : String → List String → Bool
names_client client [] = false
names_client client (c ∷ cs) = Text.◌==◌ c client || names_client client cs

-- Each client once, in the order of the handles; `seen` are those that came before.
unfoldable pub clients_of : List String → ℕ → Map (ℕ × String) → List String
unfolding names_client
clients_of seen device_id [] = seen
clients_of seen device_id ((handle, (id, client)) ∷ rest) =
    if id == device_id && not (names_client client seen)
    then clients_of (seen ++ client ∷ []) device_id rest
    else clients_of seen device_id rest

pub record Removed : Type 0 where
  pub device_id : ℕ
  pub invalidated_handles : List ℕ
  pub affected_clients : List String

unfoldable pub remove_known : ℕ → UsbDevice → DeviceManager → DeviceManager
remove_known key d m = record m {
  devices = remove key m.devices;
  device_ids = remove d.id m.device_ids;
  attached = retain (λ a. not (is_on d.id a)) m.attached;
  access_tracker = (unregister_device d.id m.access_tracker).1;
}

unfoldable pub remove_device : ℕ → ℕ → DeviceManager → Option Removed × DeviceManager
unfolding remove_known handles_of clients_of
remove_device bus address m =
    let key = key_of bus address in
    elim (lookup key m.devices) [
      | none ↦ (none, m)
      | some d ↦
          let gone : Removed = record {
            device_id = d.id;
            invalidated_handles = handles_of d.id m.attached;
            affected_clients = clients_of [] d.id m.attached;
          } in
          (some gone, remove_known key d m)
    ]

pub data UsbEvent : Type 0 where
  device_arrived : (device : DeviceInfo) → UsbEvent
  device_left :
      (device_id : ℕ) (invalidated_handles : List ℕ) (affected_clients : List String) → UsbEvent

unfoldable pub handle_device_left_internal : ℕ → ℕ → DeviceManager → List UsbEvent × DeviceManager
unfolding remove_device
handle_device_left_internal bus address m =
    let (removed, after) = remove_device bus address m in
    elim removed [
      | none ↦ ([], after)
      | some r ↦ (device_left r.device_id r.invalidated_handles r.affected_clients ∷ [], after)
    ]

abbrev pub device_info : UsbDevice → DeviceInfo
device_info d = d.device.info d.id

abbrev pub arrived_events : Option UsbDevice → List UsbEvent
arrived_events none = []
arrived_events (some d) = device_arrived (device_info d) ∷ []

-- The first device of the list that stands at the place.
unfoldable pub arrive_first :
    RusbError → ℕ → ℕ → List Plugged → DeviceManager → List UsbEvent × DeviceManager
unfolding add_device get_device_by_id
arrive_first not_supported bus address [] m = ([], m)
arrive_first not_supported bus address (p ∷ ps) m =
    let (added, after) = add_device not_supported p m in
    let rest = arrive_first not_supported bus address ps m in
    if p.bus == bus && p.address == address
    then elim added [
      | err e ↦ ([], after)
      | ok device_id ↦ (arrived_events (get_device_by_id device_id after), after)
    ]
    else rest

-- `listed` is what libusb lists at that moment.
unfoldable pub handle_device_arrived_internal :
    RusbError
    → Result (List Plugged) RusbError
    → ℕ
    → ℕ
    → DeviceManager
    → List UsbEvent × DeviceManager
unfolding arrive_first
handle_device_arrived_internal not_supported (err e) bus address m = ([], m)
handle_device_arrived_internal not_supported (ok listed) bus address m =
    arrive_first not_supported bus address listed m

unfoldable pub add_each : RusbError → List Plugged → DeviceManager → DeviceManager
unfolding add_device
add_each not_supported [] m = m
add_each not_supported (p ∷ ps) m = add_each not_supported ps (add_device not_supported p m).1

unfoldable pub enumerate_devices :
    RusbError
    → Result (List Plugged) RusbError
    → DeviceManager
    → Result (Unit {0}) RusbError × DeviceManager
unfolding add_each
enumerate_devices not_supported (err e) m = (err e, m)
enumerate_devices not_supported (ok listed) m = (ok _, add_each not_supported listed m)

unfoldable pub list_devices : DeviceManager → List DeviceInfo
list_devices m = map (λ d. device_info d.1) m.devices
