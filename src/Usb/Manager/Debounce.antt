-- ===== src/Usb/Manager/Debounce.antt =====
-- The debouncing of hot-plug events: `HotplugCallback` and `process_debounced_events`. The pending
-- events are shared by the callback and the manager under one lock, and so are a value of their
-- own.
use rust_p2p_usb.Base.{
  ℕ, ◌+◌, List, [], ◌∷◌, ◌++◌, Map, lookup, insert, remove, length, leb, Result, if◌then◌else◌,
  none, some,
}
use rust_p2p_usb.Usb.Transfers.{RusbError}
use rust_p2p_usb.Usb.Manager.{DeviceManager, Plugged, key_of}
use rust_p2p_usb.Usb.Manager.Registry.{
  UsbEvent, handle_device_arrived_internal, handle_device_left_internal,
}

-- In ms, the unit of the instants.
abbrev pub hotplug_debounce_duration : ℕ
hotplug_debounce_duration = 500

pub data PendingHotplugEvent : Type 0 where
  arrived left : PendingHotplugEvent

pub record DebouncedEvent : Type 0 where
  pub event_type : PendingHotplugEvent
  pub fire_at : ℕ
  pub bus : ℕ
  pub address : ℕ

abbrev pub DebounceState : Type 0
DebounceState = Map DebouncedEvent

unfoldable pub schedule_debounced_event :
    ℕ → ℕ → ℕ → PendingHotplugEvent → DebounceState → DebounceState
schedule_debounced_event now bus address event_type state =
    let event : DebouncedEvent = record {
      event_type = event_type;
      fire_at = now + hotplug_debounce_duration;
      bus = bus;
      address = address;
    } in
    insert (key_of bus address) event state

unfoldable pub ready_keys : ℕ → DebounceState → List ℕ
ready_keys now [] = []
ready_keys now ((key, e) ∷ rest) =
    if leb e.fire_at now then key ∷ ready_keys now rest else ready_keys now rest

-- Takes the events of the keys out of the state.
unfoldable pub take_ready : List ℕ → DebounceState → List DebouncedEvent × DebounceState
take_ready [] state = ([], state)
take_ready (key ∷ keys) state =
    let (events, after) = take_ready keys (remove key state) in
    elim (lookup key state) [ none ↦ (events, after) | some e ↦ (e ∷ events, after) ]

unfoldable pub collect_ready : ℕ → DebounceState → List DebouncedEvent × DebounceState
unfolding ready_keys take_ready
collect_ready now state = take_ready (ready_keys now state) state

unfoldable pub process_event :
    RusbError
    → Result (List Plugged) RusbError
    → DebouncedEvent
    → DeviceManager
    → List UsbEvent × DeviceManager
unfolding handle_device_arrived_internal handle_device_left_internal
process_event not_supported listed e m = elim e.event_type [
  | arrived ↦ handle_device_arrived_internal not_supported listed e.bus e.address m
  | left ↦ handle_device_left_internal e.bus e.address m
]

-- `listed` gives what libusb lists at the turn of each event.
unfoldable pub process_events :
    RusbError
    → (DebouncedEvent → Result (List Plugged) RusbError)
    → List DebouncedEvent
    → DeviceManager
    → List UsbEvent × DeviceManager
unfolding process_event
process_events not_supported listed [] m = ([], m)
process_events not_supported listed (e ∷ es) m =
    let (sent, m1) = process_event not_supported (listed e) e m in
    let (later, m2) = process_events not_supported listed es m1 in (sent ++ later, m2)

pub record Processed : Type 0 where
  pub count : ℕ
  pub sent : List UsbEvent
  pub pending : DebounceState
  pub manager : DeviceManager

unfoldable pub process_debounced_events :
    RusbError
    → (DebouncedEvent → Result (List Plugged) RusbError)
    → ℕ
    → DebounceState
    → DeviceManager
    → Processed
unfolding collect_ready process_events
process_debounced_events not_supported listed now state m =
    let (ready, pending) = collect_ready now state in
    let (sent, after) = process_events not_supported listed ready m in
    record { count = length ready; sent = sent; pending = pending; manager = after }
