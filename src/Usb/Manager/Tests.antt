-- ===== src/Usb/Manager/Tests.antt =====
-- A manager with one mouse, attached by one client.
use rust_p2p_usb.Base.{
  split, same_text, parse_hex, trim_0x, ℕ, ◌≡◌, refl, String, true, false, none, some, List, [],
  ◌∷◌, arith, lookup, insert, contains_key, ok, err, codes, if◌then◌else◌, ◌==◌,
}
use rust_p2p_usb.Protocol.Types.{exclusive, DeviceInfo, AttachError, policy_denied}
use rust_p2p_usb.Protocol.Types
use rust_p2p_usb.Sharing
use rust_p2p_usb.Sharing.Tracker
use rust_p2p_usb.Sharing.Tracker.{get_mode}
use rust_p2p_usb.Usb.Transfers.{RusbError, pipe}
use rust_p2p_usb.Usb.Manager.{
  DeviceManager, SharingConfig, Plugged, with_sharing_config, any_of, attach_device,
  get_device_id_for_handle,
}
use rust_p2p_usb.Usb.Manager.Registry.{
  add_device, remove_device, check_filter, some_filter, Removed,
}
use rust_p2p_usb.Usb.Manager.Coherent.{Coherent, held}
use rust_p2p_usb.Usb.Manager.Debounce.{arrived, left, collect_ready, schedule_debounced_event}
use rust_p2p_usb.Usb.Manager.Settled.{
  Report, schedule_all, last_of, fired, due, collect_ready-schedule_all,
}
use rust_p2p_usb.Usb.Manager.Reach.{Reach, here, next, arrive, attach, new-Reach-Coherent}
use rust_p2p_usb.Usb.Manager.Handles.{one_handle, remove_device-held, among}

abbrev pub one_client : SharingConfig
one_client = record {
  default_mode = exclusive;
  default_lock_timeout_secs = 300;
  default_max_clients = 4;
}

abbrev mouse_info : ℕ → DeviceInfo
mouse_info id = record {
  id = id;
  vendor_id = 0x046d;
  product_id = 0xc077;
  bus_number = 1;
  device_address = 5;
  manufacturer = none;
  product = none;
  serial_number = none;
  class = 3;
  subclass = 1;
  protocol = 2;
  speed = Types.DeviceSpeed.low;
  num_configurations = 1;
}

abbrev mouse : Plugged
mouse = record {
  bus = 1;
  address = 5;
  descriptor = ok (record { vendor_id = 0x046d; product_id = 0xc077; class_code = 0 });
  info = mouse_info;
}

abbrev with_mouse : DeviceManager
with_mouse = (add_device pipe mouse (with_sharing_config (codes "0x046D:*" ∷ []) one_client)).1

abbrev text_of : RusbError → String
text_of e = "error"

abbrev pub in_use : DeviceManager
in_use = (attach_device text_of (ok _) 10 10 1 "ann" with_mouse).1

-- Filters are compared as numbers, so that case does not matter.
exact_and_wildcard :
    (check_filter 0x1234 0x5678 (codes "0x1234:0x5678" ∷ codes "0xABCD:*" ∷ []) ≡ true)
    × ((check_filter 0xabcd 0x1111 (codes "0x1234:0x5678" ∷ codes "0xABCD:*" ∷ []) ≡ true)
        × (check_filter 0x1234 0x9999 (codes "0x1234:0x5678" ∷ codes "0xABCD:*" ∷ []) ≡ false))
unfolding check_filter some_filter split same_text parse_hex trim_0x
exact_and_wildcard = (refl, (refl, refl))

abbrev unplugged : Removed
unplugged = record { device_id = 1; invalidated_handles = 1 ∷ []; affected_clients = "ann" ∷ [] }

in_use_lem :
    (get_device_id_for_handle 1 in_use ≡ some 1)
    × ((contains_key 1 in_use.attached ≡ true)
        × ((held 1 1 in_use ≡ true)
            × ((get_mode 1 in_use.access_tracker ≡ some exclusive)
                × ((remove_device 1 5 in_use).0 ≡ some unplugged))))
unfolding remove_device get_device_id_for_handle get_mode attach_device add_device
    with_sharing_config split same_text parse_hex trim_0x lookup insert Tracker.can_attach
    Tracker.register_device Sharing.can_attach Sharing.attach_client Sharing.new any_of
in_use_lem = (refl, (refl, (refl, (refl, refl))))

pub in_use_id : get_device_id_for_handle 1 in_use ≡ some 1
in_use_id = in_use_lem.0

second_client :
    (attach_device text_of (ok _) 20 20 1 "bob" in_use).0
    ≡ err (policy_denied "Device is in exclusive mode and already attached")
unfolding attach_device add_device with_sharing_config split same_text parse_hex trim_0x lookup
    insert Tracker.can_attach Tracker.register_device Sharing.can_attach Sharing.attach_client
    Sharing.new any_of get_mode
second_client = refl

pub in_use-Reach : Reach (with_sharing_config (codes "0x046D:*" ∷ []) one_client) in_use
unfolding attach_device add_device with_sharing_config split same_text parse_hex trim_0x lookup
    insert Tracker.can_attach Tracker.register_device Sharing.can_attach Sharing.attach_client
    Sharing.new
in_use-Reach =
    next
      (next here
        (arrive (with_sharing_config (codes "0x046D:*" ∷ []) one_client) pipe mouse (omega arith)))
      (attach with_mouse text_of (ok _) 10 10 1 "ann" (omega arith))

new-Reach-Coherent_example : Coherent in_use
new-Reach-Coherent_example =
    new-Reach-Coherent (codes "0x046D:*" ∷ []) one_client (omega arith) in_use-Reach

one_handle_example : ◌≡◌ {A = ℕ} 1 1
one_handle_example =
    one_handle (codes "0x046D:*" ∷ []) one_client 1 1 1 (omega arith) in_use-Reach
      in_use_lem.1.1.1.0 in_use_lem.1.1.0 in_use_lem.1.1.0

remove_device-held_example :
    (among 1 (1 ∷ []) ≡ held 1 1 in_use)
    × (held 1 1 (remove_device 1 5 in_use).1 ≡ (if 1 == 1 then false else held 1 1 in_use))
remove_device-held_example =
    remove_device-held (codes "0x046D:*" ∷ []) one_client 1 5 1 1 unplugged (omega arith)
      in_use-Reach in_use_lem.1.1.1.1

-- The mouse is plugged in, taken out and plugged in again within half a second.
abbrev wiggles : List Report
wiggles =
    record { at = 0; bus = 1; address = 5; event_type = arrived }
    ∷ record { at = 100; bus = 1; address = 5; event_type = left }
    ∷ record { at = 200; bus = 1; address = 5; event_type = arrived }
    ∷ []

collect_ready-schedule_all_example :
    let (events, waiting) = collect_ready 700 (schedule_all wiggles []) in
    let final = last_of 261 none wiggles in
    (fired 261 events ≡ (if due 700 final then final else none))
    × (lookup 261 waiting ≡ (if due 700 final then none else final))
collect_ready-schedule_all_example = collect_ready-schedule_all wiggles 700 261

settled : (fired 261 (collect_ready 650 (schedule_all wiggles [])).0 ≡ none)
unfolding collect_ready schedule_all schedule_debounced_event fired lookup insert
settled = refl
