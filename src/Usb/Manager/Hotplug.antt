-- ===== src/Usb/Manager/Hotplug.antt =====
-- Devices that come and go keep the manager coherent.
use rust_p2p_usb.Base.{
  ℕ, ◌+◌, ◌<◌, ◌^◌, ◌≡◌, refl, sym, ◌∙◌, String, true, false, not, inl, inr, Bool-cases,
  Option-cases, none, some, [], ◌∷◌, arith, Map, lookup, insert, remove, retain, contains_key,
  KeysOnce, lookup-insert, lookup-remove, lookup_same_key, ◌==◌, if◌then◌else◌, is_some_of, as_u32,
  Result, ok, err,
}
use rust_p2p_usb.Sharing
use rust_p2p_usb.Sharing.{DeviceSharingState}
use rust_p2p_usb.Sharing.Invariant.{IsValid, new-IsValid}
use rust_p2p_usb.Sharing.Attached.{attached-new}
use rust_p2p_usb.Sharing.Tracker.{DeviceAccessTracker, register_device, unregister_device}
use rust_p2p_usb.Usb.Transfers.{RusbError}
use rust_p2p_usb.Usb.Manager.{
  DeviceManager, UsbDevice, Plugged, Descriptor, find_device, id_of, key_of,
}
use rust_p2p_usb.Usb.Manager.Registry.{
  is_on, remove_known, remove_device, add_read, add_new, add_device, is_device_allowed, is_root_hub,
}
use rust_p2p_usb.Usb.Manager.Coherent.{Coherent, names_id, held, insert-IsValid, lists-insert}
use rust_p2p_usb.Usb.Manager.Detachment.{open_place}

-- The attachments that are left when those to a device are dropped.
abbrev left : ℕ → Map (ℕ × String) → Map (ℕ × String)
left id attached = retain (λ a. not (is_on id a)) attached

contains_key-left :
    (id k : ℕ) (attached : Map (ℕ × String))
    → contains_key k attached ≡ false
    → contains_key k (left id attached) ≡ false
unfolding lookup
contains_key-left id k [] none_there = none_there
contains_key-left id k ((h, (i, c)) ∷ rest) none_there = ground (arith, contains_key-left id k rest)

left-KeysOnce :
    (id : ℕ) (attached : Map (ℕ × String)) → KeysOnce attached → KeysOnce (left id attached)
unfolding lookup
left-KeysOnce id [] once = tt
left-KeysOnce id ((h, (i, c)) ∷ rest) once = elim (Bool-cases (i == id)) [
  | inl gone ↦ rw gone (left-KeysOnce id rest once.1)
  | inr stays ↦ rw stays (contains_key-left id h rest once.0, left-KeysOnce id rest once.1)
]

pub held-left :
    (id k i : ℕ) (attached : Map (ℕ × String))
    → KeysOnce attached
    → is_some_of (id_of (lookup k (left id attached))) i
      ≡ (if id == i then false else is_some_of (id_of (lookup k attached)) i)
unfolding lookup
held-left id k i [] once = ground arith
held-left id k i ((h, (j, c)) ∷ rest) once = ground (
  arith,
  held-left id k i rest once.1,
  contains_key-left id k rest,
  once.0,
  lookup_same_key h k rest,
)

remove-IsValid :
    (id : ℕ) (tracker : DeviceAccessTracker)
    → ((k : ℕ) (s : DeviceSharingState) → lookup k tracker ≡ some s → IsValid s)
    → (k : ℕ) (s : DeviceSharingState) → lookup k (remove id tracker) ≡ some s
    → IsValid s
remove-IsValid id tracker vs k s found = elim (Bool-cases (id == k)) [
  | inl same ↦
      let gone : none ≡ some s = sym (lookup-remove id k tracker ∙ rw same refl) ∙ found in
      absurd (cc)
  | inr other ↦ vs k s (sym (lookup-remove id k tracker ∙ rw other refl) ∙ found)
]

remove_known-Coherent :
    (key : ℕ) (d : UsbDevice) (m : DeviceManager)
    → Coherent m
    → lookup key m.devices ≡ some d
    → Coherent (remove_known key d m)
unfolding remove_known unregister_device find_device
remove_known-Coherent key d m v at_key = record {
  listed = λ k i there. ground (
    arith,
    held-left d.id k i m.attached v.once,
    lookup-remove d.id i m.access_tracker,
    v.listed k i,
  );
  owned = λ k i there. ground (
    arith,
    held-left d.id k i m.attached v.once,
    lookup-remove d.id i m.access_tracker,
    v.owned k i,
  );
  opened = λ k i there.
      let other : (d.id == i) ≡ false = ground (arith, held-left d.id k i m.attached v.once) in
      let before : held k i m ≡ true = ground (arith, held-left d.id k i m.attached v.once) in
      let (place, (at_i, is_open)) =
        open_place (lookup i m.device_ids) m.devices (v.opened k i before) in
      let named_i : names_id i (lookup place m.devices) ≡ true =
        v.named i place (ground (arith, at_i)) in
      let still : lookup i (remove d.id m.device_ids) ≡ some place =
        lookup-remove d.id i m.device_ids ∙ rw other at_i in
      rw (still, lookup-remove key place m.devices)
        (ground (arith, named_i, is_open, lookup_same_key key place m.devices, at_key, other));
  fresh = λ k there. ground (arith, contains_key-left d.id k m.attached, v.fresh k);
  named = λ k place there. ground (
    arith,
    lookup-remove d.id k m.device_ids,
    lookup-remove key place m.devices,
    v.named k place,
    lookup_same_key key place m.devices,
  );
  registered = λ k there. ground (
    arith,
    lookup-remove d.id k m.device_ids,
    lookup-remove d.id k m.access_tracker,
    v.registered k,
  );
  numbered = λ k there. ground (arith, lookup-remove d.id k m.access_tracker, v.numbered k);
  valid = λ k s found. remove-IsValid d.id m.access_tracker v.valid k s found;
  once = left-KeysOnce d.id m.attached v.once;
  in_u32 = v.in_u32;
}

pub remove_device-Coherent :
    (bus address : ℕ) (m : DeviceManager) → Coherent m → Coherent (remove_device bus address m).1
unfolding remove_device
remove_device-Coherent bus address m v =
    elim (Option-cases (lookup (key_of bus address) m.devices)) [
      | inl unknown ↦ rw (unknown, remove_device) v
      | inr (d, at_key) ↦
          rw (at_key, remove_device) (remove_known-Coherent (key_of bus address) d m v at_key)
    ]

-- The manager with a device that is new.
abbrev with_device : ℕ → UsbDevice → DeviceManager → DeviceManager
with_device key d m = record m {
  next_device_id = as_u32 (m.next_device_id + 1);
  device_ids = insert m.next_device_id key m.device_ids;
  devices = insert key d m.devices;
  access_tracker =
      register_device m.next_device_id m.sharing_config.default_mode
        m.sharing_config.default_max_clients m.sharing_config.default_lock_timeout_secs
        m.access_tracker;
}

with_device-Coherent :
    (key : ℕ) (d : UsbDevice) (m : DeviceManager)
    → Coherent m
    → lookup key m.devices ≡ none
    → d.id ≡ m.next_device_id
    → m.next_device_id + 1 < 2 ^ 32
    → Coherent (with_device key d m)
unfolding register_device find_device
with_device-Coherent key d m v no_device its_id small =
    let id = m.next_device_id in
    let config = m.sharing_config in
    let new =
      Sharing.new id config.default_mode config.default_max_clients
        config.default_lock_timeout_secs in
    let empty =
      attached-new id config.default_mode config.default_max_clients
        config.default_lock_timeout_secs in
    record {
      listed = λ k i there.
          ground
            (arith, lists-insert id i k new m.access_tracker, v.listed k i there, v.numbered i);
      owned = λ k i there.
          ground (arith, lists-insert id i k new m.access_tracker, v.owned k i, empty k);
      opened = λ k i there.
          let tracked = v.listed k i there in
          let (place, (at_i, is_open)) =
            open_place (lookup i m.device_ids) m.devices (v.opened k i there) in
          let older : i < id = v.numbered i (ground (arith, tracked)) in
          let still : lookup i (insert id key m.device_ids) ≡ some place =
            lookup-insert id i key m.device_ids ∙ ground (arith, at_i, older) in
          rw (still, lookup-insert key place d m.devices)
            (ground (arith, is_open, lookup_same_key key place m.devices, no_device));
      fresh = v.fresh;
      named = λ k place there. ground (
        arith,
        lookup-insert id k key m.device_ids,
        lookup-insert key place d m.devices,
        v.named k place,
        lookup_same_key key place m.devices,
        its_id,
      );
      registered = λ k there. ground (
        arith,
        lookup-insert id k new m.access_tracker,
        lookup-insert id k key m.device_ids,
        v.registered k,
      );
      numbered = λ k there. ground (arith, lookup-insert id k new m.access_tracker, v.numbered k);
      valid =
          insert-IsValid id new m.access_tracker
            (new-IsValid id config.default_mode config.default_max_clients
              config.default_lock_timeout_secs v.in_u32)
            v.valid;
      once = v.once;
      in_u32 = v.in_u32;
    }

add_read-Coherent :
    (r : Result Descriptor RusbError) (p : Plugged) (key : ℕ) (m : DeviceManager)
    → Coherent m
    → lookup key m.devices ≡ none
    → m.next_device_id + 1 < 2 ^ 32
    → Coherent (add_read r p key m).1
unfolding add_read
add_read-Coherent (err e) p key m v no_device small = record {
  listed = v.listed;
  owned = v.owned;
  opened = v.opened;
  fresh = v.fresh;
  named = v.named;
  registered = v.registered;
  numbered = λ k there. ground (arith, v.numbered k there);
  valid = v.valid;
  once = v.once;
  in_u32 = v.in_u32;
}
add_read-Coherent (ok descriptor) p key m v no_device small =
    let d : UsbDevice = record { device = p; id = m.next_device_id; opened = false } in
    with_device-Coherent key d m v no_device refl small

pub add_device-Coherent :
    (not_supported : RusbError) (p : Plugged) (m : DeviceManager)
    → Coherent m
    → m.next_device_id + 1 < 2 ^ 32
    → Coherent (add_device not_supported p m).1
unfolding add_device add_new
add_device-Coherent not_supported p m v small = elim (Bool-cases (is_device_allowed p m)) [
  | inr filtered ↦ rw filtered v
  | inl allowed ↦ elim (Option-cases (lookup (key_of p.bus p.address) m.devices)) [
    | inr (d, known) ↦ rw (allowed, known, add_device) v
    | inl no_device ↦ elim (Bool-cases (is_root_hub p.descriptor)) [
      | inl hub ↦ rw (allowed, no_device, hub, add_device) v
      | inr plain ↦
          rw (allowed, no_device, plain, add_device)
            (add_read-Coherent p.descriptor p (key_of p.bus p.address) m v no_device small)
    ]
  ]
]
