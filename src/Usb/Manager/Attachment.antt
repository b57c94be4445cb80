-- ===== src/Usb/Manager/Attachment.antt =====
-- Attaching and detaching keep the manager coherent.
use rust_p2p_usb.Base.{
  ℕ, ◌+◌, ◌<◌, ◌^◌, ◌≡◌, refl, sym, ◌∙◌, String, Bool, true, false, ◌&&◌, inl, inr, Bool-cases,
  Option-cases, Option, none, some, arith, Map, lookup, insert, contains_key, insert-KeysOnce,
  lookup-insert, lookup_same_key, ◌==◌, if◌then◌else◌, as_u32, Result,
}
use rust_p2p_usb.Sharing
use rust_p2p_usb.Sharing.{DeviceSharingState, is_exclusive}
use rust_p2p_usb.Sharing.Invariant
use rust_p2p_usb.Sharing.Invariant.{IsValid, attach_client-IsValid, detach_client-IsValid}
use rust_p2p_usb.Sharing.Attached.{attached-attach_client}
use rust_p2p_usb.Sharing.Tracker.{DeviceAccessTracker}
use rust_p2p_usb.Sharing.Tracker
use rust_p2p_usb.Usb.Transfers.{RusbError}
use rust_p2p_usb.Usb.Manager.{
  DeviceManager, UsbDevice, find_device, get_device_by_id, with_state, set_opened, any_of,
  attach_opened, attach_at, attach_device, opening,
}
use rust_p2p_usb.Usb.Manager.Coherent.{Coherent, opened_of, insert-IsValid, lists-insert}

-- The manager after an attachment, where the device and its sharing state are there.
abbrev attached_to : ℕ → ℕ → UsbDevice → DeviceSharingState → String → DeviceManager → DeviceManager
attached_to id key d new client m = record m {
  devices = insert key (record d { opened = true }) m.devices;
  next_handle_id = as_u32 (m.next_handle_id + 1);
  access_tracker = insert id new m.access_tracker;
  attached = insert m.next_handle_id (id, client) m.attached;
}

-- A device that is written open closes none.
opened-insert :
    (place : Option ℕ) (key : ℕ) (new : UsbDevice) (devices : Map UsbDevice)
    → new.opened ≡ true
    → opened_of (find_device place devices) ≡ true
    → opened_of (find_device place (insert key new devices)) ≡ true
unfolding find_device
opened-insert none key new devices is_open before = before
opened-insert (some k) key new devices is_open before =
    rw (lookup-insert key k new devices) (ground arith)

attached_to-Coherent :
    (id key : ℕ) (d : UsbDevice) (s new : DeviceSharingState) (client : String) (m : DeviceManager)
    → Coherent m
    → lookup id m.device_ids ≡ some key
    → lookup key m.devices ≡ some d
    → lookup id m.access_tracker ≡ some s
    → IsValid new
    → ((h : ℕ)
        → Invariant.attached new h
          ≡ (if m.next_handle_id == h then true else Invariant.attached s h))
    → m.next_handle_id + 1 < 2 ^ 32
    → Coherent (attached_to id key d new client m)
unfolding find_device
attached_to-Coherent id key d s new client m v at_id at_key state new_valid now_there small =
    record {
      listed = λ h k is_held. ground (
        arith,
        lists-insert id k h new m.access_tracker,
        lookup-insert m.next_handle_id h (id, client) m.attached,
        v.listed h k,
        now_there h,
        lookup_same_key id k m.access_tracker,
      );
      owned = λ h k there. ground (
        arith,
        lists-insert id k h new m.access_tracker,
        lookup-insert m.next_handle_id h (id, client) m.attached,
        v.owned h k,
        v.owned h id,
        v.fresh h,
        now_there h,
        lookup_same_key id k m.access_tracker,
      );
      opened = λ h k is_held. elim (Bool-cases (m.next_handle_id == h)) [
        | inl same ↦
            let its_id : id ≡ k =
              ground (arith, lookup-insert m.next_handle_id h (id, client) m.attached) in
            let place : lookup k m.device_ids ≡ some key =
              lookup_same_key k id m.device_ids (sym its_id) ∙ at_id in
            rw (place, lookup-insert key key (record d { opened = true }) m.devices) (ground arith)
        | inr other ↦ opened-insert (lookup k m.device_ids) key _ m.devices refl (
            v.opened h k (ground (arith, lookup-insert m.next_handle_id h (id, client) m.attached)))
      ];
      fresh = λ h there.
          ground (arith, lookup-insert m.next_handle_id h (id, client) m.attached, v.fresh h);
      named = λ k place there. ground (
        arith,
        lookup-insert key place (record d { opened = true }) m.devices,
        v.named k place there,
        lookup_same_key key place m.devices,
      );
      registered =
          λ k there. ground (arith, lookup-insert id k new m.access_tracker, v.registered k there);
      numbered = λ k there. ground (
        arith,
        lookup-insert id k new m.access_tracker,
        v.numbered k,
        lookup_same_key id k m.access_tracker,
      );
      valid = insert-IsValid id new m.access_tracker new_valid v.valid;
      once = insert-KeysOnce m.next_handle_id (id, client) m.attached v.once;
      in_u32 = v.in_u32;
    }

-- A device that is found has a key.
pub place_of :
    (place : Option ℕ) (devices : Map UsbDevice) (d : UsbDevice)
    → find_device place devices ≡ some d
    → (key : ℕ) × ((place ≡ some key) × (lookup key devices ≡ some d))
unfolding find_device
place_of none devices d found = cc
place_of (some key) devices d found = (key, (refl, found))

pub set_opened_found :
    (flag : Bool) (key : ℕ) (d : UsbDevice) (devices : Map UsbDevice)
    → lookup key devices ≡ some d
    → set_opened flag (some key) devices ≡ insert key (record d { opened = flag }) devices
set_opened_found flag key d devices found = rw (found, set_opened) refl

pub with_state_found :
    (id : ℕ) (change : DeviceSharingState → DeviceSharingState) (s : DeviceSharingState)
    (tracker : DeviceAccessTracker)
    → lookup id tracker ≡ some s
    → with_state id change tracker ≡ insert id (change s) tracker
unfolding with_state
with_state_found id change s tracker found = rw (found, with_state) refl

attach_opened-Coherent :
    (now locked_at id : ℕ) (client : String) (d : UsbDevice) (s : DeviceSharingState)
    (m : DeviceManager)
    → Coherent m
    → get_device_by_id id m ≡ some d
    → lookup id m.access_tracker ≡ some s
    → Sharing.can_attach s ≡ true
    → m.next_handle_id + 1 < 2 ^ 32
    → Coherent (attach_opened now locked_at id client m)
unfolding attach_opened with_state get_device_by_id
attach_opened-Coherent now locked_at id client d s m v found state free small =
    let (key, (at_id, at_key)) = place_of (lookup id m.device_ids) m.devices d found in
    let h = m.next_handle_id in
    let unused : Invariant.attached s h ≡ false = ground (arith, v.owned h id, v.fresh h) in
    rw
      (
        at_id,
        set_opened_found true key d m.devices at_key,
        with_state_found id (Sharing.attach_client now locked_at client h) s m.access_tracker state,
      )
      (attached_to-Coherent id key d s (Sharing.attach_client now locked_at client h s) client m v
        at_id at_key state
        (attach_client-IsValid now locked_at client h s (v.valid id s state) free unused)
        (λ k. attached-attach_client now locked_at client h k s) small)

can_attach_found :
    (id : ℕ) (s : DeviceSharingState) (tracker : DeviceAccessTracker)
    → lookup id tracker ≡ some s
    → Tracker.can_attach id tracker ≡ true
    → Sharing.can_attach s ≡ true
unfolding Tracker.can_attach
can_attach_found id s tracker found free =
    let same : Tracker.can_attach id tracker ≡ Sharing.can_attach s =
      rw (found, Tracker.can_attach) refl in
    sym same ∙ free

attach_at-Coherent :
    (to_string : RusbError → String) (answer : Result (Unit {0}) RusbError) (now locked_at id : ℕ)
    (client : String) (o : Option UsbDevice) (m : DeviceManager)
    → Coherent m
    → get_device_by_id id m ≡ o
    → contains_key id m.device_ids ≡ true
    → Tracker.can_attach id m.access_tracker ≡ true
    → m.next_handle_id + 1 < 2 ^ 32
    → Coherent (attach_at to_string answer now locked_at id client o m).1
attach_at-Coherent to_string answer now locked_at id client none m v found known free small = v
attach_at-Coherent to_string answer now locked_at id client (some d) m v found known free small =
    elim (Option-cases (opening to_string answer d)) [
      | inr (e, refused) ↦ rw (refused, attach_at) v
      | inl is_open ↦
          rw (is_open, attach_at)
            (elim (Option-cases (lookup id m.access_tracker)) [
              | inl missing ↦ absurd (ground (arith, v.registered id known))
              | inr (s, state) ↦
                  attach_opened-Coherent now locked_at id client d s m v found state
                    (can_attach_found id s m.access_tracker state free) small
            ])
    ]

pub attach_device-Coherent :
    (to_string : RusbError → String) (answer : Result (Unit {0}) RusbError) (now locked_at id : ℕ)
    (client : String) (m : DeviceManager)
    → Coherent m
    → m.next_handle_id + 1 < 2 ^ 32
    → Coherent (attach_device to_string answer now locked_at id client m).1
unfolding attach_device
attach_device-Coherent to_string answer now locked_at id client m v small =
    elim (Bool-cases (contains_key id m.device_ids)) [
      | inr unknown ↦ rw unknown v
      | inl known ↦ elim (Bool-cases (Tracker.can_attach id m.access_tracker)) [
        | inr denied ↦ rw (known, denied) v
        | inl free ↦
            elim (Bool-cases (is_exclusive m.sharing_config.default_mode && any_of id m.attached)) [
              | inl taken ↦ rw (known, free, taken) v
              | inr unused ↦
                  rw (known, free, unused)
                    (attach_at-Coherent to_string answer now locked_at id client
                      (get_device_by_id id m) m v refl known free small)
            ]
      ]
    ]
