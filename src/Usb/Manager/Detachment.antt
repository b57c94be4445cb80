-- ===== src/Usb/Manager/Detachment.antt =====
-- Detaching keeps the manager coherent: the device is closed with its last handle.
use rust_p2p_usb.Base.{
  subst, ℕ, ◌≡◌, refl, String, true, false, inl, inr, Bool-cases, Option-cases, Option, none, some,
  [], ◌∷◌, arith, Map, lookup, insert, remove, remove-KeysOnce, lookup-insert, lookup-remove,
  lookup_same_key, ◌==◌, ==_iff, if◌then◌else◌, is_some_of,
}
use rust_p2p_usb.Sharing
use rust_p2p_usb.Sharing.{DeviceSharingState}
use rust_p2p_usb.Sharing.Invariant
use rust_p2p_usb.Sharing.Invariant.{IsValid, detach_client-IsValid}
use rust_p2p_usb.Sharing.Attached.{attached-detach_client}
use rust_p2p_usb.Usb.Manager.{
  DeviceManager, UsbDevice, find_device, get_device_id_for_handle, id_of, with_state, any_of,
  detach_from, detach_device,
}
use rust_p2p_usb.Usb.Manager.Coherent.{
  Coherent, opened_of, names_id, held, insert-IsValid, lists-insert,
}
use rust_p2p_usb.Usb.Manager.Attachment.{set_opened_found, with_state_found}

any_of-lookup :
    (h id : ℕ) (attached : Map (ℕ × String))
    → is_some_of (id_of (lookup h attached)) id ≡ true
    → any_of id attached ≡ true
unfolding any_of lookup
any_of-lookup h id [] is_held = cc
any_of-lookup h id ((k, (i, c)) ∷ rest) is_held = ground (arith, any_of-lookup h id rest)

-- The manager without the handle, with the devices that are left as they are or closed.
abbrev without : ℕ → ℕ → DeviceSharingState → Map UsbDevice → DeviceManager → DeviceManager
without h id new devices m = record m {
  attached = remove h m.attached;
  access_tracker = insert id new m.access_tracker;
  devices = devices;
}

-- What the devices must still say after it.
record Kept (h id : ℕ) (devices : Map UsbDevice) (m : DeviceManager) : Type 0 where
  names :
      (k key : ℕ)
      → names_id k (lookup key m.devices) ≡ true
      → names_id k (lookup key devices) ≡ true
  opens :
      (k i : ℕ)
      → held k i m ≡ true
      → (h == k) ≡ false
      → opened_of (find_device (lookup i m.device_ids) devices) ≡ true

without-Coherent :
    (h id : ℕ) (s new : DeviceSharingState) (devices : Map UsbDevice) (m : DeviceManager)
    → Coherent m
    → held h id m ≡ true
    → lookup id m.access_tracker ≡ some s
    → IsValid new
    → ((k : ℕ) → Invariant.attached new k ≡ (if h == k then false else Invariant.attached s k))
    → Kept h id devices m
    → Coherent (without h id new devices m)
unfolding find_device
without-Coherent h id s new devices m v is_held state new_valid now_there kept = record {
  listed = λ k i there. ground (
    arith,
    lists-insert id i k new m.access_tracker,
    lookup-remove h k m.attached,
    v.listed k i,
    now_there k,
    lookup_same_key id i m.access_tracker,
  );
  owned = λ k i there. ground (
    arith,
    lists-insert id i k new m.access_tracker,
    lookup-remove h k m.attached,
    v.owned k i,
    v.owned k id,
    now_there k,
    lookup_same_key id i m.access_tracker,
    lookup_same_key h k m.attached,
  );
  opened = λ k i there. ground (arith, lookup-remove h k m.attached, kept.opens k i);
  fresh = λ k there. ground (arith, lookup-remove h k m.attached, v.fresh k);
  named = λ k place there. kept.names k place (v.named k place there);
  registered =
      λ k there. ground (arith, lookup-insert id k new m.access_tracker, v.registered k there);
  numbered = λ k there. ground (
    arith,
    lookup-insert id k new m.access_tracker,
    v.numbered k,
    lookup_same_key id k m.access_tracker,
  );
  valid = insert-IsValid id new m.access_tracker new_valid v.valid;
  once = remove-KeysOnce h m.attached v.once;
  in_u32 = v.in_u32;
}

same-Kept : (h id : ℕ) (m : DeviceManager) → Coherent m → Kept h id m.devices m
unfolding find_device
same-Kept h id m v = record {
  names = λ k key there. there;
  opens = λ k i there other. v.opened k i there;
}

-- A place that is open has a key, and an open device at it.
pub open_place :
    (o : Option ℕ) (devices : Map UsbDevice)
    → opened_of (find_device o devices) ≡ true
    → (key : ℕ) × ((o ≡ some key) × (opened_of (lookup key devices) ≡ true))
unfolding find_device
open_place none devices is_open = cc
open_place (some key) devices is_open = (key, (refl, is_open))

-- Two ids that name one device are the same.
pub one_id : (o : Option UsbDevice) (i j : ℕ) → names_id i o ≡ true → names_id j o ≡ true → i ≡ j
one_id none i j at_i at_j = cc
one_id (some d) i j at_i at_j = ground arith

-- The device of the handle is closed, where no other handle is attached to it.
closed-Kept :
    (h id key : ℕ) (d : UsbDevice) (m : DeviceManager)
    → Coherent m
    → lookup id m.device_ids ≡ some key
    → lookup key m.devices ≡ some d
    → any_of id (remove h m.attached) ≡ false
    → Kept h id (insert key (record d { opened = false }) m.devices) m
unfolding find_device
closed-Kept h id key d m v at_id at_key last = record {
  names = λ k place there. ground (
    arith,
    lookup-insert key place (record d { opened = false }) m.devices,
    lookup_same_key key place m.devices,
  );
  opens = λ k i there other.
      let remains : is_some_of (id_of (lookup k (remove h m.attached))) i ≡ true =
        ground (arith, lookup-remove h k m.attached) in
      let also = any_of-lookup k i (remove h m.attached) remains in
      let (place, (at_i, is_open)) =
        open_place (lookup i m.device_ids) m.devices (v.opened k i there) in
      let named_i : names_id i (lookup place m.devices) ≡ true =
        v.named i place (ground (arith, at_i)) in
      let named_id : names_id id (lookup key m.devices) ≡ true =
        v.named id key (ground (arith, at_id)) in
      rw (at_i, lookup-insert key place (record d { opened = false }) m.devices)
        (elim (Bool-cases (key == place)) [
          | inr elsewhere ↦ rw elsewhere is_open
          | inl same ↦
              let one : key ≡ place = (==_iff key place).0 same in
              let named_here : names_id id (lookup place m.devices) ≡ true =
                subst (λ n. names_id id (lookup n m.devices) ≡ true) one named_id in
              let same_id : i ≡ id = one_id (lookup place m.devices) i id named_i named_here in
              let still : any_of id (remove h m.attached) ≡ true =
                subst (λ n. any_of n (remove h m.attached) ≡ true) same_id also in
              absurd (ground (arith, still, last))
        ]);
}

detach_from-Coherent :
    (h id : ℕ) (m : DeviceManager) → Coherent m → held h id m ≡ true → Coherent (detach_from h id m)
unfolding detach_from with_state find_device
detach_from-Coherent h id m v is_held =
    let (key, (at_id, is_open)) =
      open_place (lookup id m.device_ids) m.devices (v.opened h id is_held) in
    elim (Option-cases (lookup id m.access_tracker)) [
      | inl missing ↦ absurd (ground (arith, v.listed h id is_held, missing))
      | inr (s, state) ↦
          let new = (Sharing.detach_client h s).1 in
          let done = λ (devices : Map UsbDevice) (kept : Kept h id devices m).
            without-Coherent h id s new devices m v is_held state
              (detach_client-IsValid h s (v.valid id s state)) (λ k. attached-detach_client h k s)
              kept in
          elim (Bool-cases (any_of id (remove h m.attached))) [
            | inl others ↦
                rw
                  (
                    others,
                    with_state_found id (λ t. (Sharing.detach_client h t).1) s m.access_tracker
                        state,
                  )
                  (done m.devices (same-Kept h id m v))
            | inr last ↦ elim (Option-cases (lookup key m.devices)) [
              | inl no_device ↦ absurd (ground (arith, is_open, no_device))
              | inr (d, at_key) ↦
                  rw
                    (
                      last,
                      at_id,
                      with_state_found id (λ t. (Sharing.detach_client h t).1) s m.access_tracker
                          state,
                      set_opened_found false key d m.devices at_key,
                    )
                    (done (insert key (record d { opened = false }) m.devices)
                      (closed-Kept h id key d m v at_id at_key last))
            ]
          ]
    ]

pub detach_device-Coherent :
    (h : ℕ) (m : DeviceManager) → Coherent m → Coherent (detach_device h m).1
unfolding detach_device get_device_id_for_handle
detach_device-Coherent h m v = elim (Option-cases (id_of (lookup h m.attached))) [
  | inl unknown ↦ rw (unknown, detach_device) v
  | inr (id, there) ↦
      rw (there, detach_device) (detach_from-Coherent h id m v (ground (arith, there)))
]
