-- ===== src/Usb/Manager/Coherent.antt =====
-- What always holds between the registry, the attachments and the sharing states.
use rust_p2p_usb.Base.{
  lookup_same_key, subst, ℕ, ◌<◌, ◌^◌, ◌≡◌, refl, sym, ◌∙◌, Bool, true, false, inl, inr, Bool-cases,
  Option, none, some, arith, lookup, insert, contains_key, KeysOnce, lookup-insert, ◌==◌,
  if◌then◌else◌, is_some_of,
}
use rust_p2p_usb.Sharing.{DeviceSharingState}
use rust_p2p_usb.Sharing.Invariant.{IsValid, attach_client-IsValid, detach_client-IsValid}
use rust_p2p_usb.Sharing.Invariant
use rust_p2p_usb.Sharing.Tracker.{DeviceAccessTracker}
use rust_p2p_usb.Usb.Manager.{DeviceManager, UsbDevice, find_device, id_of}

-- The sharing state of the device lists the handle.
abbrev pub lists : Option DeviceSharingState → ℕ → Bool
lists none h = false
lists (some s) h = Invariant.attached s h

abbrev pub opened_of : Option UsbDevice → Bool
opened_of none = false
opened_of (some d) = d.opened

abbrev pub names_id : ℕ → Option UsbDevice → Bool
names_id id none = false
names_id id (some d) = d.id == id

-- The handle is attached to the device.
abbrev pub held : ℕ → ℕ → DeviceManager → Bool
held h id m = is_some_of (id_of (lookup h m.attached)) id

pub record Coherent (m : DeviceManager) : Type 0 where
  -- A handle is attached to a device exactly if the device's sharing state lists it.
  pub listed : (h id : ℕ) → held h id m ≡ true → lists (lookup id m.access_tracker) h ≡ true
  pub owned : (h id : ℕ) → lists (lookup id m.access_tracker) h ≡ true → held h id m ≡ true
  -- An attached device is open.
  pub opened :
      (h id : ℕ)
      → held h id m ≡ true
      → opened_of (find_device (lookup id m.device_ids) m.devices) ≡ true
  pub fresh : (h : ℕ) → contains_key h m.attached ≡ true → h < m.next_handle_id
  pub named :
      (id key : ℕ)
      → is_some_of (lookup id m.device_ids) key ≡ true
      → names_id id (lookup key m.devices) ≡ true
  pub registered :
      (id : ℕ) → contains_key id m.device_ids ≡ true → contains_key id m.access_tracker ≡ true
  pub numbered : (id : ℕ) → contains_key id m.access_tracker ≡ true → id < m.next_device_id
  -- Every sharing state is valid.
  pub valid : (id : ℕ) (s : DeviceSharingState) → lookup id m.access_tracker ≡ some s → IsValid s
  pub once : KeysOnce m.attached
  pub in_u32 : m.sharing_config.default_max_clients < 2 ^ 32

-- The states after one of them was written.
pub insert-IsValid :
    (id : ℕ) (new : DeviceSharingState) (tracker : DeviceAccessTracker)
    → IsValid new
    → ((k : ℕ) (s : DeviceSharingState) → lookup k tracker ≡ some s → IsValid s)
    → (k : ℕ) (s : DeviceSharingState) → lookup k (insert id new tracker) ≡ some s
    → IsValid s
insert-IsValid id new tracker v vs k s found = elim (Bool-cases (id == k)) [
  | inl same ↦
      let there : some new ≡ some s = sym (lookup-insert id k new tracker ∙ rw same refl) ∙ found in
      let is_new : new ≡ s = cc in subst IsValid is_new v
  | inr other ↦ vs k s (sym (lookup-insert id k new tracker ∙ rw other refl) ∙ found)
]

pub lists-insert :
    (id k h : ℕ) (new : DeviceSharingState) (tracker : DeviceAccessTracker)
    → lists (lookup k (insert id new tracker)) h
      ≡ (if id == k then Invariant.attached new h else lists (lookup k tracker) h)
lists-insert id k h new tracker = rw (lookup-insert id k new tracker) (ground arith)

-- A sharing state is written in which the same handles are attached.
pub insert-Coherent :
    (m : DeviceManager) (id : ℕ) (s new : DeviceSharingState)
    → Coherent m
    → lookup id m.access_tracker ≡ some s
    → IsValid new
    → ((h : ℕ) → Invariant.attached new h ≡ Invariant.attached s h)
    → Coherent (record m { access_tracker = insert id new m.access_tracker })
unfolding find_device
insert-Coherent m id s new v state ok same = record {
  listed = λ h k is_held. ground (
    arith,
    lists-insert id k h new m.access_tracker,
    v.listed h k is_held,
    same h,
    lookup_same_key id k m.access_tracker,
  );
  owned = λ h k there. ground (
    arith,
    lists-insert id k h new m.access_tracker,
    v.owned h k,
    same h,
    lookup_same_key id k m.access_tracker,
  );
  opened = v.opened;
  fresh = v.fresh;
  named = v.named;
  registered =
      λ k there. ground (arith, lookup-insert id k new m.access_tracker, v.registered k there);
  numbered = λ k there. ground (
    arith,
    lookup-insert id k new m.access_tracker,
    v.numbered k,
    lookup_same_key id k m.access_tracker,
  );
  valid = insert-IsValid id new m.access_tracker ok v.valid;
  once = v.once;
  in_u32 = v.in_u32;
}
