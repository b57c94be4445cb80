-- ===== src/Usb/Manager/Reach.antt =====
-- The managers that calls in any order lead to.
use rust_p2p_usb.Base.{
  ==_iff, ℕ, ◌+◌, ◌<◌, ◌^◌, ◌≡◌, refl, sym, ap, ◌∙◌, subst, String, Bool, inl, inr, Bool-cases,
  Option-cases, Option, none, some, List, [], ◌∷◌, arith, lookup, contains_key, ◌==◌, Result,
}
use rust_p2p_usb.Sharing
use rust_p2p_usb.Sharing.{DeviceSharingState}
use rust_p2p_usb.Sharing.Invariant
use rust_p2p_usb.Sharing.Invariant.{IsValid}
use rust_p2p_usb.Sharing.Locks.{acquire_lock-IsValid, release_lock-IsValid}
use rust_p2p_usb.Sharing.Sweep.{serve_queue-IsValid, process_device-IsValid}
use rust_p2p_usb.Sharing.Attached.{
  attached-acquire_lock, attached-release_lock, attached-serve_queue, attached-process_device,
}
use rust_p2p_usb.Sharing.Tracker.{
  DeviceAccessTracker, Instants, process_all, process_device, serve_queue,
}
use rust_p2p_usb.Usb.Transfers.{RusbError}
use rust_p2p_usb.Usb.Manager.{
  DeviceManager, SharingConfig, Plugged, with_sharing_config, attach_device, detach_device,
}
use rust_p2p_usb.Usb.Manager.Registry.{add_device, remove_device}
use rust_p2p_usb.Usb.Manager.Calls.{
  device_for_handle, on_state, acquire_lock, release_lock, process_device_queue, process_all_queues,
}
use rust_p2p_usb.Usb.Manager.Coherent.{Coherent, lists, insert-Coherent}
use rust_p2p_usb.Usb.Manager.Attachment.{attach_device-Coherent}
use rust_p2p_usb.Usb.Manager.Detachment.{detach_device-Coherent}
use rust_p2p_usb.Usb.Manager.Hotplug.{add_device-Coherent, remove_device-Coherent}

-- A call that keeps the state valid and the same handles attached.
on_state-Coherent :
    {A : Type 0}
    → (id : ℕ) (call : DeviceSharingState → A × DeviceSharingState) (otherwise : A)
      (m : DeviceManager)
    → Coherent m
    → ((s : DeviceSharingState) → IsValid s → IsValid (call s).1)
    → ((s : DeviceSharingState) (h : ℕ) → Invariant.attached (call s).1 h ≡ Invariant.attached s h)
    → Coherent (on_state id call otherwise m).1
unfolding on_state
on_state-Coherent id call otherwise m v keeps same =
    elim (Option-cases (lookup id m.access_tracker)) [
      | inl missing ↦ rw (missing, on_state) v
      | inr (s, state) ↦
          rw (state, on_state)
            (insert-Coherent m id s (call s).1 v state (keeps s (v.valid id s state)) (same s))
    ]

acquire_lock-Coherent :
    (now h : ℕ) (w : Bool) (m : DeviceManager) → Coherent m → Coherent (acquire_lock now h w m).1
unfolding acquire_lock
acquire_lock-Coherent now h w m v = elim (Option-cases (device_for_handle h m)) [
  | inl unknown ↦ rw (unknown, acquire_lock) v
  | inr (id, there) ↦
      rw (there, acquire_lock)
        (on_state-Coherent id (Sharing.acquire_lock now h w) _ m v
          (λ s ok. acquire_lock-IsValid now h w s ok) (λ s k. attached-acquire_lock now h k w s))
]

release_lock-Coherent : (h : ℕ) (m : DeviceManager) → Coherent m → Coherent (release_lock h m).1
unfolding release_lock
release_lock-Coherent h m v = elim (Option-cases (device_for_handle h m)) [
  | inl unknown ↦ rw (unknown, release_lock) v
  | inr (id, there) ↦
      rw (there, release_lock)
        (on_state-Coherent id (Sharing.release_lock h) _ m v (λ s ok. release_lock-IsValid h s ok)
          (λ s k. attached-release_lock h k s))
]

process_device_queue-Coherent :
    (now granted_at id : ℕ) (m : DeviceManager)
    → Coherent m
    → Coherent (process_device_queue now granted_at id m).1
unfolding process_device_queue
process_device_queue-Coherent now granted_at id m v =
    on_state-Coherent id (serve_queue now granted_at id) [] m v
      (λ s ok. serve_queue-IsValid now granted_at id s ok)
      (λ s k. attached-serve_queue now granted_at id k s)

lists-process_all :
    (at : ℕ → Instants) (k h : ℕ) (tracker : DeviceAccessTracker)
    → lists (lookup k (process_all at tracker).1) h ≡ lists (lookup k tracker) h
unfolding process_all lookup
lists-process_all at k h [] = refl
lists-process_all at k h ((id, s) ∷ rest) =
    ground (arith, lists-process_all at k h rest, attached-process_device (at id) id h s)

contains_key-process_all :
    (at : ℕ → Instants) (k : ℕ) (tracker : DeviceAccessTracker)
    → contains_key k (process_all at tracker).1 ≡ contains_key k tracker
unfolding process_all lookup
contains_key-process_all at k [] = refl
contains_key-process_all at k ((id, s) ∷ rest) = ground (arith, contains_key-process_all at k rest)

abbrev served : (ℕ → Instants) → ℕ → Option DeviceSharingState → Option DeviceSharingState
served at k none = none
served at k (some s) = some (process_device (at k) k s).1

lookup-process_all :
    (at : ℕ → Instants) (k : ℕ) (tracker : DeviceAccessTracker)
    → lookup k (process_all at tracker).1 ≡ served at k (lookup k tracker)
unfolding process_all lookup
lookup-process_all at k [] = refl
lookup-process_all at k ((id, s) ∷ rest) = elim (Bool-cases (id == k)) [
  | inl same ↦ rw same (ap (λ n. some (process_device (at n) n s).1) ((==_iff id k).0 same))
  | inr other ↦ rw other (lookup-process_all at k rest)
]

process_all-IsValid :
    (at : ℕ → Instants) (tracker : DeviceAccessTracker)
    → ((k : ℕ) (s : DeviceSharingState) → lookup k tracker ≡ some s → IsValid s)
    → (k : ℕ) (s : DeviceSharingState) → lookup k (process_all at tracker).1 ≡ some s
    → IsValid s
process_all-IsValid at tracker vs k s found =
    let at_k = sym (lookup-process_all at k tracker) ∙ found in
    elim (Option-cases (lookup k tracker)) [
      | inl missing ↦ let none_there : none ≡ some s = ap (served at k) (sym missing) ∙ at_k in cc
      | inr (t, there) ↦
          let now : some (process_device (at k) k t).1 ≡ some s =
            ap (served at k) (sym there) ∙ at_k in
          let same : (process_device (at k) k t).1 ≡ s = cc in
          subst IsValid same (process_device-IsValid (at k) k t (vs k t there))
    ]

process_all_queues-Coherent :
    (at : ℕ → Instants) (m : DeviceManager) → Coherent m → Coherent (process_all_queues at m).1
unfolding process_all_queues
process_all_queues-Coherent at m v = record {
  listed = λ h id there. lists-process_all at id h m.access_tracker ∙ v.listed h id there;
  owned = λ h id there. v.owned h id (sym (lists-process_all at id h m.access_tracker) ∙ there);
  opened = v.opened;
  fresh = v.fresh;
  named = v.named;
  registered = λ id there. contains_key-process_all at id m.access_tracker ∙ v.registered id there;
  numbered =
      λ id there. v.numbered id (sym (contains_key-process_all at id m.access_tracker) ∙ there);
  valid = process_all-IsValid at m.access_tracker v.valid;
  once = v.once;
  in_u32 = v.in_u32;
}

-- One call. A device is attached, or numbered, only as long as its counter has not come to its end.
pub data Step : DeviceManager → DeviceManager → Type 0 where
  attach :
      (m : DeviceManager) (to_string : RusbError → String) (answer : Result (Unit {0}) RusbError)
      (now locked_at id : ℕ) (client : String)
      → m.next_handle_id + 1 < 2 ^ 32
      → Step m (attach_device to_string answer now locked_at id client m).1
  detach : (m : DeviceManager) (handle : ℕ) → Step m (detach_device handle m).1
  arrive :
      (m : DeviceManager) (not_supported : RusbError) (device : Plugged)
      → m.next_device_id + 1 < 2 ^ 32
      → Step m (add_device not_supported device m).1
  leave : (m : DeviceManager) (bus address : ℕ) → Step m (remove_device bus address m).1
  lock :
      (m : DeviceManager) (now handle : ℕ) (write_access : Bool)
      → Step m (acquire_lock now handle write_access m).1
  unlock : (m : DeviceManager) (handle : ℕ) → Step m (release_lock handle m).1
  serve :
      (m : DeviceManager) (now granted_at id : ℕ)
      → Step m (process_device_queue now granted_at id m).1
  sweep : (m : DeviceManager) (at : ℕ → Instants) → Step m (process_all_queues at m).1

pub data Reach (m : DeviceManager) : DeviceManager → Type 0 where
  here : Reach m m
  next : {t u : DeviceManager} → Reach m t → Step t u → Reach m u

Step-Coherent : {m n : DeviceManager} → Step m n → Coherent m → Coherent n
Step-Coherent (attach m to_string answer now locked_at id client small) v =
    attach_device-Coherent to_string answer now locked_at id client m v small
Step-Coherent (detach m handle) v = detach_device-Coherent handle m v
Step-Coherent (arrive m not_supported device small) v =
    add_device-Coherent not_supported device m v small
Step-Coherent (leave m bus address) v = remove_device-Coherent bus address m v
Step-Coherent (lock m now handle write_access) v = acquire_lock-Coherent now handle write_access m v
Step-Coherent (unlock m handle) v = release_lock-Coherent handle m v
Step-Coherent (serve m now granted_at id) v = process_device_queue-Coherent now granted_at id m v
Step-Coherent (sweep m at) v = process_all_queues-Coherent at m v

Reach-Coherent : {m n : DeviceManager} → Coherent m → Reach m n → Coherent n
Reach-Coherent v here = v
Reach-Coherent v (next r st) = Step-Coherent st (Reach-Coherent v r)

with_sharing_config-Coherent :
    (filters : List (List ℕ)) (config : SharingConfig)
    → config.default_max_clients < 2 ^ 32
    → Coherent (with_sharing_config filters config)
unfolding with_sharing_config lookup
with_sharing_config-Coherent filters config small = record {
  listed = λ h id there. cc;
  owned = λ h id there. cc;
  opened = λ h id there. cc;
  fresh = λ h there. cc;
  named = λ id key there. cc;
  registered = λ id there. cc;
  numbered = λ id there. cc;
  valid = λ id s there. cc;
  once = tt;
  in_u32 = small;
}

-- After any calls on a new manager whose limit of clients is a `u32`, none of which brings a
-- counter to its end: a handle is attached to a device exactly if the device's sharing state lists
-- it, an attached device is open, and every sharing state is valid.
pub new-Reach-Coherent :
    (filters : List (List ℕ)) (config : SharingConfig) {m : DeviceManager}
    → config.default_max_clients < 2 ^ 32
    → Reach (with_sharing_config filters config) m
    → Coherent m
new-Reach-Coherent filters config small r =
    Reach-Coherent (with_sharing_config-Coherent filters config small) r
