-- ===== src/Sharing/Sweep.antt =====
-- The periodic sweep over the devices: what it reports, and that it keeps every device valid.

use rust_p2p_usb.Protocol.Types.{SharingMode, exclusive, shared, read_only}
use rust_p2p_usb.Base.{
  as_u32, true, ℕ, suc, ◌≡◌, refl, ap, sym, subst, ◌∙◌, ◌≢◌, true, if◌then◌else◌, inl, inr, Option,
  none, some, List, [], ◌∷◌, arith, All, lookup, Option-cases, ◌+◌, ◌<◌, ltb, ◌-◌,
}
use rust_p2p_usb.Sharing.{AttachedClient, QueueEntry, DeviceSharingState}
use rust_p2p_usb.Sharing.Grants.{
  process_queue, check_lock_timeout, held_too_long, get_all_queue_positions, numbered,
}
use rust_p2p_usb.Sharing.Invariant.{IsValid, attached}
use rust_p2p_usb.Sharing.Locks.{release_lock-IsValid, process_queue-IsValid}
use rust_p2p_usb.Sharing.Fifo
use rust_p2p_usb.Sharing.Fifo.{Lock}
use rust_p2p_usb.Sharing.Refine.{
  view, handles, seen, expired_count, release_lock_refines, process_queue_refines,
}
use rust_p2p_usb.Sharing.Tracker.{
  SharingEvent, lock_expired, access_granted, queue_position_changed, DeviceAccessTracker, Instants,
  changes, expire_lock, granted_events, serve_queue, process_device, process_all,
}

expire_lock-IsValid :
    (now id : ℕ) (s : DeviceSharingState) → IsValid s → IsValid (expire_lock now id s).1
unfolding expire_lock
expire_lock-IsValid now id s v = elim (Option-cases (check_lock_timeout now s)) [
  | inl fine ↦ rw (fine, expire_lock) v
  | inr (h, late) ↦ rw (late, expire_lock) (release_lock-IsValid h s v)
]

granted_events-state : (id : ℕ) (r : Option ℕ × DeviceSharingState) → (granted_events id r).1 ≡ r.1
unfolding granted_events
granted_events-state id (none, s) = refl
granted_events-state id (some h, s) = refl

pub serve_queue-IsValid :
    (now granted_at id : ℕ) (s : DeviceSharingState)
    → IsValid s
    → IsValid (serve_queue now granted_at id s).1
unfolding serve_queue
serve_queue-IsValid now granted_at id s v =
    subst IsValid (sym (granted_events-state id (process_queue now granted_at s)))
      (process_queue-IsValid now granted_at s v)

pub process_device-IsValid :
    (at : Instants) (id : ℕ) (s : DeviceSharingState)
    → IsValid s
    → IsValid (process_device at id s).1
unfolding process_device
process_device-IsValid at id s v =
    serve_queue-IsValid at.processed at.granted id _ (expire_lock-IsValid at.checked id s v)

abbrev pub AllValid : DeviceAccessTracker → Type 0
AllValid devices = All (λ d. IsValid d.1) devices

-- The sweep keeps every device valid.
pub process_all-IsValid :
    (at : ℕ → Instants) (devices : DeviceAccessTracker)
    → AllValid devices
    → AllValid (process_all at devices).1
unfolding process_all
process_all-IsValid at [] v = tt
process_all-IsValid at ((id, s) ∷ devices) v =
    (process_device-IsValid (at id) id s v.0, process_all-IsValid at devices v.1)

-- Places from `i` on, as `u32`.
abbrev pub places : ℕ → ℕ → List ℕ → List SharingEvent
places id i [] = []
places id i (h ∷ hs) = queue_position_changed id h (as_u32 (i + 1)) ∷ places id (suc i) hs

-- What a grant reports: who has the lock now, and the new place of everyone who still waits.
abbrev pub report : ℕ → Option ℕ × Lock → List SharingEvent
report id (none, l) = []
report id (some h, l) = access_granted id h ∷ places id 0 l.waiters

changes-numbered :
    (id i : ℕ) (q : List QueueEntry) → changes id (numbered i q) ≡ places id i (handles q)
unfolding numbered
changes-numbered id i [] = refl
changes-numbered id i (e ∷ q) =
    ap (◌∷◌ (queue_position_changed id e.handle (as_u32 (i + 1)))) (changes-numbered id (suc i) q)

granted_events-report :
    (id : ℕ) (r : Option ℕ × DeviceSharingState) → (granted_events id r).0 ≡ report id (seen r)
unfolding granted_events get_all_queue_positions
granted_events-report id (none, s) = refl
granted_events-report id (some h, s) =
    ap (◌∷◌ (access_granted id h)) (changes-numbered id 0 s.access_queue)

-- Of a valid device that is not in exclusive mode, serving the queue does to the lock what its
-- specification does, and reports who got the lock and the places of all who still wait, and
-- nothing without a grant.
pub serve_queue_refines :
    (now granted_at id : ℕ) (s : DeviceSharingState)
    → s.mode ≢ exclusive
    → IsValid s
    → let outcome = Fifo.grant (expired_count now s.access_queue) (view s) in
      let (events, s') = serve_queue now granted_at id s in
      (events ≡ report id outcome) × (view s' ≡ outcome.1)
unfolding serve_queue
serve_queue_refines now granted_at id s m v = (
  granted_events-report id r ∙ ap (report id) (process_queue_refines now granted_at s m v),
  ap view (granted_events-state id r)
      ∙ ap (λ (o : Option ℕ × Lock). o.1) (process_queue_refines now granted_at s m v),
)
  where
    r : Option ℕ × DeviceSharingState
    r = process_queue now granted_at s

-- The client with a handle, and since when it has had a lock.
abbrev pub OverdueSince : ℕ → ℕ → DeviceSharingState → Type 0
OverdueSince now h s =
    (c : AttachedClient) × (t : ℕ) × (lookup h s.attached_clients ≡ some c)
    × (c.lock_acquired_at ≡ some t)
    × (s.lock_timeout < now - t)

overdue_of_time :
    (now h k : ℕ) (s : DeviceSharingState) (c : AttachedClient) (since : Option ℕ)
    → lookup h s.attached_clients ≡ some c
    → c.lock_acquired_at ≡ since
    → elim since [ none ↦ none | some t ↦ if ltb s.lock_timeout (now - t) then some h else none ]
      ≡ some k
    → ◌≡◌ {A = Option ℕ} (some h) (some k) × OverdueSince now k s
overdue_of_time now h k s c none found e late = cc
overdue_of_time now h k s c (some t) found e late =
    (ground arith, (c, t, ground arith, e, ground arith))

held_too_long_holder :
    (now k : ℕ) (o : Option ℕ) (s : DeviceSharingState)
    → held_too_long now o s ≡ some k
    → (o ≡ some k) × OverdueSince now k s
unfolding held_too_long
held_too_long_holder now k none s late = cc
held_too_long_holder now k (some h) s late = elim (Option-cases (lookup h s.attached_clients)) [
  | inl missing ↦ cc (rw (missing, held_too_long) at late)
  | inr (c, found) ↦
      overdue_of_time now h k s c c.lock_acquired_at found refl (rw (found, held_too_long) at late)
]

exclusive-view :
    (mode : SharingMode) (h : ℕ) (s : DeviceSharingState)
    → IsValid s
    → s.mode ≡ mode
    → s.exclusive_lock_holder ≡ some h
    → (view s).holder ≡ some h
exclusive-view exclusive h s v m e = cc (v.no_exclusive (λ r. cc))
exclusive-view shared h s v m e = ground arith
exclusive-view read_only h s v m e = cc (v.no_exclusive (λ r. cc))

write-view :
    (mode : SharingMode) (h : ℕ) (s : DeviceSharingState)
    → IsValid s
    → s.mode ≡ mode
    → s.write_lock_holder ≡ some h
    → (view s).holder ≡ some h
write-view exclusive h s v m e = cc (v.no_write (λ r. cc))
write-view shared h s v m e = cc (v.no_write (λ r. cc))
write-view read_only h s v m e = ground arith

-- A lock that is reported as held too long is the lock of the device's mode, its holder is
-- attached, and had it for longer than the timeout.
pub check_lock_timeout_holder :
    (now h : ℕ) (s : DeviceSharingState)
    → IsValid s
    → check_lock_timeout now s ≡ some h
    → ((view s).holder ≡ some h) × OverdueSince now h s
unfolding check_lock_timeout
check_lock_timeout_holder now h s v e =
    elim (Option-cases (held_too_long now s.exclusive_lock_holder s)) [
      | inl fine ↦
          of_write
            (held_too_long_holder now h s.write_lock_holder s (rw (fine, check_lock_timeout) at e))
      | inr (k, late) ↦
          of_exclusive k (held_too_long_holder now k s.exclusive_lock_holder s late)
            (rw (late, check_lock_timeout) at e)
    ]
  where
    of_write :
        (s.write_lock_holder ≡ some h) × OverdueSince now h s
        → ((view s).holder ≡ some h) × OverdueSince now h s
    of_write p = (write-view s.mode h s v refl p.0, p.1)

    of_exclusive :
        (k : ℕ)
        → (s.exclusive_lock_holder ≡ some k) × OverdueSince now k s
        → ◌≡◌ {A = Option ℕ} (some k) (some h)
        → ((view s).holder ≡ some h) × OverdueSince now h s
    of_exclusive k p q =
        subst (λ (j : ℕ). ((view s).holder ≡ some j) × OverdueSince now j s) (cc)
          (exclusive-view s.mode k s v refl p.0, p.1)

overdue-attached : (now h : ℕ) (s : DeviceSharingState) → OverdueSince now h s → attached s h ≡ true
overdue-attached now h s o = ground (arith, o.2)

-- An expired lock of a valid device is reported once, with its holder, and is free afterwards; the
-- queue stays as it was.
pub expire_lock_frees :
    (now id h : ℕ) (s : DeviceSharingState)
    → IsValid s
    → check_lock_timeout now s ≡ some h
    → let (events, s') = expire_lock now id s in
      (events ≡ lock_expired id h ∷ []) × (view s' ≡ record (view s) { holder = none })
unfolding expire_lock Fifo.release
expire_lock_frees now id h s v e = ground (
  arith,
  check_lock_timeout_holder now h s v e,
  overdue-attached now h s (check_lock_timeout_holder now h s v e).1,
  release_lock_refines h s,
)
