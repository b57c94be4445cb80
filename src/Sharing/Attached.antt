-- ===== src/Sharing/Attached.antt =====
-- Which handles an operation leaves attached.
use rust_p2p_usb.Base.{
  lookup_same_key, ==_iff, ℕ, ◌≡◌, refl, sym, ◌∙◌, String, Bool, true, false, not, ◌||◌, inl, inr,
  Bool-cases, Option-cases, Option, none, some, List, [], ◌∷◌, arith, lookup, insert, contains_key,
  lookup-insert, lookup-remove, ◌==◌, if◌then◌else◌,
}
use rust_p2p_usb.Protocol.Types.{SharingMode, exclusive, shared, read_only}
use rust_p2p_usb.Sharing.{
  new, request, acquire_in, release_in, AttachedClient, QueueEntry, DeviceSharingState,
  attach_client, detach_client, acquire_lock, release_lock, add_to_queue, take_exclusive,
  take_write, is_empty,
}
use rust_p2p_usb.Sharing.Invariant.{attached}
use rust_p2p_usb.Sharing.Grants.{
  process_queue, lock_available, check_lock_timeout, drop_expired, grant_first, grant_in,
}
use rust_p2p_usb.Sharing.Tracker.{
  Instants, expire_lock, serve_queue, granted_events, process_device,
}

pub attached-new :
    (id : ℕ) (mode : SharingMode) (max_clients lock_timeout k : ℕ)
    → attached (new id mode max_clients lock_timeout) k ≡ false
unfolding new lookup
attached-new id mode max_clients lock_timeout k = refl

pub attached-attach_client :
    (now locked_at : ℕ) (id : String) (h k : ℕ) (s : DeviceSharingState)
    → attached (attach_client now locked_at id h s) k ≡ (if h == k then true else attached s k)
unfolding attach_client
attached-attach_client now locked_at id h k s =
    rw (lookup-insert h k _ s.attached_clients) (ground arith)

pub attached-detach_client :
    (h k : ℕ) (s : DeviceSharingState)
    → attached (detach_client h s).1 k ≡ (if h == k then false else attached s k)
unfolding detach_client
attached-detach_client h k s = elim (Option-cases (lookup h s.attached_clients)) [
  | inl missing ↦
      rw (missing, detach_client)
        (elim (Bool-cases (h == k)) [
          | inl same ↦ rw same (
              rw (lookup_same_key k h s.attached_clients (sym ((==_iff h k).0 same)), missing) refl)
          | inr other ↦ rw other refl
        ])
  | inr (c, found) ↦
      rw (found, detach_client) (ground (arith, lookup-remove h k s.attached_clients))
]

-- A client that is there is written again.
attached-insert :
    (h k : ℕ) (c new : AttachedClient) (s : DeviceSharingState)
    → lookup h s.attached_clients ≡ some c
    → contains_key k (insert h new s.attached_clients) ≡ attached s k
attached-insert h k c new s found = ground (arith, lookup-insert h k new s.attached_clients)

attached-add_to_queue :
    (now h k : ℕ) (w : Bool) (s : DeviceSharingState)
    → attached (add_to_queue now h w s).1 k ≡ attached s k
unfolding add_to_queue
attached-add_to_queue now h k w s = ground arith

attached-request :
    (now h k : ℕ) (w : Bool) (holder : Option ℕ) (granted s : DeviceSharingState)
    → attached granted k ≡ attached s k
    → attached (request now h w holder granted s).1 k ≡ attached s k
unfolding request
attached-request now h k w holder granted s same = ground (arith, attached-add_to_queue now h k w s)

attached-acquire_in :
    (mode : SharingMode) (now h k : ℕ) (w : Bool) (c : AttachedClient) (s : DeviceSharingState)
    → lookup h s.attached_clients ≡ some c
    → attached (acquire_in mode now h w c s).1 k ≡ attached s k
unfolding acquire_in take_exclusive take_write
attached-acquire_in exclusive now h k w c s found = ground arith
attached-acquire_in shared now h k w c s found =
    attached-request now h k w s.exclusive_lock_holder (take_exclusive now h c s) s
      (attached-insert h k c _ s found)
attached-acquire_in read_only now h k true c s found =
    attached-request now h k true s.write_lock_holder (take_write now h c s) s
      (attached-insert h k c _ s found)
attached-acquire_in read_only now h k false c s found = refl

pub attached-acquire_lock :
    (now h k : ℕ) (w : Bool) (s : DeviceSharingState)
    → attached (acquire_lock now h w s).1 k ≡ attached s k
unfolding acquire_lock
attached-acquire_lock now h k w s = elim (Option-cases (lookup h s.attached_clients)) [
  | inl missing ↦ rw (missing, acquire_lock) refl
  | inr (c, found) ↦ rw (found, acquire_lock) (attached-acquire_in s.mode now h k w c s found)
]

attached-release_in :
    (mode : SharingMode) (h k : ℕ) (c : AttachedClient) (s : DeviceSharingState)
    → lookup h s.attached_clients ≡ some c
    → attached (release_in mode h c s).1 k ≡ attached s k
unfolding release_in
attached-release_in exclusive h k c s found = refl
attached-release_in shared h k c s found = ground (
  arith,
  attached-insert h k c (record c { has_access = false; lock_acquired_at = none }) s found,
)
attached-release_in read_only h k c s found = ground (
  arith,
  attached-insert h k c (record c { has_write_lock = false; lock_acquired_at = none }) s found,
)

pub attached-release_lock :
    (h k : ℕ) (s : DeviceSharingState) → attached (release_lock h s).1 k ≡ attached s k
unfolding release_lock
attached-release_lock h k s = elim (Option-cases (lookup h s.attached_clients)) [
  | inl missing ↦ rw (missing, release_lock) refl
  | inr (c, found) ↦ rw (found, release_lock) (attached-release_in s.mode h k c s found)
]

attached-grant_in :
    (mode : SharingMode) (now k : ℕ) (e : QueueEntry) (c : AttachedClient) (s : DeviceSharingState)
    → lookup e.handle s.attached_clients ≡ some c
    → attached (grant_in mode now e c s) k ≡ attached s k
unfolding grant_in take_exclusive take_write
attached-grant_in exclusive now k e c s found = refl
attached-grant_in shared now k e c s found = attached-insert e.handle k c _ s found
attached-grant_in read_only now k e c s found = ground (
  arith,
  attached-insert e.handle k c (record c { has_write_lock = true; lock_acquired_at = some now }) s
      found,
)

attached-grant_first :
    (now k : ℕ) (q : List QueueEntry) (s : DeviceSharingState)
    → attached (grant_first now q s).1 k ≡ attached s k
unfolding grant_first
attached-grant_first now k [] s = refl
attached-grant_first now k (e ∷ q) s = elim (Option-cases (lookup e.handle s.attached_clients)) [
  | inl missing ↦ rw (missing, grant_first) refl
  | inr (c, found) ↦
      rw (found, grant_first)
        (attached-grant_in s.mode now k e c (record s { access_queue = q }) found)
]

pub attached-process_queue :
    (now granted_at k : ℕ) (s : DeviceSharingState)
    → attached (process_queue now granted_at s).1 k ≡ attached s k
unfolding process_queue
attached-process_queue now granted_at k s =
    elim (Bool-cases (not (lock_available s) || is_empty s.access_queue)) [
      | inl idle ↦ rw idle refl
      | inr busy ↦ rw busy (attached-grant_first granted_at k (drop_expired now s.access_queue) s)
    ]

granted_events-same :
    (id k : ℕ) (r : Option ℕ × DeviceSharingState)
    → attached (granted_events id r).1 k ≡ attached r.1 k
unfolding granted_events
granted_events-same id k (none, s) = refl
granted_events-same id k (some h, s) = refl

attached-expire_lock :
    (now id k : ℕ) (s : DeviceSharingState) → attached (expire_lock now id s).1 k ≡ attached s k
unfolding expire_lock
attached-expire_lock now id k s = elim (Option-cases (check_lock_timeout now s)) [
  | inl fine ↦ rw (fine, expire_lock) refl
  | inr (h, late) ↦ rw (late, expire_lock) (attached-release_lock h k s)
]

pub attached-serve_queue :
    (now granted_at id k : ℕ) (s : DeviceSharingState)
    → attached (serve_queue now granted_at id s).1 k ≡ attached s k
unfolding serve_queue
attached-serve_queue now granted_at id k s =
    granted_events-same id k (process_queue now granted_at s)
    ∙ attached-process_queue now granted_at k s

pub attached-process_device :
    (at : Instants) (id k : ℕ) (s : DeviceSharingState)
    → attached (process_device at id s).1 k ≡ attached s k
unfolding process_device
attached-process_device at id k s =
    attached-serve_queue at.processed at.granted id k (expire_lock at.checked id s).1
    ∙ attached-expire_lock at.checked id k s
