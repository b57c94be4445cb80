-- ===== src/Sharing/Locks.antt =====
-- Requests, releases and grants of locks keep the invariant.
use rust_p2p_usb.Protocol.Types.{SharingMode, exclusive, shared, read_only}
use rust_p2p_usb.Base.{
  ℕ, ◌≡◌, refl, inl, inr, Bool, true, false, not, ◌||◌, Option, none, some, List, [], ◌∷◌, arith,
  All, All-append, lookup, ◌==◌, ==_iff, is_some_of, Bool-cases, Option-cases,
}
use rust_p2p_usb.Sharing.{
  AttachedClient, QueueEntry, DeviceSharingState, position, add_to_queue, take_exclusive,
  take_write, request, acquire_in, acquire_lock, release_in, release_lock, is_empty,
}
use rust_p2p_usb.Sharing.Grants.{drop_expired, lock_available, grant_in, grant_first, process_queue}
use rust_p2p_usb.Sharing.Queue.{
  Distinct, Distinct-append_last, Distinct-drop_expired, All-drop_expired,
}
use rust_p2p_usb.Sharing.Invariant.{IsValid, attached, update-IsValid, queue-IsValid}

take_exclusive-IsValid :
    (now h : ℕ) (c : AttachedClient) (s : DeviceSharingState)
    → IsValid s
    → lookup h s.attached_clients ≡ some c
    → s.exclusive_lock_holder ≡ none
    → s.mode ≡ shared
    → IsValid (take_exclusive now h c s)
unfolding take_exclusive
take_exclusive-IsValid now h c s v found free m =
    update-IsValid h _ s.write_lock_holder (some h) s v (ground arith)
      (λ k. ground (arith, v.writer k, ==_iff h k)) (λ k e. ground arith) (λ n. absurd (n m))
      v.no_write

take_write-IsValid :
    (now h : ℕ) (c : AttachedClient) (s : DeviceSharingState)
    → IsValid s
    → lookup h s.attached_clients ≡ some c
    → s.write_lock_holder ≡ none
    → s.mode ≡ read_only
    → IsValid (take_write now h c s)
unfolding take_write
take_write-IsValid now h c s v found free m =
    update-IsValid h _ (some h) s.exclusive_lock_holder s v (ground arith)
      (λ k. ground (arith, v.writer k)) (λ k e. ground (arith, v.holder k e)) v.no_exclusive
      (λ n. absurd (n m))

add_to_queue-IsValid :
    (now h : ℕ) (w : Bool) (s : DeviceSharingState)
    → IsValid s
    → attached s h ≡ true
    → (s.mode ≡ read_only → w ≡ true)
    → IsValid (add_to_queue now h w s).1
unfolding add_to_queue
add_to_queue-IsValid now h w s v here write = elim (Option-cases (position h s.access_queue)) [
  | inr (i, found) ↦ rw (found, add_to_queue) v
  | inl missing ↦
      rw (missing, add_to_queue)
        (queue-IsValid _ s v (All-append _ s.access_queue _ v.waiting (here, tt))
          (λ m. All-append _ s.access_queue _ (v.writers m) (write m, tt))
          (Distinct-append_last _ s.access_queue missing v.distinct))
]

request-IsValid :
    (now h : ℕ) (w : Bool) (holder : Option ℕ) (granted s : DeviceSharingState)
    → IsValid s
    → attached s h ≡ true
    → (s.mode ≡ read_only → w ≡ true)
    → (holder ≡ none → IsValid granted)
    → IsValid (request now h w holder granted s).1
unfolding request
request-IsValid now h w none granted s v here write ok = ok refl
request-IsValid now h w (some k) granted s v here write ok = elim (Bool-cases (k == h)) [
  | inl same ↦ rw same v
  | inr other ↦ rw other (add_to_queue-IsValid now h w s v here write)
]

acquire_in-IsValid :
    (mode : SharingMode) (now h : ℕ) (w : Bool) (c : AttachedClient) (s : DeviceSharingState)
    → IsValid s
    → lookup h s.attached_clients ≡ some c
    → s.mode ≡ mode
    → IsValid (acquire_in mode now h w c s).1
unfolding acquire_in
acquire_in-IsValid exclusive now h w c s v found m = elim (Bool-cases c.has_access) [
  | inl held ↦ rw held v
  | inr other ↦ rw other v
]
acquire_in-IsValid shared now h w c s v found m =
    request-IsValid now h w s.exclusive_lock_holder _ s v (ground arith) (λ r. cc)
      (λ free. take_exclusive-IsValid now h c s v found free m)
acquire_in-IsValid read_only now h true c s v found m =
    request-IsValid now h true s.write_lock_holder _ s v (ground arith) (λ r. refl)
      (λ free. take_write-IsValid now h c s v found free m)
acquire_in-IsValid read_only now h false c s v found m = v

pub acquire_lock-IsValid :
    (now h : ℕ) (w : Bool) (s : DeviceSharingState) → IsValid s → IsValid (acquire_lock now h w s).1
unfolding acquire_lock
acquire_lock-IsValid now h w s v = elim (Option-cases (lookup h s.attached_clients)) [
  | inl missing ↦ rw (missing, acquire_lock) v
  | inr (c, found) ↦ rw (found, acquire_lock) (acquire_in-IsValid s.mode now h w c s v found refl)
]

release_in-IsValid :
    (mode : SharingMode) (h : ℕ) (c : AttachedClient) (s : DeviceSharingState)
    → IsValid s
    → lookup h s.attached_clients ≡ some c
    → IsValid (release_in mode h c s).1
unfolding release_in
release_in-IsValid exclusive h c s v found = v
release_in-IsValid shared h c s v found = elim (Bool-cases (is_some_of s.exclusive_lock_holder h)) [
  | inr other ↦ rw other v
  | inl held ↦ rw held (
      update-IsValid h _ s.write_lock_holder none s v (ground arith)
        (λ k. ground (arith, v.writer k, ==_iff h k)) (λ k e. cc) (λ n. refl) v.no_write)
]
release_in-IsValid read_only h c s v found = elim (Bool-cases (is_some_of s.write_lock_holder h)) [
  | inr other ↦ rw other v
  | inl held ↦ rw held (
      update-IsValid h _ none s.exclusive_lock_holder s v (ground arith)
        (λ k. ground (arith, v.writer k)) (λ k e. ground (arith, v.holder k e)) v.no_exclusive
        (λ n. refl))
]

pub release_lock-IsValid :
    (h : ℕ) (s : DeviceSharingState) → IsValid s → IsValid (release_lock h s).1
unfolding release_lock
release_lock-IsValid h s v = elim (Option-cases (lookup h s.attached_clients)) [
  | inl missing ↦ rw (missing, release_lock) v
  | inr (c, found) ↦ rw (found, release_lock) (release_in-IsValid s.mode h c s v found)
]

grant_in-IsValid :
    (mode : SharingMode) (now : ℕ) (e : QueueEntry) (c : AttachedClient) (s : DeviceSharingState)
    → IsValid s
    → lookup e.handle s.attached_clients ≡ some c
    → s.mode ≡ mode
    → lock_available s ≡ true
    → IsValid (grant_in mode now e c s)
unfolding grant_in lock_available
grant_in-IsValid exclusive now e c s v found m free = v
grant_in-IsValid shared now e c s v found m free =
    take_exclusive-IsValid now e.handle c s v found (ground arith) m
grant_in-IsValid read_only now e c s v found m free = elim (Bool-cases e.wants_write) [
  | inl yes_write ↦ rw yes_write (take_write-IsValid now e.handle c s v found (ground arith) m)
  | inr read ↦ rw read v
]

grant_first-IsValid :
    (now : ℕ) (q : List QueueEntry) (s : DeviceSharingState)
    → IsValid s
    → All (λ e. attached s e.handle ≡ true) q
    → (s.mode ≡ read_only → All (λ e. e.wants_write ≡ true) q)
    → Distinct q
    → lock_available s ≡ true
    → IsValid (grant_first now q s).1
unfolding grant_first lock_available
grant_first-IsValid now [] s v a w d free = queue-IsValid [] s v tt (λ m. tt) tt
grant_first-IsValid now (e ∷ q) s v a w d free =
    elim (Option-cases (lookup e.handle s.attached_clients)) [
      | inl missing ↦ rw (missing, grant_first) (queue-IsValid q s v a.1 (λ m. (w m).1) d.1)
      | inr (c, found) ↦
          rw (found, grant_first)
            (grant_in-IsValid s.mode now e c _ (queue-IsValid q s v a.1 (λ m. (w m).1) d.1) found
              refl free)
    ]

pub process_queue-IsValid :
    (now granted_at : ℕ) (s : DeviceSharingState)
    → IsValid s
    → IsValid (process_queue now granted_at s).1
unfolding process_queue
process_queue-IsValid now granted_at s v =
    elim (Bool-cases (not (lock_available s) || is_empty s.access_queue)) [
      | inl idle ↦ rw idle v
      | inr busy ↦ rw busy (
          grant_first-IsValid granted_at (drop_expired now s.access_queue) s v
            (All-drop_expired _ now s.access_queue v.waiting)
            (λ m. All-drop_expired _ now s.access_queue (v.writers m))
            (Distinct-drop_expired now s.access_queue v.distinct) (ground arith))
    ]
