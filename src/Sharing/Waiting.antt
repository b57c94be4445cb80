-- ===== src/Sharing/Waiting.antt =====
-- Where the queue and the locks do not agree: a free lock is taken past the queue, and a place that
-- is reported as none.
use mathlib.Core.Option
use rust_p2p_usb.Protocol.Types.{SharingMode, exclusive, shared, acquired, queued}
use rust_p2p_usb.Base.{
  ℕ, suc, ◌+◌, ◌≡◌, ◌≢◌, refl, inl, inr, Bool, true, none, some, List, [], ◌∷◌, ◌++◌, arith, lookup,
  contains_key-insert, Option-cases, length, length-append, as_u32,
}
use rust_p2p_usb.Sharing.{
  DeviceSharingState, AttachedClient, acquire_lock, acquire_in, request, take_exclusive, take_write,
  release_lock, release_in, add_to_queue, QueueEntry, position, new_entry,
}
use rust_p2p_usb.Sharing.Grants.{
  get_queue_position, get_all_queue_positions, numbered, process_queue,
}
use rust_p2p_usb.Sharing.Invariant.{IsValid, attached, accesses}
use rust_p2p_usb.Sharing.Locks.{acquire_lock-IsValid, release_lock-IsValid}
use rust_p2p_usb.Sharing.Fifo
use rust_p2p_usb.Sharing.Fifo.{Lock}
use rust_p2p_usb.Sharing.Refine.{
  view, seen, expired_count, acquire_write_refines, release_lock_refines, process_queue_refines,
}

-- An attached client that asks for a free lock gets it, whoever waits: the queue stays as it was,
-- with the client's own entry if it has one.
pub acquire_lock_overtakes :
    (now h : ℕ) (s : DeviceSharingState)
    → s.mode ≢ exclusive
    → attached s h ≡ true
    → (view s).holder ≡ none
    → seen (acquire_lock now h true s) ≡ (acquired, record (view s) { holder = some h })
unfolding Fifo.acquire
acquire_lock_overtakes now h s m here free = ground (arith, acquire_write_refines now h s m here)

kept_in :
    (mode : SharingMode) (now h : ℕ) (c : AttachedClient) (s : DeviceSharingState)
    → lookup h s.attached_clients ≡ some c
    → let s' = (acquire_in mode now h true c s).1 in (attached s' h ≡ true) × (s'.mode ≡ s.mode)
unfolding acquire_in request add_to_queue take_exclusive take_write
kept_in mode now h c s found = ground (
  arith,
  contains_key-insert h (record c { has_access = true; lock_acquired_at = some now })
      s.attached_clients,
  contains_key-insert h (record c { has_write_lock = true; lock_acquired_at = some now })
      s.attached_clients,
)

acquire_lock-kept :
    (now h : ℕ) (s : DeviceSharingState)
    → attached s h ≡ true
    → let s' = (acquire_lock now h true s).1 in (attached s' h ≡ true) × (s'.mode ≡ s.mode)
unfolding acquire_lock
acquire_lock-kept now h s here = elim (Option-cases (lookup h s.attached_clients)) [
  | inl missing ↦ ground arith
  | inr (c, found) ↦ rw (found, acquire_lock) (kept_in s.mode now h c s found)
]

release_lock-mode : (h : ℕ) (s : DeviceSharingState) → (release_lock h s).1.mode ≡ s.mode
unfolding release_lock release_in
release_lock-mode h s = ground arith

-- A client at the head of the queue that takes the free lock past it and gives it back is granted
-- the lock once more by the next round of the queue, if its entry has not expired by then.
pub process_queue_regrants :
    (now later granted_at h : ℕ) (ws : List ℕ) (s : DeviceSharingState)
    → s.mode ≢ exclusive
    → IsValid s
    → attached s h ≡ true
    → view s ≡ record { holder = none; waiters = h ∷ ws }
    → expired_count later (release_lock h (acquire_lock now h true s).1).1.access_queue ≡ 0
    → (process_queue later granted_at (release_lock h (acquire_lock now h true s).1).1).0 ≡ some h
unfolding Fifo.release Fifo.grant Fifo.serve
process_queue_regrants now later granted_at h ws s m v here free live = ground (
  arith,
  acquire_lock_overtakes now h s m here,
  acquire_lock-kept now h s here,
  release_lock_refines h s1,
  release_lock-mode h s1,
  process_queue_refines later granted_at (release_lock h s1).1,
  release_lock-IsValid h s1 (acquire_lock-IsValid now h true s v),
)
  where
    s1 : DeviceSharingState
    s1 = (acquire_lock now h true s).1

lookup-numbered :
    (h i : ℕ) (q : List QueueEntry)
    → lookup h (numbered i q) ≡ Option.map (λ p. as_u32 (i + p + 1)) (position h q)
unfolding lookup numbered position
lookup-numbered h i [] = refl
lookup-numbered h i (e ∷ q) =
    let ih = lookup-numbered h (suc i) q in ground (arith, ih, Option-cases (position h q))

position-append :
    (h : ℕ) (q : List QueueEntry) (e : QueueEntry)
    → position h q ≡ none
    → e.handle ≡ h
    → position h (q ++ e ∷ []) ≡ some (length q)
unfolding position
position-append h [] e missing same = ground arith
position-append h (d ∷ q) e missing same =
    let ih = position-append h q e in ground (arith, ih, Option-cases (position h q))

-- After a client has been put in the queue, or was there, its entry stands at the place told.
lookup-add_to_queue :
    (now h : ℕ) (w : Bool) (s : DeviceSharingState)
    → let (p, s') = add_to_queue now h w s in lookup h (get_all_queue_positions s') ≡ some p
unfolding add_to_queue get_all_queue_positions
lookup-add_to_queue now h w s = elim (Option-cases (position h s.access_queue)) [
  | inr (p, there) ↦
      rw (there, add_to_queue, lookup-numbered h 0 s.access_queue, there) (ground arith)
  | inl missing ↦
      let e = new_entry now h w s in
      rw
        (
          missing,
          add_to_queue,
          lookup-numbered h 0 (s.access_queue ++ e ∷ []),
          position-append h s.access_queue e missing refl,
          length-append s.access_queue (e ∷ []),
        )
        (ground arith)
]

-- A client of a shared device that has the access flag (the first to attach has it), and whose
-- request must wait behind another's exclusive lock: it is told a place, the list of all places has
-- it at that place, and yet its own queue position reads 0.
pub get_queue_position_hides :
    (now h k : ℕ) (w : Bool) (s : DeviceSharingState)
    → s.mode ≡ shared
    → accesses h s ≡ true
    → s.exclusive_lock_holder ≡ some k
    → k ≢ h
    → let (r, s') = acquire_lock now h w s in
      ((p : ℕ) × (r ≡ queued p) × (lookup h (get_all_queue_positions s') ≡ some p))
      × (get_queue_position h s' ≡ 0)
unfolding acquire_lock acquire_in request add_to_queue get_queue_position
get_queue_position_hides now h k w s m a x n =
    let listed = lookup-add_to_queue now h w s in
    (((add_to_queue now h w s).0, ground arith, ground (arith, listed)), ground arith)
