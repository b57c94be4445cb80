-- ===== src/Sharing/Refine.antt =====
-- A device in a mode with a lock behaves as the lock with its queue.

use rust_p2p_usb.Protocol.Types.{
  SharingMode, exclusive, shared, read_only, LockResult, acquired, already_held, queued,
  UnlockResult, released, not_held,
}
use rust_p2p_usb.Base.{
  as_u32, ℕ, suc, ◌≡◌, refl, ap, ◌≢◌, inl, inr, Bool, true, false, not, Option, none, some, List,
  [], ◌∷◌, ◌++◌, arith, length, length-append, drop, retain, lookup, All, ◌==◌, if◌then◌else◌,
  is_some, Bool-cases, Option-cases,
}
use rust_p2p_usb.Sharing.{
  AttachedClient, QueueEntry, DeviceSharingState, position, add_to_queue, request, acquire_in,
  acquire_lock, take_exclusive, take_write, new_entry, release_in, release_lock, detach_client,
  is_empty,
}
use rust_p2p_usb.Sharing.Grants.{
  is_expired, drop_expired, lock_available, grant_in, grant_first, process_queue,
}
use rust_p2p_usb.Sharing.Invariant.{IsValid, attached}
use rust_p2p_usb.Sharing.Queue.{All-drop_expired}
use rust_p2p_usb.Sharing.Fifo
use rust_p2p_usb.Sharing.Fifo.{Lock, Answer, got, had, wait}

-- The lock of the mode, from the exclusive and the write lock.
abbrev pub lock_holder : SharingMode → Option ℕ → Option ℕ → Option ℕ
lock_holder exclusive x w = none
lock_holder shared x w = x
lock_holder read_only x w = w

abbrev pub handles : List QueueEntry → List ℕ
handles [] = []
handles (e ∷ q) = e.handle ∷ handles q

abbrev pub view : DeviceSharingState → Lock
view s = record {
  holder = lock_holder s.mode s.exclusive_lock_holder s.write_lock_holder;
  waiters = handles s.access_queue;
}

abbrev pub to_result : Answer → LockResult
to_result got = acquired
to_result had = already_held
to_result (wait place) = queued (as_u32 place)

abbrev pub to_unlock : Bool → UnlockResult
to_unlock true = released
to_unlock false = not_held

-- How many entries at the front of the queue have expired.
abbrev pub expired_count : ℕ → List QueueEntry → ℕ
expired_count now [] = 0
expired_count now (e ∷ q) = if is_expired now e then suc (expired_count now q) else 0

position-handles : (h : ℕ) (q : List QueueEntry) → position h q ≡ Fifo.index_of h (handles q)
unfolding position Fifo.index_of
position-handles h [] = refl
position-handles h (e ∷ q) = rw (position-handles h q)

handles-append : (q r : List QueueEntry) → handles (q ++ r) ≡ handles q ++ handles r
handles-append [] r = refl
handles-append (e ∷ q) r = ap (◌∷◌ e.handle) (handles-append q r)

length-handles : (q : List QueueEntry) → length (handles q) ≡ length q
length-handles [] = refl
length-handles (e ∷ q) = ap suc (length-handles q)

handles-drop_expired :
    (now : ℕ) (q : List QueueEntry)
    → handles (drop_expired now q) ≡ drop (expired_count now q) (handles q)
unfolding drop_expired
handles-drop_expired now [] = refl
handles-drop_expired now (e ∷ q) = elim (Bool-cases (is_expired now e)) [
  | inl old ↦ rw (old, handles-drop_expired now q)
  | inr live ↦ rw live
]

handles-retain :
    (h : ℕ) (q : List QueueEntry)
    → handles (retain (λ e. not (e.handle == h)) q) ≡ retain (λ k. not (k == h)) (handles q)
handles-retain h [] = refl
handles-retain h (e ∷ q) = elim (Bool-cases (e.handle == h)) [
  | inl same ↦ rw (same, handles-retain h q)
  | inr other ↦ rw (other, handles-retain h q)
]

-- A result beside the view of the new state, and what the lock answers beside the new lock.
abbrev pub seen {ℓ} : {A : Type ℓ} → A × DeviceSharingState → A × Lock
seen (a, s) = (a, view s)

abbrev pub answer : Answer × Lock → LockResult × Lock
answer (a, l) = (to_result a, l)

abbrev pub unlock_answer : Bool × Lock → UnlockResult × Lock
unlock_answer (b, l) = (to_unlock b, l)

add_to_queue_refines :
    (now h : ℕ) (w : Bool) (s : DeviceSharingState)
    → let (p, s') = add_to_queue now h w s in seen (queued p, s') ≡ answer (Fifo.enqueue h (view s))
unfolding add_to_queue Fifo.enqueue
add_to_queue_refines now h w s = ground (
  arith,
  position-handles h s.access_queue,
  handles-append s.access_queue (new_entry now h w s ∷ []),
  length-handles s.access_queue,
  length-append s.access_queue (new_entry now h w s ∷ []),
)

request_refines :
    (now h : ℕ) (w : Bool) (holder : Option ℕ) (granted s : DeviceSharingState)
    → (view s).holder ≡ holder
    → view granted ≡ record (view s) { holder = some h }
    → seen (request now h w holder granted s) ≡ answer (Fifo.acquire h (view s))
unfolding request Fifo.acquire
request_refines now h w holder granted s e g = ground (arith, add_to_queue_refines now h w s)

-- Reading a read-only device needs no lock.
abbrev pub asks_lock : SharingMode → Bool → Bool
asks_lock exclusive w = false
asks_lock shared w = true
asks_lock read_only w = w

acquire_in_refines :
    (mode : SharingMode) (now h : ℕ) (w : Bool) (c : AttachedClient) (s : DeviceSharingState)
    → s.mode ≡ mode
    → mode ≢ exclusive
    → seen (acquire_in mode now h w c s) ≡ answer (Fifo.ask (asks_lock mode w) h (view s))
unfolding acquire_in take_exclusive take_write Fifo.ask
acquire_in_refines exclusive now h w c s m n = absurd (n refl)
acquire_in_refines shared now h w c s m n =
    request_refines now h w s.exclusive_lock_holder (take_exclusive now h c s) s (ground arith)
      (ground arith)
acquire_in_refines read_only now h true c s m n =
    request_refines now h true s.write_lock_holder (take_write now h c s) s (ground arith)
      (ground arith)
acquire_in_refines read_only now h false c s m n = refl

-- For an attached client of a device that is not in exclusive mode: a request answers as the lock
-- with its queue does, with the place as a `u32`, and leaves the lock that it leaves. A request to
-- read a read-only device asks for no lock: it is answered with success, whoever holds the lock, and
-- the lock stays as it was.
pub acquire_lock_refines :
    (now h : ℕ) (w : Bool) (s : DeviceSharingState)
    → s.mode ≢ exclusive
    → attached s h ≡ true
    → seen (acquire_lock now h w s) ≡ answer (Fifo.ask (asks_lock s.mode w) h (view s))
unfolding acquire_lock
acquire_lock_refines now h w s m here = elim (Option-cases (lookup h s.attached_clients)) [
  | inl missing ↦ ground arith
  | inr (c, found) ↦ rw (found, acquire_lock) (acquire_in_refines s.mode now h w c s refl m)
]

-- Any request for writing asks for the lock.
pub acquire_write_refines :
    (now h : ℕ) (s : DeviceSharingState)
    → s.mode ≢ exclusive
    → attached s h ≡ true
    → seen (acquire_lock now h true s) ≡ answer (Fifo.acquire h (view s))
unfolding Fifo.ask
acquire_write_refines now h s m here =
    rw (asked s.mode m) at (acquire_lock_refines now h true s m here)
  where
    asked : (mode : SharingMode) → mode ≢ exclusive → asks_lock mode true ≡ true
    asked exclusive n = absurd (n refl)
    asked shared n = refl
    asked read_only n = refl

release_in_refines :
    (mode : SharingMode) (h : ℕ) (c : AttachedClient) (s : DeviceSharingState)
    → s.mode ≡ mode
    → mode ≢ exclusive
    → seen (release_in mode h c s) ≡ unlock_answer (Fifo.release h (view s))
unfolding release_in Fifo.release
release_in_refines exclusive h c s m n = absurd (n refl)
release_in_refines shared h c s m n = ground arith
release_in_refines read_only h c s m n = ground arith

-- For an attached client of a device that is not in exclusive mode, a release answers as the lock does, and the queue
-- stays as it was.
pub release_lock_refines :
    (h : ℕ) (s : DeviceSharingState)
    → s.mode ≢ exclusive
    → attached s h ≡ true
    → seen (release_lock h s) ≡ unlock_answer (Fifo.release h (view s))
unfolding release_lock
release_lock_refines h s m here = elim (Option-cases (lookup h s.attached_clients)) [
  | inl missing ↦ ground arith
  | inr (c, found) ↦ rw (found, release_lock) (release_in_refines s.mode h c s refl m)
]

-- On a device that is not in exclusive mode, detaching an attached client takes it out of the lock and of the queue.
pub detach_client_refines :
    (h : ℕ) (s : DeviceSharingState)
    → s.mode ≢ exclusive
    → attached s h ≡ true
    → view (detach_client h s).1 ≡ Fifo.leave h (view s)
unfolding detach_client Fifo.leave
detach_client_refines h s m here = ground (arith, handles-retain h s.access_queue)

grant_first_refines :
    (mode : SharingMode) (now : ℕ) (q : List QueueEntry) (s : DeviceSharingState)
    → s.mode ≡ mode
    → mode ≢ exclusive
    → All (λ e. attached s e.handle ≡ true) q
    → (s.mode ≡ read_only → All (λ e. e.wants_write ≡ true) q)
    → seen (grant_first now q s) ≡ Fifo.serve (handles q) (view s)
unfolding grant_first Fifo.serve grant_in take_exclusive take_write
grant_first_refines exclusive now q s m n a w = absurd (n refl)
grant_first_refines shared now [] s m n a w = ground arith
grant_first_refines shared now (e ∷ q) s m n a w = ground arith
grant_first_refines read_only now [] s m n a w = ground arith
grant_first_refines read_only now (e ∷ q) s m n a w = ground (arith, w m)

available-holder :
    (s : DeviceSharingState) → s.mode ≢ exclusive → lock_available s ≡ not (is_some (view s).holder)
unfolding lock_available
available-holder s m = ground arith

nothing_to_serve :
    (now : ℕ) (q : List QueueEntry) (l : Lock)
    → is_empty q ≡ true
    → l.waiters ≡ handles q
    → Fifo.serve (drop (expired_count now q) l.waiters) l ≡ (none, l)
unfolding Fifo.serve
nothing_to_serve now [] l e w = ground arith
nothing_to_serve now (d ∷ q) l e w = cc

-- A valid device that is not in exclusive mode serves its queue as the lock does: a free lock goes to the first entry
-- that is not behind an unexpired one, every expired entry before it is dropped, and a lock that is
-- held stays with its holder.
pub process_queue_refines :
    (now granted_at : ℕ) (s : DeviceSharingState)
    → s.mode ≢ exclusive
    → IsValid s
    → seen (process_queue now granted_at s) ≡ Fifo.grant (expired_count now s.access_queue) (view s)
unfolding process_queue Fifo.grant
process_queue_refines now granted_at s m v = ground (
  arith,
  available-holder s m,
  nothing_to_serve now s.access_queue (view s),
  handles-drop_expired now s.access_queue,
  grant_first_refines s.mode granted_at (drop_expired now s.access_queue) s refl m
      (All-drop_expired _ now s.access_queue v.waiting)
      (λ r. All-drop_expired _ now s.access_queue (v.writers r)),
)
