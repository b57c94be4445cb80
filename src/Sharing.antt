-- ===== src/Sharing.antt =====
-- The state of one shared device: crates/server/src/usb/sharing.rs, `DeviceSharingState`.
-- A method that mutates `self` returns the new state. Each `Instant::now()` is an argument, in the
-- unit of the timeouts; `duration_since` of a later instant is zero, as subtraction on ℕ.
-- A `DeviceHandle` is its number.
pub mod Queue
pub mod Grants
pub mod Invariant
pub mod Locks
pub mod Reach
pub mod Fifo
pub mod Refine
pub mod Tracker
pub mod Sweep
pub mod Waiting
pub mod Attached
mod Tests
use mathlib.Core.Option
use rust_p2p_usb.Protocol.Types.{
  DeviceSharingStatus, LockResult, SharingMode, UnlockResult, acquired, already_held, error,
  exclusive, not_available, not_held, queued, read_only, released, shared,
}
use rust_p2p_usb.Base.{
  as_u32, ℕ, suc, ◌+◌, ◌-◌, ◌%◌, ◌^◌, String, Bool, true, false, ◌&&◌, ◌||◌, not, Option, none,
  some, List, [], ◌∷◌, ◌++◌, Map, lookup, insert, remove, length, retain, head?, ltb, ◌==◌,
  if◌then◌else◌, is_some, is_some_of,
}

pub record AttachedClient : Type 0 where
  pub client_id : String
  pub handle : ℕ
  pub has_write_lock : Bool
  pub has_access : Bool
  pub attached_at : ℕ
  pub lock_acquired_at : Option ℕ

pub record QueueEntry : Type 0 where
  pub client_id : String
  pub handle : ℕ
  pub wants_write : Bool
  pub requested_at : ℕ
  pub timeout : Option ℕ

pub record DeviceSharingState : Type 0 where
  pub device_id : ℕ
  pub mode : SharingMode
  pub max_clients : ℕ
  pub lock_timeout : ℕ
  pub attached_clients : Map AttachedClient
  pub access_queue : List QueueEntry
  pub write_lock_holder : Option ℕ
  pub exclusive_lock_holder : Option ℕ

unfoldable pub new : ℕ → SharingMode → ℕ → ℕ → DeviceSharingState
new device_id mode max_clients lock_timeout = record {
  device_id = device_id;
  mode = mode;
  max_clients = max_clients;
  lock_timeout = lock_timeout;
  attached_clients = [];
  access_queue = [];
  write_lock_holder = none;
  exclusive_lock_holder = none;
}

abbrev pub is_exclusive : SharingMode → Bool
is_exclusive exclusive = true
is_exclusive shared = false
is_exclusive read_only = false

abbrev pub is_empty {ℓ} : {A : Type ℓ} → List A → Bool
is_empty [] = true
is_empty (x ∷ xs) = false

unfoldable room : SharingMode → DeviceSharingState → Bool
room exclusive s = is_empty s.attached_clients
room shared s = ltb (as_u32 (length s.attached_clients)) s.max_clients
room read_only s = ltb (as_u32 (length s.attached_clients)) s.max_clients

unfoldable pub can_attach : DeviceSharingState → Bool
unfolding room
can_attach s = room s.mode s

abbrev new_client : ℕ → ℕ → String → ℕ → DeviceSharingState → AttachedClient
new_client now locked_at client_id handle s = record {
  client_id = client_id;
  handle = handle;
  has_write_lock = false;
  has_access = is_exclusive s.mode || is_empty s.attached_clients;
  attached_at = now;
  lock_acquired_at = if is_exclusive s.mode then some locked_at else none;
}

-- The two instants are those of the two calls of `Instant::now()`.
unfoldable pub attach_client : ℕ → ℕ → String → ℕ → DeviceSharingState → DeviceSharingState
attach_client now locked_at client_id handle s = record s {
  attached_clients = insert handle (new_client now locked_at client_id handle s) s.attached_clients;
}

-- A lock that `handle` holds is freed.
abbrev pub unless_held : ℕ → Option ℕ → Option ℕ
unless_held handle holder = if is_some_of holder handle then none else holder

unfoldable pub detach_client : ℕ → DeviceSharingState → Option AttachedClient × DeviceSharingState
detach_client handle s = elim (lookup handle s.attached_clients) [
  | none ↦ (none, s)
  | some c ↦ (
    some c,
    record s {
      attached_clients = remove handle s.attached_clients;
      access_queue = retain (λ e. not (e.handle == handle)) s.access_queue;
      write_lock_holder = unless_held handle s.write_lock_holder;
      exclusive_lock_holder = unless_held handle s.exclusive_lock_holder;
    },
  )
]

-- `iter().position(|e| e.handle == handle)`
pub position : ℕ → List QueueEntry → Option ℕ
position handle [] = none
position handle (e ∷ q) = if e.handle == handle then some 0 else Option.map suc (position handle q)

abbrev pub id_or_default : Option AttachedClient → String
id_or_default none = ""
id_or_default (some c) = c.client_id

abbrev pub new_entry : ℕ → ℕ → Bool → DeviceSharingState → QueueEntry
new_entry now handle wants_write s = record {
  client_id = id_or_default (lookup handle s.attached_clients);
  handle = handle;
  wants_write = wants_write;
  requested_at = now;
  timeout = some s.lock_timeout;
}

pub add_to_queue : ℕ → ℕ → Bool → DeviceSharingState → ℕ × DeviceSharingState
add_to_queue now handle wants_write s = elim (position handle s.access_queue) [
  | some pos ↦ (as_u32 (pos + 1), s)
  | none ↦
      let queue = s.access_queue ++ new_entry now handle wants_write s ∷ [] in
      (as_u32 (length queue), record s { access_queue = queue })
]

-- The exclusive lock of a shared device goes to `handle`, whose client is `c`.
pub take_exclusive : ℕ → ℕ → AttachedClient → DeviceSharingState → DeviceSharingState
take_exclusive now handle c s = record s {
  exclusive_lock_holder = some handle;
  attached_clients =
      insert handle (record c { has_access = true; lock_acquired_at = some now })
        s.attached_clients;
}

-- The write lock of a read-only device goes to `handle`.
pub take_write : ℕ → ℕ → AttachedClient → DeviceSharingState → DeviceSharingState
take_write now handle c s = record s {
  write_lock_holder = some handle;
  attached_clients =
      insert handle (record c { has_write_lock = true; lock_acquired_at = some now })
        s.attached_clients;
}

-- What a lock request leads to where the lock of the mode is held by `holder`.
request :
    ℕ
    → ℕ
    → Bool
    → Option ℕ
    → DeviceSharingState
    → DeviceSharingState
    → LockResult × DeviceSharingState
request now handle wants_write holder granted s =
    if is_some_of holder handle
    then (already_held, s)
    else if is_some holder
    then (let (position, s') = add_to_queue now handle wants_write s in (queued position, s'))
    else (acquired, granted)

acquire_in :
    SharingMode
    → ℕ
    → ℕ
    → Bool
    → AttachedClient
    → DeviceSharingState
    → LockResult × DeviceSharingState
unfolding request
acquire_in exclusive now handle write_access c s =
    if c.has_access
    then (already_held, s)
    else (not_available "Device in exclusive mode with another client", s)
acquire_in shared now handle write_access c s =
    request now handle write_access s.exclusive_lock_holder (take_exclusive now handle c s) s
acquire_in read_only now handle write_access c s =
    if write_access
    then request now handle true s.write_lock_holder (take_write now handle c s) s
    else (acquired, s)

-- One `Instant::now()` is read on any path.
pub acquire_lock : ℕ → ℕ → Bool → DeviceSharingState → LockResult × DeviceSharingState
acquire_lock now handle write_access s = elim (lookup handle s.attached_clients) [
  | none ↦ (not_available "Client not attached", s)
  | some c ↦ acquire_in s.mode now handle write_access c s
]

release_in :
    SharingMode → ℕ → AttachedClient → DeviceSharingState → UnlockResult × DeviceSharingState
release_in exclusive handle c s = (error "Cannot release lock in exclusive mode", s)
release_in shared handle c s =
    if is_some_of s.exclusive_lock_holder handle
    then (
      released,
      record s {
        exclusive_lock_holder = none;
        attached_clients =
            insert handle (record c { has_access = false; lock_acquired_at = none })
              s.attached_clients;
      },
    )
    else (not_held, s)
release_in read_only handle c s =
    if is_some_of s.write_lock_holder handle
    then (
      released,
      record s {
        write_lock_holder = none;
        attached_clients =
            insert handle (record c { has_write_lock = false; lock_acquired_at = none })
              s.attached_clients;
      },
    )
    else (not_held, s)

pub release_lock : ℕ → DeviceSharingState → UnlockResult × DeviceSharingState
release_lock handle s = elim (lookup handle s.attached_clients) [
  | none ↦ (error "Client not attached", s)
  | some c ↦ release_in s.mode handle c s
]
