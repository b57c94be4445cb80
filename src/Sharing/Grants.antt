-- ===== src/Sharing/Grants.antt =====
-- Queue positions, grants to who waits, lock timeouts and the status report of
-- `DeviceSharingState`.
use rust_p2p_usb.Protocol.Types.{SharingMode, exclusive, shared, read_only, DeviceSharingStatus}
use rust_p2p_usb.Base.{
  as_u32, ℕ, suc, ◌+◌, ◌-◌, Bool, false, ◌||◌, not, Option, none, some, List, [], ◌∷◌, lookup,
  length, ltb, if◌then◌else◌, is_some, is_some_of,
}
use rust_p2p_usb.Sharing.{
  AttachedClient, QueueEntry, DeviceSharingState, is_empty, position, take_exclusive, take_write,
}

abbrev pub has_any_access : Option AttachedClient → Bool
has_any_access none = false
has_any_access (some c) = c.has_access || c.has_write_lock

abbrev pub position_or_zero : Option ℕ → ℕ
position_or_zero none = 0
position_or_zero (some pos) = as_u32 (pos + 1)

unfoldable pub get_queue_position : ℕ → DeviceSharingState → ℕ
get_queue_position handle s =
    if has_any_access (lookup handle s.attached_clients)
    then 0
    else position_or_zero (position handle s.access_queue)

abbrev pub is_expired : ℕ → QueueEntry → Bool
is_expired now e = elim e.timeout [ none ↦ false | some t ↦ ltb t (now - e.requested_at) ]

-- The loop that pops expired entries off the front.
unfoldable pub drop_expired : ℕ → List QueueEntry → List QueueEntry
drop_expired now [] = []
drop_expired now (e ∷ q) = if is_expired now e then drop_expired now q else e ∷ q

unfoldable pub lock_available : DeviceSharingState → Bool
lock_available s = elim s.mode [
  | exclusive ↦ false
  | shared ↦ not (is_some s.exclusive_lock_holder)
  | read_only ↦ not (is_some s.write_lock_holder)
]

unfoldable pub grant_in :
    SharingMode → ℕ → QueueEntry → AttachedClient → DeviceSharingState → DeviceSharingState
grant_in exclusive now e c s = s
grant_in shared now e c s = take_exclusive now e.handle c s
grant_in read_only now e c s = if e.wants_write then take_write now e.handle c s else s

-- The queue, after its expired entries are dropped, gives up its first entry.
unfoldable pub grant_first :
    ℕ → List QueueEntry → DeviceSharingState → Option ℕ × DeviceSharingState
grant_first granted_at [] s = (none, record s { access_queue = [] })
grant_first granted_at (e ∷ q) s = elim (lookup e.handle s.attached_clients) [
  | none ↦ (none, record s { access_queue = q })
  | some c ↦ (some e.handle, grant_in s.mode granted_at e c (record s { access_queue = q }))
]

unfoldable pub process_queue : ℕ → ℕ → DeviceSharingState → Option ℕ × DeviceSharingState
process_queue now granted_at s =
    if not (lock_available s) || is_empty s.access_queue
    then (none, s)
    else grant_first granted_at (drop_expired now s.access_queue) s

-- `Some(holder)` if the holder has had the lock for longer than the timeout
unfoldable pub held_too_long : ℕ → Option ℕ → DeviceSharingState → Option ℕ
held_too_long now none s = none
held_too_long now (some holder) s = elim (lookup holder s.attached_clients) [
  | none ↦ none
  | some c ↦ elim c.lock_acquired_at [
    | none ↦ none
    | some acquired_at ↦ if ltb s.lock_timeout (now - acquired_at) then some holder else none
  ]
]

unfoldable pub check_lock_timeout : ℕ → DeviceSharingState → Option ℕ
unfolding held_too_long
check_lock_timeout now s = elim (held_too_long now s.exclusive_lock_holder s) [
  | some holder ↦ some holder
  | none ↦ held_too_long now s.write_lock_holder s
]

-- A sum in `u32`; the largest queue that memory holds does not reach the wrap.
unfoldable pub get_status : Option ℕ → DeviceSharingState → DeviceSharingStatus
get_status for_handle s = record {
  device_id = s.device_id;
  sharing_mode = s.mode;
  attached_clients = as_u32 (length s.attached_clients);
  has_write_lock = elim for_handle [
    | some handle ↦ is_some_of s.write_lock_holder handle
    | none ↦ false
  ];
  queue_position = elim for_handle [ some handle ↦ get_queue_position handle s | none ↦ 0 ];
  queue_length = as_u32 (
      as_u32 (length s.access_queue)
      + (if is_some s.exclusive_lock_holder || is_some s.write_lock_holder then 1 else 0));
}

unfoldable pub numbered : ℕ → List QueueEntry → List (ℕ × ℕ)
numbered i [] = []
numbered i (e ∷ q) = (e.handle, as_u32 (i + 1)) ∷ numbered (suc i) q

unfoldable pub get_all_queue_positions : DeviceSharingState → List (ℕ × ℕ)
unfolding numbered
get_all_queue_positions s = numbered 0 s.access_queue
