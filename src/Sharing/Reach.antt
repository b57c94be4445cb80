-- ===== src/Sharing/Reach.antt =====
-- The states that a device's sharing state passes through, by calls in any order.
use rust_p2p_usb.Protocol.Types.{SharingMode}
use rust_p2p_usb.Base.{ℕ, ◌<◌, ◌^◌, ◌≡◌, Bool, true, false, String, arith}
use rust_p2p_usb.Sharing.{
  DeviceSharingState, new, can_attach, attach_client, detach_client, acquire_lock, release_lock,
}
use rust_p2p_usb.Sharing.Grants.{process_queue}
use rust_p2p_usb.Sharing.Invariant.{
  IsValid, attached, writes, new-IsValid, attach_client-IsValid, detach_client-IsValid,
}
use rust_p2p_usb.Sharing.Locks.{acquire_lock-IsValid, release_lock-IsValid, process_queue-IsValid}

-- One call. The manager attaches a client only after `can_attach`, under a handle that it has not
-- given out before; `process_all` frees an expired lock by `release_lock`.
pub data Step : DeviceSharingState → DeviceSharingState → Type 0 where
  attach :
      (s : DeviceSharingState) (now locked_at : ℕ) (id : String) (handle : ℕ)
      → can_attach s ≡ true
      → attached s handle ≡ false
      → Step s (attach_client now locked_at id handle s)
  detach : (s : DeviceSharingState) (handle : ℕ) → Step s (detach_client handle s).1
  acquire :
      (s : DeviceSharingState) (now handle : ℕ) (write_access : Bool)
      → Step s (acquire_lock now handle write_access s).1
  release : (s : DeviceSharingState) (handle : ℕ) → Step s (release_lock handle s).1
  process :
      (s : DeviceSharingState) (now granted_at : ℕ) → Step s (process_queue now granted_at s).1

pub data Reach (s : DeviceSharingState) : DeviceSharingState → Type 0 where
  here : Reach s s
  next : {t u : DeviceSharingState} → Reach s t → Step t u → Reach s u

Step-IsValid : {s t : DeviceSharingState} → Step s t → IsValid s → IsValid t
Step-IsValid (attach s now locked_at id handle free fresh) v =
    attach_client-IsValid now locked_at id handle s v free fresh
Step-IsValid (detach s handle) v = detach_client-IsValid handle s v
Step-IsValid (acquire s now handle write_access) v =
    acquire_lock-IsValid now handle write_access s v
Step-IsValid (release s handle) v = release_lock-IsValid handle s v
Step-IsValid (process s now granted_at) v = process_queue-IsValid now granted_at s v

pub Reach-IsValid : {s t : DeviceSharingState} → IsValid s → Reach s t → IsValid t
Reach-IsValid v here = v
Reach-IsValid v (next r st) = Step-IsValid st (Reach-IsValid v r)

-- From a new device whose limit is a `u32`, after any steps (an attachment only once `can_attach`
-- has allowed it and under a handle that is not attached, and any detachments, requests, releases
-- and rounds of the queue), the invariant holds: the write flag is set for the write lock's holder
-- and for no other client; the exclusive lock's holder is attached and has the access flag (which
-- others may have too); who waits is attached and waits once, and for writing on a read-only
-- device; only a shared device has an exclusive lock and only a read-only one a write lock; and no
-- more clients are attached than the mode and the limit allow.
pub new-Reach-IsValid :
    (id : ℕ) (mode : SharingMode) (max_clients lock_timeout : ℕ) {s : DeviceSharingState}
    → max_clients < 2 ^ 32
    → Reach (new id mode max_clients lock_timeout) s
    → IsValid s
new-Reach-IsValid id mode m t small r = Reach-IsValid (new-IsValid id mode m t small) r

-- From a new device whose limit is a `u32`, after any steps (an attachment only once `can_attach`
-- has allowed it and under a handle that is not attached), two clients whose write flags are set
-- are one client.
pub one_writer :
    (id : ℕ) (mode : SharingMode) (max_clients lock_timeout : ℕ) (s : DeviceSharingState) (h k : ℕ)
    → max_clients < 2 ^ 32
    → Reach (new id mode max_clients lock_timeout) s
    → writes h s ≡ true
    → writes k s ≡ true
    → h ≡ k
one_writer id mode m t s h k small r wh wk = both (new-Reach-IsValid id mode m t small r)
  where
    both : IsValid s → h ≡ k
    both v = ground (arith, v.writer h, v.writer k)
