-- ===== src/Sharing/Tests.antt =====
-- A shared device with two clients: runs of the operations, and the theorems at its states.
use rust_p2p_usb.Protocol.Types.{exclusive, shared, read_only, queued}
use rust_p2p_usb.Base.{ℕ, ◌≡◌, ◌≢◌, refl, true, false, none, some, [], ◌∷◌, arith, lookup, insert}
use rust_p2p_usb.Sharing.{
  AttachedClient, QueueEntry, DeviceSharingState, new, can_attach, attach_client, detach_client,
  acquire_lock, release_lock, acquire_in, request, add_to_queue, position, take_exclusive,
  take_write, release_in,
}
use rust_p2p_usb.Sharing.Grants.{
  process_queue, check_lock_timeout, drop_expired, lock_available, grant_first, held_too_long,
  get_queue_position, get_all_queue_positions,
}
use rust_p2p_usb.Sharing.Invariant.{IsValid, attached, writes}
use rust_p2p_usb.Sharing.Reach.{Reach, here, next, attach, acquire, new-Reach-IsValid, one_writer}
use rust_p2p_usb.Sharing.Fifo
use rust_p2p_usb.Sharing.Fifo.{got, had, wait}
use rust_p2p_usb.Sharing.Refine.{
  view, seen, answer, asks_lock, unlock_answer, acquire_lock_refines, release_lock_refines,
  detach_client_refines, process_queue_refines,
}
use rust_p2p_usb.Sharing.Tracker.{Instants, serve_queue}
use rust_p2p_usb.Sharing.Sweep.{report, serve_queue_refines}
use rust_p2p_usb.Sharing.Waiting.{process_queue_regrants, get_queue_position_hides}

abbrev first : AttachedClient
first = record {
  client_id = "a";
  handle = 1;
  has_write_lock = false;
  has_access = true;
  attached_at = 0;
  lock_acquired_at = some 5;
}

abbrev second : AttachedClient
second = record {
  client_id = "b";
  handle = 2;
  has_write_lock = false;
  has_access = false;
  attached_at = 1;
  lock_acquired_at = none;
}

abbrev waiting_entry : QueueEntry
waiting_entry = record {
  client_id = "b";
  handle = 2;
  wants_write = true;
  requested_at = 6;
  timeout = some 100;
}

-- Client 1 has the lock since 5, client 2 waits for it.
abbrev contended : DeviceSharingState
contended = record {
  device_id = 7;
  mode = shared;
  max_clients = 4;
  lock_timeout = 100;
  attached_clients = (1, first) ∷ (2, second) ∷ [];
  access_queue = waiting_entry ∷ [];
  write_lock_holder = none;
  exclusive_lock_holder = some 1;
}

-- The same, after client 1 gave the lock back.
abbrev freed : DeviceSharingState
freed = record contended { exclusive_lock_holder = none }

-- The clients as they come out of the calls of `attach_client`.
abbrev attached_two : DeviceSharingState
attached_two = attach_client 1 1 "b" 2 (attach_client 0 0 "a" 1 (new 7 read_only 4 100))

not_exclusive : shared ≢ exclusive
not_exclusive e = cc

contended-writer : (h : ℕ) → writes h contended ≡ false
unfolding lookup
contended-writer h = ground arith

contended-IsValid : IsValid contended
unfolding lookup position
contended-IsValid = record {
  writer = λ h. contended-writer h;
  holder = λ h e. ground arith;
  waiting = (refl, tt);
  writers = λ m. cc;
  distinct = (refl, tt);
  no_exclusive = λ n. absurd (n refl);
  no_write = λ n. refl;
  within = omega arith;
  in_u32 = omega arith;
}

freed-IsValid : IsValid freed
unfolding lookup position
freed-IsValid = record {
  writer = λ h. contended-writer h;
  holder = λ h e. cc;
  waiting = (refl, tt);
  writers = λ m. cc;
  distinct = (refl, tt);
  no_exclusive = λ n. absurd (n refl);
  no_write = λ n. refl;
  within = omega arith;
  in_u32 = omega arith;
}

two_attached : (can_attach attached_two ≡ true) × (attached attached_two 2 ≡ true)
unfolding can_attach attach_client new insert lookup
two_attached = (refl, refl)

queued_second : (acquire_lock 9 2 true contended).0 ≡ queued 1
unfolding acquire_lock acquire_in request add_to_queue position lookup
queued_second = refl

granted_second : (process_queue 10 11 freed).0 ≡ some 2
unfolding process_queue grant_first drop_expired lock_available lookup
granted_second = refl

expired_second : (process_queue 200 201 freed).0 ≡ none
unfolding process_queue grant_first drop_expired lock_available lookup
expired_second = refl

acquire_lock_refines_example :
    seen (acquire_lock 9 2 true contended)
    ≡ answer (Fifo.ask (asks_lock contended.mode true) 2 (view contended))
unfolding lookup
acquire_lock_refines_example = acquire_lock_refines 9 2 true contended not_exclusive refl

release_lock_refines_example :
    seen (release_lock 1 contended) ≡ unlock_answer (Fifo.release 1 (view contended))
unfolding lookup
release_lock_refines_example = release_lock_refines 1 contended not_exclusive refl

detach_client_refines_example : view (detach_client 1 contended).1 ≡ Fifo.leave 1 (view contended)
unfolding lookup
detach_client_refines_example = detach_client_refines 1 contended not_exclusive refl

process_queue_refines_example : seen (process_queue 10 11 freed) ≡ Fifo.grant 0 (view freed)
process_queue_refines_example = process_queue_refines 10 11 freed not_exclusive freed-IsValid

-- Two clients attach to a read-only device, and the first asks for the write lock.
abbrev written : DeviceSharingState
written = (acquire_lock 5 1 true attached_two).1

written_reached : Reach (new 7 read_only 4 100) written
unfolding can_attach attach_client new insert lookup
written_reached =
    next (next (next here (attach _ 0 0 "a" 1 refl refl)) (attach _ 1 1 "b" 2 refl refl))
      (acquire _ 5 1 true)

new-Reach-IsValid_example : IsValid written
new-Reach-IsValid_example = new-Reach-IsValid 7 read_only 4 100 (omega arith) written_reached

one_writer_example : ◌≡◌ {A = ℕ} 1 1
unfolding acquire_lock acquire_in request take_write attach_client new insert lookup
one_writer_example =
    one_writer 7 read_only 4 100 written 1 1 (omega arith) written_reached refl refl

abbrev sweep_at : ℕ → Instants
sweep_at id = record { checked = 200; processed = 201; granted = 202 }

serve_queue_refines_example :
    ((serve_queue 10 11 7 freed).0 ≡ report 7 (Fifo.grant 0 (view freed)))
    × (view (serve_queue 10 11 7 freed).1 ≡ (Fifo.grant 0 (view freed)).1)
serve_queue_refines_example = serve_queue_refines 10 11 7 freed not_exclusive freed-IsValid

contended_overdue : check_lock_timeout 200 contended ≡ some 1
unfolding check_lock_timeout held_too_long lookup
contended_overdue = refl

process_queue_regrants_example :
    (process_queue 20 21 (release_lock 2 (acquire_lock 9 2 true freed).1).1).0 ≡ some 2
unfolding acquire_lock acquire_in request take_exclusive release_lock release_in lookup insert
process_queue_regrants_example =
    process_queue_regrants 9 20 21 2 [] freed not_exclusive freed-IsValid refl refl refl

-- Client 1 has the access flag of the first to attach, and client 2 the lock.
abbrev swapped : DeviceSharingState
swapped = record contended { exclusive_lock_holder = some 2; access_queue = [] }

get_queue_position_hides_example :
    ((p : ℕ) × ((acquire_lock 9 1 false swapped).0 ≡ queued p)
      × (lookup 1 (get_all_queue_positions (acquire_lock 9 1 false swapped).1) ≡ some p))
    × (get_queue_position 1 (acquire_lock 9 1 false swapped).1 ≡ 0)
unfolding lookup
get_queue_position_hides_example =
    get_queue_position_hides 9 1 2 false swapped refl refl refl (λ e. absurd (omega arith))
