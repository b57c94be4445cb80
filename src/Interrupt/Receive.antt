-- ===== src/Interrupt/Receive.antt =====
-- The client's buffer of one interrupt endpoint, `EndpointReceiveBuffer` of
-- crates/client/src/virtual_usb/interrupt_receive_buffer.rs. One task stores the reports that
-- arrive. A `HashSet` is a list without repetitions.
use rust_p2p_usb.Base.{
  ℕ, zero, suc, ◌+◌, ◌-◌, ◌%◌, max, Bool, true, false, ◌&&◌, ◌||◌, Option, List, [], ◌∷◌, ◌++◌, Map,
  insert, remove, length, tail, head?, retain, is_some, ltb, leb, ◌==◌, if◌then◌else◌, not,
}
use rust_p2p_usb.Protocol.Integrity.{Hasher, verify_interrupt_checksum}
use rust_p2p_usb.Interrupt.{as_u64}

pub record ReceivedReport : Type 0 where
  pub sequence : ℕ
  pub endpoint : ℕ
  pub bytes : List ℕ
  pub server_timestamp_us : ℕ
  pub received_at : ℕ
  pub checksum : ℕ

pub record EndpointReceiveBuffer : Type 0 where
  pub endpoint : ℕ
  pub reports : List ReceivedReport
  pub next_expected_seq : ℕ
  pub highest_seq : ℕ
  pub last_contiguous_seq : ℕ
  pub total_received : ℕ
  pub total_served : ℕ
  pub gaps_detected : ℕ
  pub checksum_failures : ℕ
  pub max_size : ℕ
  pub active : Bool
  pub missing_sequences : List ℕ
  pub nack_timeout_us : ℕ
  pub missing_timestamps : Map ℕ

abbrev pub default_nack_timeout_us : ℕ
default_nack_timeout_us = 100000

abbrev pub max_missing_sequences : ℕ
max_missing_sequences = 256

unfoldable pub new : ℕ → ℕ → EndpointReceiveBuffer
new endpoint max_size = record {
  endpoint = endpoint;
  reports = [];
  next_expected_seq = 0;
  highest_seq = 0;
  last_contiguous_seq = 0;
  total_received = 0;
  total_served = 0;
  gaps_detected = 0;
  checksum_failures = 0;
  max_size = max_size;
  active = false;
  missing_sequences = [];
  nack_timeout_us = default_nack_timeout_us;
  missing_timestamps = [];
}

unfoldable pub activate : ℕ → EndpointReceiveBuffer → EndpointReceiveBuffer
activate start_seq b = record b {
  next_expected_seq = start_seq;
  highest_seq = start_seq - 1;
  last_contiguous_seq = start_seq - 1;
  active = true;
  missing_sequences = [];
  missing_timestamps = [];
}

unfoldable pub deactivate : EndpointReceiveBuffer → EndpointReceiveBuffer
deactivate b = record b {
  active = false;
  reports = [];
  missing_sequences = [];
  missing_timestamps = [];
}

unfoldable pub contains : ℕ → List ℕ → Bool
contains n [] = false
contains n (m ∷ ms) = (m == n) || contains n ms

-- One number of a gap is tracked, if the set has room.
unfoldable pub track_one : ℕ → ℕ → List ℕ × Map ℕ → List ℕ × Map ℕ
track_one now_us missing_seq (missing, timestamps) =
    if ltb (length missing) max_missing_sequences && not (contains missing_seq missing)
    then (missing_seq ∷ missing, insert missing_seq now_us timestamps)
    else (missing, timestamps)

-- `for missing_seq in expected..seq`, with `count` numbers from `expected`
unfoldable pub track : ℕ → ℕ → ℕ → List ℕ × Map ℕ → List ℕ × Map ℕ
unfolding track_one
track now_us zero expected tracked = tracked
track now_us (suc count) expected tracked =
    track now_us count (suc expected) (track_one now_us expected tracked)

-- A number that arrived late is tracked no longer.
unfoldable pub untrack : ℕ → List ℕ × Map ℕ → List ℕ × Map ℕ
untrack seq (missing, timestamps) =
    if contains seq missing
    then (retain (λ m. not (m == seq)) missing, remove seq timestamps)
    else (missing, timestamps)

-- `iter().min()`
unfoldable pub least : ℕ → List ℕ → ℕ
least m [] = m
least m (n ∷ ns) = if ltb n m then least n ns else least m ns

unfoldable pub contiguous : List ℕ → ℕ → ℕ → ℕ
contiguous [] highest last = highest
contiguous (m ∷ ms) highest last = max last (least m ms - 1)

unfoldable pub update_last_contiguous : EndpointReceiveBuffer → EndpointReceiveBuffer
update_last_contiguous b = record b {
  last_contiguous_seq = contiguous b.missing_sequences b.highest_seq b.last_contiguous_seq;
}

-- The numbers that are missing after `seq` came where `expected` was due.
unfoldable pub missing_after : ℕ → ℕ → ℕ → List ℕ × Map ℕ → List ℕ × Map ℕ
missing_after now_us seq expected tracked =
    if ltb expected seq then track now_us (seq - expected) expected tracked else untrack seq tracked

-- A report that has passed the check, in an active buffer: gaps, then the numbers reached.
unfoldable pub note : ℕ → ℕ → EndpointReceiveBuffer → EndpointReceiveBuffer
unfolding missing_after
note now_us seq b =
    let tracked =
      missing_after now_us seq b.next_expected_seq (b.missing_sequences, b.missing_timestamps) in
    record b {
      gaps_detected =
          if ltb b.next_expected_seq seq then as_u64 (b.gaps_detected + 1) else b.gaps_detected;
      missing_sequences = tracked.0;
      missing_timestamps = tracked.1;
      next_expected_seq = max b.next_expected_seq (as_u64 (seq + 1));
      highest_seq = max b.highest_seq seq;
    }

-- The report is kept; a full buffer loses its oldest one.
unfoldable pub keep : ReceivedReport → EndpointReceiveBuffer → EndpointReceiveBuffer
keep report b = record b {
  reports =
      (if leb b.max_size (length b.reports) then tail b.reports else b.reports) ++ report ∷ [];
  total_received = as_u64 (b.total_received + 1);
}

abbrev pub verify : Hasher → ReceivedReport → Bool
verify h r =
    verify_interrupt_checksum h r.sequence r.endpoint r.bytes r.server_timestamp_us r.checksum

-- Returns whether there was a gap and whether to acknowledge.
unfoldable pub store :
    Hasher → ℕ → ReceivedReport → EndpointReceiveBuffer → (Bool × Bool) × EndpointReceiveBuffer
unfolding note keep update_last_contiguous
store h now_us report b =
    if not b.active
    then ((false, false), b)
    else if not (verify h report)
    then ((false, true), record b { checksum_failures = as_u64 (b.checksum_failures + 1) })
    else (let seq = report.sequence in
        let gap = ltb b.next_expected_seq seq in
        let should_ack = gap || (ltb b.highest_seq seq && seq % 10 == 0) in
        ((gap, should_ack), keep report (update_last_contiguous (note now_us seq b))))

unfoldable pub try_take : EndpointReceiveBuffer → Option ReceivedReport × EndpointReceiveBuffer
try_take b = (
  head? b.reports,
  record b {
    reports = tail b.reports;
    total_served =
        if is_some (head? b.reports) then as_u64 (b.total_served + 1) else b.total_served;
  },
)
