-- ===== src/Interrupt.antt =====
-- The server's buffer of one interrupt endpoint, `EndpointBuffer` of
-- crates/server/src/usb/interrupt_buffer.rs. One thread pushes, that of the endpoint's poller, so
-- that a number is taken and its report stored in one step. The children have what holds of it,
-- and the client's buffer of the same reports.
pub mod Order
pub mod Balance
pub mod Window
pub mod Receive
pub mod Nack
pub mod Contiguous
pub mod Expiry
pub mod Jitter
mod Tests
use rust_p2p_usb.Base.{
  ℕ, ◌+◌, ◌^◌, ◌%◌, Bool, Option, List, [], ◌∷◌, ◌++◌, length, tail, head?, leb, ◌==◌,
  if◌then◌else◌, not,
}
use rust_p2p_usb.Protocol.Integrity.{Hasher, compute_interrupt_checksum}

pub record InterruptReport : Type 0 where
  pub seq : ℕ
  pub endpoint : ℕ
  pub bytes : List ℕ
  pub timestamp_us : ℕ
  pub checksum : ℕ

pub record EndpointBuffer : Type 0 where
  pub endpoint : ℕ
  pub reports : List InterruptReport
  pub next_seq : ℕ
  pub last_acked_seq : ℕ
  pub total_received : ℕ
  pub total_dropped : ℕ
  pub max_size : ℕ

abbrev pub as_u64 : ℕ → ℕ
as_u64 n = n % 2 ^ 64

unfoldable pub with_capacity : ℕ → ℕ → EndpointBuffer
with_capacity endpoint capacity = record {
  endpoint = endpoint;
  reports = [];
  next_seq = 0;
  last_acked_seq = 0;
  total_received = 0;
  total_dropped = 0;
  max_size = capacity;
}

module _ (h : Hasher) where
  -- The time is that of the call, in microseconds since the epoch.
  unfoldable pub new_report : ℕ → ℕ → ℕ → List ℕ → InterruptReport
  new_report now_us seq endpoint bytes = record {
    seq = seq;
    endpoint = endpoint;
    bytes = bytes;
    timestamp_us = now_us;
    checksum = compute_interrupt_checksum h seq endpoint bytes now_us;
  }

  unfoldable pub verify : InterruptReport → Bool
  verify r = compute_interrupt_checksum h r.seq r.endpoint r.bytes r.timestamp_us == r.checksum

  -- A full buffer loses its oldest report; a capacity of 0 counts a loss that does not happen.
  unfoldable pub push : ℕ → List ℕ → EndpointBuffer → ℕ × EndpointBuffer
  unfolding new_report
  push now_us bytes b =
      let seq = b.next_seq in
      let report : InterruptReport = new_report now_us seq b.endpoint bytes in
      let full = leb b.max_size (length b.reports) in
      let kept = if full then tail b.reports else b.reports in
      (
        seq,
        record b {
          reports = kept ++ report ∷ [];
          next_seq = as_u64 (seq + 1);
          total_received = as_u64 (b.total_received + 1);
          total_dropped = if full then as_u64 (b.total_dropped + 1) else b.total_dropped;
        },
      )

unfoldable pub try_pop : EndpointBuffer → Option InterruptReport × EndpointBuffer
try_pop b = (head? b.reports, record b { reports = tail b.reports })

unfoldable pub pop_all : EndpointBuffer → List InterruptReport × EndpointBuffer
pop_all b = (b.reports, record b { reports = [] })

unfoldable pub acknowledge : ℕ → EndpointBuffer → EndpointBuffer
acknowledge seq b = record b { last_acked_seq = seq }
