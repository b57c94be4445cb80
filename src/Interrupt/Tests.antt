-- ===== src/Interrupt/Tests.antt =====
-- Runs of the interrupt buffers and the jitter buffer.
use rust_p2p_usb.Base.{
  ℕ, ◌+◌, ◌≤◌, ◌≡◌, refl, true, not, ◌&&◌, List, [], ◌∷◌, ◌++◌, arith, length, map, leb, ltb, All,
  le_bytes, lookup, insert, remove,
}
use rust_p2p_usb.Protocol.Integrity.{Hasher, compute_interrupt_checksum, verify_interrupt_checksum}
use rust_p2p_usb.Interrupt
use rust_p2p_usb.Interrupt.{
  InterruptReport, with_capacity, new_report, push, try_pop, pop_all, acknowledge,
}
use rust_p2p_usb.Interrupt.Order.{
  Call, pushed, popped, all_popped, acked, call, run, Ascending, run-Ascending,
}
use rust_p2p_usb.Interrupt.Balance.{run-total_received}
use rust_p2p_usb.Interrupt.Window.{push_all, payloads, pop_all-push_all}
use rust_p2p_usb.Interrupt.Receive
use rust_p2p_usb.Interrupt.Receive.{
  ReceivedReport, EndpointReceiveBuffer, activate, contains, track_one, track, untrack, least,
  contiguous, missing_after, note, keep, update_last_contiguous, store, try_take,
}
use rust_p2p_usb.Interrupt.Nack.{store_all, intact, AllFit, store_all-missing}
use rust_p2p_usb.Interrupt.Contiguous.{store_all-last_contiguous_seq}
use rust_p2p_usb.Interrupt.Expiry.{
  expired, give_up, sort, place, get_missing_sequences, Sorted, too_late,
  get_missing_sequences-store_all,
}
use rust_p2p_usb.Interrupt.Jitter
use rust_p2p_usb.Interrupt.Jitter.{
  AdaptiveJitterBuffer, with_config, record_arrival, arrivals, arrivals-current_delay_us,
  record_arrival-jitter_us,
}

-- A hasher that counts the bytes.
abbrev counter : Hasher
counter = record { State = ℕ; new = 0; update = λ s bytes. s + length bytes; finalize = λ s. s }

abbrev calls : List Call
calls =
    pushed 10 (1 ∷ [])
    ∷ pushed 11 (2 ∷ [])
    ∷ popped
    ∷ pushed 12 (3 ∷ [])
    ∷ pushed 13 (4 ∷ [])
    ∷ acked 0
    ∷ all_popped
    ∷ []

handed_out : map InterruptReport.seq (run counter calls (with_capacity 129 2)).0 ≡ 0 ∷ 2 ∷ 3 ∷ []
unfolding run call push try_pop pop_all acknowledge with_capacity new_report
handed_out = refl

run-Ascending_example :
    let (out, b) = run counter calls (with_capacity 129 2) in
    Ascending (out ++ b.reports) × All (λ r. Interrupt.verify counter r ≡ true) (out ++ b.reports)
run-Ascending_example = run-Ascending counter calls 129 2 (omega arith)

run-total_received_example :
    let (out, b) = run counter calls (with_capacity 129 2) in
    (b.total_received ≡ length out + b.total_dropped + length b.reports) × (length b.reports ≤ 2)
run-total_received_example = run-total_received counter calls 129 2 (omega arith) (omega arith)

abbrev polls : List (ℕ × List ℕ)
polls = (10, 1 ∷ []) ∷ (11, 2 ∷ []) ∷ (12, 3 ∷ []) ∷ []

pop_all-push_all_example :
    payloads (pop_all (push_all counter polls (with_capacity 129 2))).0 ≡ (2 ∷ []) ∷ (3 ∷ []) ∷ []
pop_all-push_all_example = pop_all-push_all counter polls 129 2 (omega arith)

abbrev numbered : ℕ → ℕ → ReceivedReport
numbered checksum seq = record {
  sequence = seq;
  endpoint = 129;
  bytes = 7 ∷ [];
  server_timestamp_us = 5;
  received_at = 6;
  checksum = checksum;
}

-- Numbers 2 and 4 are missing, 2 since it came damaged.
abbrev arrived : List (ℕ × ReceivedReport)
arrived = (1, numbered 18 1) ∷ (2, numbered 18 3) ∷ (3, numbered 0 2) ∷ (4, numbered 18 5) ∷ []

abbrev idle : EndpointReceiveBuffer
idle = Receive.new 129 64

arrived-AllFit : AllFit counter arrived (activate 1 idle)
unfolding AllFit store note missing_after keep update_last_contiguous track track_one contains
    activate Receive.new verify_interrupt_checksum compute_interrupt_checksum untrack contiguous
    least le_bytes
arrived-AllFit = (
  (omega arith, omega arith),
  ((omega arith, omega arith), ((omega arith, omega arith), ((omega arith, omega arith), tt))),
)

abbrev after_all : EndpointReceiveBuffer
after_all = store_all counter arrived (activate 1 idle)

nacked : after_all.missing_sequences ≡ 4 ∷ 2 ∷ []
unfolding store_all store note missing_after keep update_last_contiguous track track_one contains
    activate Receive.new verify_interrupt_checksum compute_interrupt_checksum untrack contiguous
    least le_bytes
nacked = refl

store_all-missing_example :
    contains 2 after_all.missing_sequences
    ≡ (leb 1 2 && ltb 2 after_all.next_expected_seq && not (contains 2 (intact counter arrived)))
store_all-missing_example = store_all-missing counter arrived 1 2 idle arrived-AllFit

up_to : after_all.last_contiguous_seq ≡ 1
unfolding store_all store note missing_after keep update_last_contiguous track track_one contains
    activate Receive.new verify_interrupt_checksum compute_interrupt_checksum untrack contiguous
    least le_bytes
up_to = refl

store_all-last_contiguous_seq_example : contains 1 (intact counter arrived) ≡ true
store_all-last_contiguous_seq_example =
    store_all-last_contiguous_seq counter arrived 1 1 idle (omega arith) arrived-AllFit
      (omega arith) (omega (arith, up_to))

-- Number 2 is given up, and number 4 is still requested.
requested : (get_missing_sequences 100003 after_all).0 ≡ 4 ∷ []
unfolding get_missing_sequences expired give_up sort place remove insert store_all store note
    missing_after keep update_last_contiguous track track_one contains activate Receive.new
    verify_interrupt_checksum compute_interrupt_checksum untrack contiguous least le_bytes
requested = refl

get_missing_sequences-store_all_example :
    let (requested, b) = get_missing_sequences 100003 after_all in
    Sorted requested
    × (contains 2 requested ≡ (
        contains 2 after_all.missing_sequences
        && not (too_late 100003 after_all.nack_timeout_us (lookup 2 after_all.missing_timestamps))))
    × (contains 2 b.missing_sequences ≡ contains 2 requested)
get_missing_sequences-store_all_example =
    get_missing_sequences-store_all counter arrived 1 100003 2 idle

abbrev first : AdaptiveJitterBuffer
first = with_config 1000 50000 2000 16 2

abbrev seen : List (ℕ × ℕ)
seen = (0, 100) ∷ (1000, 5100) ∷ (2000, 6100) ∷ []

abbrev warm : AdaptiveJitterBuffer
warm = arrivals seen first

-- The third packet came as regularly as it was sent, and yet the jitter has grown.
grown : (arrivals ((0, 100) ∷ (1000, 5100) ∷ []) first).jitter_us ≡ 250
unfolding arrivals record_arrival with_config Jitter.new_jitter Jitter.distance
grown = refl

warm_jitter : (warm.jitter_us ≡ 265) × (warm.packets_processed ≡ 3)
unfolding arrivals record_arrival with_config Jitter.new_jitter Jitter.distance
warm_jitter = (refl, refl)

record_arrival-jitter_us_example : warm.jitter_us ≤ (record_arrival 3000 7100 warm).1.jitter_us
record_arrival-jitter_us_example =
    record_arrival-jitter_us 3000 7100 warm (λ e. absurd (omega (arith, e, warm_jitter.1)))
      (omega (arith, warm_jitter.0)) (omega arith) (omega arith)
