-- ===== src/Interrupt/Jitter.antt =====
-- `AdaptiveJitterBuffer` of crates/client/src/virtual_usb/interrupt_receive_buffer.rs: the delay
-- that a report waits before it is served. Times are in microseconds.
use rust_p2p_usb.Base.{
  ℕ, ◌+◌, ◌*◌, ◌-◌, ◌/◌, ◌^◌, ◌≤◌, ◌<◌, ◌≡◌, ◌≢◌, refl, max, min, Bool, List, [], ◌∷◌, arith, ltb,
  leb, ◌==◌, if◌then◌else◌,
}
use rust_p2p_usb.Interrupt.{as_u64}

pub record AdaptiveJitterBuffer : Type 0 where
  pub min_delay_us : ℕ
  pub max_delay_us : ℕ
  pub current_delay_us : ℕ
  pub jitter_us : ℕ
  pub last_arrival_us : ℕ
  pub last_packet_ts_us : ℕ
  pub smoothing_factor : ℕ
  pub jitter_multiplier : ℕ
  pub base_delay_us : ℕ
  pub packets_processed : ℕ

unfoldable pub with_config : ℕ → ℕ → ℕ → ℕ → ℕ → AdaptiveJitterBuffer
with_config min_delay_us max_delay_us base_delay_us smoothing_factor jitter_multiplier = record {
  min_delay_us = min_delay_us;
  max_delay_us = max_delay_us;
  current_delay_us = base_delay_us;
  jitter_us = 0;
  last_arrival_us = 0;
  last_packet_ts_us = 0;
  smoothing_factor = min (max smoothing_factor 1) 256;
  jitter_multiplier = jitter_multiplier;
  base_delay_us = base_delay_us;
  packets_processed = 0;
}

-- The larger of two numbers less the smaller.
unfoldable pub distance : ℕ → ℕ → ℕ
distance a b = if ltb b a then a - b else b - a

unfoldable pub new_jitter : ℕ → ℕ → ℕ → ℕ
unfolding distance
new_jitter smoothing_factor old_jitter transit_diff =
    as_u64 (old_jitter + distance transit_diff old_jitter / smoothing_factor)

-- Returns the delay beside the state.
unfoldable pub record_arrival : ℕ → ℕ → AdaptiveJitterBuffer → ℕ × AdaptiveJitterBuffer
unfolding new_jitter distance
record_arrival packet_timestamp_us arrival_time_us j =
    let seen : AdaptiveJitterBuffer = record j {
      packets_processed = as_u64 (j.packets_processed + 1);
      last_arrival_us = arrival_time_us;
      last_packet_ts_us = packet_timestamp_us;
    } in
    let arrival_diff = arrival_time_us - j.last_arrival_us in
    let packet_diff = packet_timestamp_us - j.last_packet_ts_us in
    let jitter = new_jitter j.smoothing_factor j.jitter_us (distance arrival_diff packet_diff) in
    let target = as_u64 (j.base_delay_us + as_u64 (jitter * j.jitter_multiplier)) in
    let clamped = min (max target j.min_delay_us) j.max_delay_us in
    if j.packets_processed == 0
    then (j.current_delay_us, seen)
    else (clamped, record seen { jitter_us = jitter; current_delay_us = clamped })

unfoldable pub should_serve : ℕ → ℕ → AdaptiveJitterBuffer → Bool
should_serve packet_arrival_us current_time_us j =
    leb j.current_delay_us (current_time_us - packet_arrival_us)

unfoldable pub reset : AdaptiveJitterBuffer → AdaptiveJitterBuffer
reset j = record j {
  jitter_us = 0;
  current_delay_us = j.base_delay_us;
  last_arrival_us = 0;
  last_packet_ts_us = 0;
  packets_processed = 0;
}

-- Arrivals in order: the time stamp of each packet, and when it came.
unfoldable pub arrivals : List (ℕ × ℕ) → AdaptiveJitterBuffer → AdaptiveJitterBuffer
arrivals [] j = j
arrivals ((packet_timestamp_us, arrival_time_us) ∷ more) j =
    arrivals more (record_arrival packet_timestamp_us arrival_time_us j).1

-- The delay is within its limits, which stand in order.
record Clamped (low high : ℕ) (j : AdaptiveJitterBuffer) : Type 0 where
  low_kept : j.min_delay_us ≡ low
  high_kept : j.max_delay_us ≡ high
  above : low ≤ j.current_delay_us
  below : j.current_delay_us ≤ high

record_arrival-Clamped :
    (low high ts at : ℕ) (j : AdaptiveJitterBuffer)
    → low ≤ high
    → Clamped low high j
    → Clamped low high (record_arrival ts at j).1
unfolding record_arrival
record_arrival-Clamped low high ts at j ordered v = record {
  low_kept = ground (arith, v.low_kept);
  high_kept = ground (arith, v.high_kept);
  above = ground (arith, v.low_kept, v.high_kept, v.above);
  below = ground (arith, v.low_kept, v.high_kept, v.below);
}

arrivals-Clamped :
    (low high : ℕ) (seen : List (ℕ × ℕ)) (j : AdaptiveJitterBuffer)
    → low ≤ high
    → Clamped low high j
    → Clamped low high (arrivals seen j)
unfolding arrivals
arrivals-Clamped low high [] j ordered v = v
arrivals-Clamped low high ((ts, at) ∷ more) j ordered v =
    arrivals-Clamped low high more (record_arrival ts at j).1 ordered
      (record_arrival-Clamped low high ts at j ordered v)

-- If the base delay is within the limits, the delay is so after any arrivals.
pub arrivals-current_delay_us :
    (low high base smoothing multiplier : ℕ) (seen : List (ℕ × ℕ))
    → low ≤ base
    → base ≤ high
    → let j = arrivals seen (with_config low high base smoothing multiplier) in
      (low ≤ j.current_delay_us) × (j.current_delay_us ≤ high)
unfolding with_config
arrivals-current_delay_us low high base smoothing multiplier seen from upto =
    let start : Clamped low high (with_config low high base smoothing multiplier) = record {
      low_kept = refl;
      high_kept = refl;
      above = from;
      below = upto;
    } in
    let v = arrivals-Clamped low high seen _ (omega arith) start in (v.above, v.below)

-- Of a packet after the first one, with a jitter and times below 2^62: the jitter does not fall,
-- however regularly the packets come.
pub record_arrival-jitter_us :
    (ts at : ℕ) (j : AdaptiveJitterBuffer)
    → j.packets_processed ≢ 0
    → j.jitter_us < 2 ^ 62
    → ts < 2 ^ 62
    → at < 2 ^ 62
    → j.jitter_us ≤ (record_arrival ts at j).1.jitter_us
unfolding record_arrival new_jitter distance
record_arrival-jitter_us ts at j later small early soon = ground arith
