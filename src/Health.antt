-- ===== src/Health.antt =====
-- The health of a client's connection: crates/client/src/network/health.rs. An instant is a number
-- of nanoseconds and an argument of the calls that read the clock. The ratio of lost heartbeats is
-- an `f64`: its operations are a parameter.
pub mod States
mod Tests
use rust_p2p_usb.Base.{
  ℕ, ◌+◌, ◌-◌, ◌/◌, ◌%◌, ◌^◌, ◌*◌, min, max, Bool, true, false, not, ◌||◌, Option, none, some, List,
  [], ◌∷◌, ◌++◌, Map, lookup, insert, remove, length, tail, leb, ltb, ◌==◌, if◌then◌else◌,
}

-- The arithmetic of the hardware on `f64`.
pub record Floats : Type 1 where
  pub F64 : Type 0
  pub of_u64 : ℕ → F64
  pub sub : F64 → F64 → F64
  pub div : F64 → F64 → F64
  pub gt : F64 → F64 → Bool
  pub zero : F64
  pub one : F64
  pub degraded_threshold : F64

pub data ConnectionQuality : Type 0 where
  good fair poor unknown : ConnectionQuality

pub data HealthState : Type 0 where
  connecting connected degraded disconnected : HealthState

pub record HealthMonitor : Type 0 where
  pub rtt_samples : List ℕ
  pub sequence : ℕ
  pub heartbeats_sent : ℕ
  pub heartbeats_received : ℕ
  pub state : HealthState
  pub last_heartbeat : Option ℕ
  pub consecutive_failures : ℕ
  pub pending_heartbeats : Map ℕ

abbrev pub as_u64 : ℕ → ℕ
as_u64 n = n % 2 ^ 64

unfoldable pub sum : List ℕ → ℕ
sum [] = 0
sum (n ∷ ns) = n + sum ns

abbrev pub rtt_sample_count : ℕ
rtt_sample_count = 10

abbrev pub heartbeat_timeout : ℕ
heartbeat_timeout = 15 * 1000000000

abbrev pub as_millis : ℕ → ℕ
as_millis ns = ns / 1000000

unfoldable pub new : HealthMonitor
new = record {
  rtt_samples = [];
  sequence = 0;
  heartbeats_sent = 0;
  heartbeats_received = 0;
  state = connecting;
  last_heartbeat = none;
  consecutive_failures = 0;
  pending_heartbeats = [];
}

-- Returns the number and the time stamp of the heartbeat, of the clock in milliseconds.
unfoldable pub prepare_heartbeat : ℕ → ℕ → HealthMonitor → (ℕ × ℕ) × HealthMonitor
prepare_heartbeat timestamp_ms now m = (
  (m.sequence, timestamp_ms),
  record m {
    sequence = as_u64 (m.sequence + 1);
    pending_heartbeats = insert m.sequence now m.pending_heartbeats;
    heartbeats_sent = as_u64 (m.heartbeats_sent + 1);
  },
)

-- `samples.back()`, or `last` if there is none
unfoldable pub latest : ℕ → List ℕ → ℕ
latest last [] = last
latest last (n ∷ ns) = latest n ns

unfoldable pub least : ℕ → List ℕ → ℕ
least low [] = low
least low (n ∷ ns) = least (min low n) ns

unfoldable pub greatest : ℕ → List ℕ → ℕ
greatest high [] = high
greatest high (n ∷ ns) = greatest (max high n) ns

abbrev pub of_samples : (ℕ → List ℕ → ℕ) → List ℕ → Option ℕ
of_samples f [] = none
of_samples f (n ∷ ns) = some (f n ns)

-- A sum of `u64`, in which the round trips of a few heartbeats have room.
abbrev pub average : ℕ → List ℕ → ℕ
average n ns = as_u64 (sum (n ∷ ns)) / length (n ∷ ns)

pub record HealthMetrics (F : Type 0) : Type 0 where
  pub state : HealthState
  pub quality : ConnectionQuality
  pub latest_rtt_ms : Option ℕ
  pub average_rtt_ms : Option ℕ
  pub min_rtt_ms : Option ℕ
  pub max_rtt_ms : Option ℕ
  pub packet_loss : F
  pub heartbeats_sent : ℕ
  pub heartbeats_received : ℕ
  pub time_since_last_heartbeat : Option ℕ
  pub consecutive_failures : ℕ

abbrev pub since : ℕ → Option ℕ → Option ℕ
since now none = none
since now (some t) = some (now - t)

abbrev pub longer_than_timeout : Option ℕ → Bool
longer_than_timeout none = false
longer_than_timeout (some elapsed) = ltb heartbeat_timeout elapsed

abbrev pub is_poor : ConnectionQuality → Bool
is_poor poor = true
is_poor good = false
is_poor fair = false
is_poor unknown = false

module _ (fl : Floats) where
  unfoldable pub calculate_quality : Option ℕ → fl.F64 → ConnectionQuality
  calculate_quality avg_rtt_ms packet_loss =
      if fl.gt packet_loss fl.degraded_threshold then poor else elim avg_rtt_ms [
        | none ↦ unknown
        | some rtt ↦ if ltb rtt 50 then good else if ltb rtt 150 then fair else poor
      ]

  unfoldable pub packet_loss_of : ℕ → ℕ → fl.F64
  packet_loss_of sent received =
      if ltb 0 sent then fl.sub fl.one (fl.div (fl.of_u64 received) (fl.of_u64 sent)) else fl.zero

  unfoldable pub get_metrics : ℕ → HealthMonitor → HealthMetrics fl.F64
  unfolding calculate_quality packet_loss_of
  get_metrics now m =
      let packet_loss = packet_loss_of m.heartbeats_sent m.heartbeats_received in
      let average_rtt_ms = of_samples average m.rtt_samples in
      record {
        state = m.state;
        quality = calculate_quality average_rtt_ms packet_loss;
        latest_rtt_ms = of_samples latest m.rtt_samples;
        average_rtt_ms = average_rtt_ms;
        min_rtt_ms = of_samples least m.rtt_samples;
        max_rtt_ms = of_samples greatest m.rtt_samples;
        packet_loss = packet_loss;
        heartbeats_sent = m.heartbeats_sent;
        heartbeats_received = m.heartbeats_received;
        time_since_last_heartbeat = since now m.last_heartbeat;
        consecutive_failures = m.consecutive_failures;
      }

  unfoldable pub calculate_state : HealthMetrics fl.F64 → HealthState
  calculate_state metrics =
      if longer_than_timeout metrics.time_since_last_heartbeat
      then disconnected
      else if leb 3 metrics.consecutive_failures
      then disconnected
      else if metrics.heartbeats_received == 0
      then connecting
      else if is_poor metrics.quality
          || (fl.gt metrics.packet_loss fl.degraded_threshold || leb 1 metrics.consecutive_failures)
      then degraded
      else connected

  unfoldable pub update_state : ℕ → HealthMonitor → HealthMonitor
  unfolding get_metrics calculate_state
  update_state now m = record m { state = calculate_state (get_metrics now m) }

  abbrev pub rtt_of : ℕ → ℕ → ℕ → Option ℕ → ℕ
  rtt_of now timestamp_ms client_timestamp_ms none = timestamp_ms - client_timestamp_ms
  rtt_of now timestamp_ms client_timestamp_ms (some send_time) =
      as_u64 (as_millis (now - send_time))

  -- The clock is read for the round trip (`now`, or `timestamp_ms` where the heartbeat is not
  -- known), for the time of the heartbeat (`at`), and when the state is computed (`later`).
  unfoldable pub process_heartbeat_ack :
      ℕ → ℕ → ℕ → ℕ → ℕ → ℕ → HealthMonitor → Option ℕ × HealthMonitor
  unfolding update_state
  process_heartbeat_ack now timestamp_ms at later sequence client_timestamp_ms m =
      let rtt_ms =
        rtt_of now timestamp_ms client_timestamp_ms (lookup sequence m.pending_heartbeats) in
      let samples =
        if leb rtt_sample_count (length m.rtt_samples) then tail m.rtt_samples else m.rtt_samples in
      (
        some rtt_ms,
        update_state later (record m {
          pending_heartbeats = remove sequence m.pending_heartbeats;
          rtt_samples = samples ++ rtt_ms ∷ [];
          last_heartbeat = some at;
          consecutive_failures = 0;
          heartbeats_received = as_u64 (m.heartbeats_received + 1);
        }),
      )

  -- The heartbeats that were sent after `now - HEARTBEAT_TIMEOUT`, an instant that may come before
  -- the clock's first.
  unfoldable pub sent_after : ℕ → Map ℕ → Map ℕ
  sent_after now [] = []
  sent_after now ((seq, time) ∷ rest) =
      if ltb now (time + heartbeat_timeout)
      then (seq, time) ∷ sent_after now rest
      else sent_after now rest

  -- The count of failures is a `u32`.
  unfoldable pub record_failure : ℕ → ℕ → HealthMonitor → HealthMonitor
  unfolding update_state sent_after
  record_failure now later m = update_state later (record m {
    consecutive_failures = (m.consecutive_failures + 1) % 2 ^ 32;
    pending_heartbeats = sent_after now m.pending_heartbeats;
  })

unfoldable pub is_healthy : HealthMonitor → Bool
is_healthy m = elim m.state [
  | disconnected ↦ false
  | connecting ↦ true
  | connected ↦ true
  | degraded ↦ true
]

unfoldable pub is_timed_out : ℕ → HealthMonitor → Bool
is_timed_out now m = elim m.last_heartbeat [
  | some time ↦ ltb heartbeat_timeout (now - time)
  | none ↦ leb 3 m.consecutive_failures
]

-- The counts of heartbeats and the next number are kept.
unfoldable pub reset : HealthMonitor → HealthMonitor
reset m = record m {
  rtt_samples = [];
  state = connecting;
  last_heartbeat = none;
  consecutive_failures = 0;
  pending_heartbeats = [];
}
