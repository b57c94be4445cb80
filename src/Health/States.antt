-- ===== src/Health/States.antt =====
-- The states of the connection that acknowledged and failed heartbeats lead to.
use rust_p2p_usb.Base.{ℕ, ◌+◌, ◌^◌, ◌≤◌, ◌<◌, ◌≡◌, ◌⊎◌, List, [], ◌∷◌, length, arith}
use rust_p2p_usb.Health.{
  Floats, HealthMonitor, connected, degraded, disconnected, heartbeat_timeout, get_metrics,
  calculate_state, update_state, process_heartbeat_ack, record_failure,
}

-- If the state is computed within the timeout after the heartbeat's time, and fewer than 2^64 - 1
-- heartbeats were received: an acknowledged heartbeat leaves the connection connected or degraded.
pub process_heartbeat_ack-state :
    (fl : Floats) (now timestamp_ms at later sequence client_timestamp_ms : ℕ) (m : HealthMonitor)
    → later ≤ at + heartbeat_timeout
    → m.heartbeats_received + 1 < 2 ^ 64
    → let after =
        (process_heartbeat_ack fl now timestamp_ms at later sequence client_timestamp_ms m).1 in
      (after.state ≡ connected) ⊎ (after.state ≡ degraded)
unfolding process_heartbeat_ack update_state get_metrics calculate_state
process_heartbeat_ack-state fl now timestamp_ms at later sequence client_timestamp_ms m soon few =
    ground arith

-- Failures, each with the two times of its call.
unfoldable pub record_failures : Floats → List (ℕ × ℕ) → HealthMonitor → HealthMonitor
record_failures fl [] m = m
record_failures fl ((now, later) ∷ more) m = record_failures fl more (record_failure fl now later m)

record_failure-state :
    (fl : Floats) (now later : ℕ) (m : HealthMonitor)
    → 2 ≤ m.consecutive_failures
    → m.consecutive_failures + 1 < 2 ^ 32
    → (record_failure fl now later m).state ≡ disconnected
unfolding record_failure update_state get_metrics calculate_state
record_failure-state fl now later m two few = ground arith

record_failure-consecutive_failures :
    (fl : Floats) (now later : ℕ) (m : HealthMonitor)
    → m.consecutive_failures + 1 < 2 ^ 32
    → (record_failure fl now later m).consecutive_failures ≡ m.consecutive_failures + 1
unfolding record_failure update_state
record_failure-consecutive_failures fl now later m few = omega arith

record_failures_from :
    (fl : Floats) (now later : ℕ) (more : List (ℕ × ℕ)) (m : HealthMonitor)
    → 2 ≤ m.consecutive_failures + length more
    → m.consecutive_failures + length more + 1 < 2 ^ 32
    → (record_failures fl more (record_failure fl now later m)).state ≡ disconnected
unfolding record_failures
record_failures_from fl now later [] m two few =
    record_failure-state fl now later m (omega arith) (omega arith)
record_failures_from fl now later ((n, l) ∷ more) m two few =
    let one = record_failure-consecutive_failures fl now later m (omega arith) in
    record_failures_from fl n l more (record_failure fl now later m) (omega (arith, one))
      (omega (arith, one))

-- After three or more failures in a row, in whatever state, the connection counts as disconnected,
-- as long as the count of failures stays below 2^32.
pub record_failures-state :
    (fl : Floats) (calls : List (ℕ × ℕ)) (m : HealthMonitor)
    → 3 ≤ length calls
    → m.consecutive_failures + length calls < 2 ^ 32
    → (record_failures fl calls m).state ≡ disconnected
unfolding record_failures
record_failures-state fl [] m three few = absurd (omega arith)
record_failures-state fl ((now, later) ∷ more) m three few =
    record_failures_from fl now later more m (omega arith) (omega arith)
