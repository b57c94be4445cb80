-- ===== src/Health/Tests.antt =====
-- Heartbeats that are acknowledged and that fail, with ratios in hundredths.
use rust_p2p_usb.Base.{
  ℕ, ◌-◌, ◌*◌, ◌/◌, ◌≡◌, refl, arith, ltb, List, [], ◌∷◌, lookup, insert, remove,
}
use rust_p2p_usb.Health.{
  Floats, HealthMonitor, connected, disconnected, new, prepare_heartbeat, process_heartbeat_ack,
  update_state, get_metrics, calculate_state, calculate_quality, packet_loss_of, sum,
}
use rust_p2p_usb.Health.States.{record_failures, record_failures-state}

abbrev hundredths : Floats
hundredths = record {
  F64 = ℕ;
  of_u64 = λ n. n * 100;
  sub = λ a b. a - b;
  div = λ a b. a * 100 / b;
  gt = λ a b. ltb b a;
  zero = 0;
  one = 100;
  degraded_threshold = 20;
}

abbrev sent : HealthMonitor
sent = (prepare_heartbeat 1000 2000000000 new).1

abbrev acked : HealthMonitor
acked = (process_heartbeat_ack hundredths 2040000000 1040 2040000100 2040000200 0 1000 sent).1

acked_connected : acked.state ≡ connected
unfolding process_heartbeat_ack update_state get_metrics calculate_state calculate_quality
    packet_loss_of prepare_heartbeat new sum lookup insert remove
acked_connected = refl

abbrev failures : List (ℕ × ℕ)
failures = (5, 6) ∷ (7, 8) ∷ (9, 10) ∷ []

record_failures-state_example : (record_failures hundredths failures sent).state ≡ disconnected
unfolding prepare_heartbeat new
record_failures-state_example =
    record_failures-state hundredths failures sent (omega arith) (omega arith)
