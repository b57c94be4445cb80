-- ===== src/Rate/Tests.antt =====
-- Calls on a limiter of 100 bytes per second in all, and 50 for a client.
use rust_p2p_usb.Rate.Units.{parse_bandwidth, parse_in, strip_suffix, after_prefix}
use rust_p2p_usb.Rate.Metrics.{record_all, new_tracker}
use rust_p2p_usb.Base.{
  codes, trim, trim_start, parse, digits_from, ℕ, ◌+◌, ◌*◌, ◌-◌, ◌/◌, ◌≤◌, ltb, leb, if◌then◌else◌,
  ◌≡◌, refl, arith, All, false, none, some, List, [], ◌∷◌, lookup, insert,
}
use rust_p2p_usb.Rate.{
  BandwidthLimit, RateLimiter, Doubles, Clock, new, new_bucket, try_acquire, check, wait, wait_time,
  wait_at, consume_global, consume_at, refund, refund_at, refill, try_consume,
}
use rust_p2p_usb.Rate.Admitted.{Call, run, every, Between, run_bound}
use rust_p2p_usb.Rate.PerClient.{is_of, run_bound_client}
use rust_p2p_usb.Rate.Rounding.{Rounds, a_second, parts, parts_more}
use rust_p2p_usb.Rate.Bucket.{IsExact}

abbrev in_all : BandwidthLimit
in_all = record { bytes_per_second = 100; burst_bytes = 100 }

abbrev each : BandwidthLimit
each = record { bytes_per_second = 50; burst_bytes = 50 }

-- Numbers in billionths, rounded down.
abbrev billionths : Doubles
billionths = record {
  F64 = ℕ;
  of_u64 = λ n. n * 1000000000;
  as_secs_f64 = λ nanos. nanos;
  from_secs_f64 = λ x. some x;
  zero = 0;
  add = λ a b. a + b;
  sub = λ a b. a - b;
  mul = λ a b. a * b / 1000000000;
  div = λ a b. a * 1000000000 / b;
  min = λ a b. if leb a b then a else b;
  max = λ a b. if leb a b then b else a;
  gt = λ a b. ltb b a;
  ge = λ a b. leb b a;
}

gained : (rate nanos : ℕ) → rate * 1000000000 * nanos / 1000000000 ≡ rate * nanos
gained rate nanos =
    let same : rate * 1000000000 * nanos ≡ rate * nanos * 1000000000 = omega arith in
    omega (arith, same)

billionths-Rounds : Rounds billionths
billionths-Rounds = record {
  value = λ x. x;
  one = 1000000000;
  positive = omega arith;
  whole = λ n small. refl;
  add_above = λ a b. omega arith;
  sub_above = λ a n small finite enough. ground arith;
  sub_below = λ a n small finite enough. omega arith;
  min_left = λ a b. ground arith;
  min_right = λ a b. ground arith;
  gain_above = λ rate nanos r n. let same = gained rate nanos in omega (arith, same);
  no_time = refl;
}

abbrev start : RateLimiter ℕ
start = new billionths 0 (some in_all) (some each) none

abbrev at : ℕ → Clock
at t = record { at_global = t; at_client = t; at_device = t; refund_global = t; refund_client = t }

abbrev ask : ℕ → ℕ → ℕ → Call
ask t client bytes = record { clock = at t; client = some client; device = none; bytes = bytes }

abbrev asked : List Call
asked = ask 0 1 40 ∷ ask 0 1 40 ∷ ask 0 2 50 ∷ ask 500000000 1 30 ∷ []

-- The second call is refused for the client, the others are let through.
total : (run billionths every asked start).0 ≡ 120
unfolding run try_acquire consume_global consume_at refund refund_at refill try_consume new
    new_bucket lookup insert
total = refl

asked-Between : All (Between 0 500000000) asked
asked-Between = omega arith

in_all-IsExact : IsExact in_all
in_all-IsExact = record { burst = omega arith; rate = omega arith }

each-IsExact : IsExact each
each-IsExact = record { burst = omega arith; rate = omega arith }

run_bound_example :
    (run billionths every asked start).0 * (a_second * parts)
    ≤ 100 * (a_second * parts) + 100 * (500000000 - 0) * parts_more + 4 * 4 * 100 * a_second
run_bound_example =
    run_bound billionths billionths-Rounds in_all (some each) none 0 500000000 asked in_all-IsExact
      (omega arith) (omega arith) asked-Between

run_bound_client_example :
    (run billionths (is_of 1) asked start).0 * (a_second * parts)
    ≤ 50 * (a_second * parts) + 50 * (500000000 - 0) * parts_more + 4 * 4 * 50 * a_second
run_bound_client_example =
    run_bound_client billionths billionths-Rounds each (some in_all) none 0 500000000 1 asked
      each-IsExact (omega arith) asked-Between

-- A request above the burst waits in vain: it is told a wait, and refused after it.
waits : (check billionths (at 0) (some 1) none 60 start).0 ≡ some (wait 200000000)
unfolding check wait_at wait_time refill new new_bucket lookup insert
waits = refl

in_vain : (try_acquire billionths (at 900000000000) (some 1) none 60 start).0 ≡ false
unfolding try_acquire consume_global consume_at refund refund_at refill try_consume new new_bucket
    lookup insert
in_vain = refl

bits_and_bytes :
    (parse_bandwidth (codes "100Mbps") ≡ some 12500000)
    × ((parse_bandwidth (codes " 50 MB/s") ≡ some 50000000)
        × (parse_bandwidth (codes "fast") ≡ none))
unfolding parse_bandwidth parse_in strip_suffix after_prefix trim trim_start parse digits_from
bits_and_bytes = (refl, (refl, refl))

-- A rate beyond 64 bits wraps, here to nothing.
wrapped : parse_bandwidth (codes "2305843009213693952kb/s") ≡ some 0
unfolding parse_bandwidth parse_in strip_suffix after_prefix trim trim_start parse digits_from
wrapped = refl

second_by_second :
    (record_all 1500000000 1500000000 1500000000
      (some 1)
      none
      70
      (record_all 0 0 0 (some 1) none 30 new_tracker)).global
    ≡ record {
      total_bytes = 100;
      bytes_per_second = 70;
      rate_limited_count = 0;
      last_update = some 1500000000;
    }
unfolding record_all new_tracker
second_by_second = refl
