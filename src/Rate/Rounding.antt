-- ===== src/Rate/Rounding.antt =====
-- What the limiter relies on of `f64` (IEEE 754, rounding to the nearest): the exact value of a
-- result, and how far a rounded one may lie above it.
use rust_p2p_usb.Base.{ℕ, ◌+◌, ◌*◌, ◌^◌, ◌≤◌, ◌<◌, ◌≡◌, true, false}
use rust_p2p_usb.Rate.{Doubles}

-- A second in nanoseconds.
abbrev pub a_second : ℕ
a_second = 1000000000

-- 2 ^ 50 and one more: a result is above the exact one by a part in 2 ^ 50 at most (an operation of
-- IEEE 754 is so by a part in 2 ^ 53, and a gain comes from at most four).
abbrev pub parts : ℕ
parts = 1125899906842624

abbrev pub parts_more : ℕ
parts_more = 1125899906842625

-- `value` is a number's distance above 0, in steps of which `one` make 1 (0 for a negative number;
-- that of infinity, and what stands for it where a result is not a number, is beyond every finite
-- one's).
pub record Rounds (fl : Doubles) : Type 0 where
  pub value : fl.F64 → ℕ
  pub one : ℕ
  pub positive : 0 < one
  -- A whole number below 2 ^ 53 is exact.
  pub whole : (n : ℕ) → n < 2 ^ 53 → value (fl.of_u64 n) ≡ n * one
  pub add_above : (a b : fl.F64) → value (fl.add a b) * parts ≤ (value a + value b) * parts_more
  -- What is taken from a finite amount that is at least as much.
  pub sub_above :
      (a : fl.F64) (n : ℕ)
      → n < 2 ^ 53
      → value a ≤ 2 ^ 53 * one
      → fl.ge a (fl.of_u64 n) ≡ true
      → value (fl.sub a (fl.of_u64 n)) * parts + n * one * parts_more ≤ value a * parts_more
  pub sub_below :
      (a : fl.F64) (n : ℕ)
      → n < 2 ^ 53
      → value a ≤ 2 ^ 53 * one
      → fl.ge a (fl.of_u64 n) ≡ true
      → value (fl.sub a (fl.of_u64 n)) ≤ value a
  pub min_left : (a b : fl.F64) → value (fl.min a b) ≤ value a
  pub min_right : (a b : fl.F64) → value (fl.min a b) ≤ value b
  -- A rate for a span of time.
  pub gain_above :
      (rate nanos : ℕ)
      → rate < 2 ^ 64
      → nanos < 2 ^ 64
      → value (fl.mul (fl.of_u64 rate) (fl.as_secs_f64 nanos)) * a_second * parts
        ≤ rate * nanos * one * parts_more
  pub no_time : fl.gt (fl.as_secs_f64 0) fl.zero ≡ false
