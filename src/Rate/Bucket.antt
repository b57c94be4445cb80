-- ===== src/Rate/Bucket.antt =====
-- What a bucket gives away within a span of time, with each result rounded.
use rust_p2p_usb.Base.{
  ℕ, ◌+◌, ◌*◌, ◌-◌, ◌^◌, ◌≤◌, ◌<◌, ◌≡◌, refl, ap, inl, inr, Bool, true, false, Bool-cases, arith,
  ltb,
}
use rust_p2p_usb.Rate.{
  BandwidthLimit, TokenBucket, Doubles, new_bucket, refill, try_consume, refund,
}
use rust_p2p_usb.Rate.Rounding.{Rounds, a_second, parts, parts_more}

-- A limit whose burst is exact and whose rate is a `u64`.
pub record IsExact (limit : BandwidthLimit) : Type 0 where
  pub burst : limit.burst_bytes < 2 ^ 53
  pub rate : limit.bytes_per_second < 2 ^ 64

-- The bytes that a step took.
abbrev pub taken : Bool → ℕ → ℕ
taken true bytes = bytes
taken false bytes = 0

-- A refill for one span after another is one for both.
span :
    (r start last now one : ℕ)
    → start ≤ last
    → last ≤ now
    → r * (last - start) * one + r * (now - last) * one ≡ r * (now - start) * one
span r start last now one h k =
    let both : r * (last - start) + r * (now - last) ≡ r * (now - start) = grind arith in
    let scaled = ap (λ (x : ℕ). x * one) both in omega (arith, scaled)

module _ (fl : Doubles) (rounds : Rounds fl) (limit : BandwidthLimit) (start stop : ℕ) where
  -- From `start` on the bucket has given away `spent` bytes, at most what it held and was refilled
  -- with, and for each of `count` steps one part in 2 ^ 50 of the burst; it was last refilled by
  -- `stop`.
  pub record Within (count spent : ℕ) (b : TokenBucket fl.F64) : Type 0 where
    pub full : b.max_tokens ≡ fl.of_u64 limit.burst_bytes
    pub rate : b.refill_rate ≡ fl.of_u64 limit.bytes_per_second
    pub started : start ≤ b.last_refill
    pub stopped : b.last_refill ≤ stop
    pub held : rounds.value b.tokens ≤ limit.burst_bytes * rounds.one
    pub given :
        (spent * rounds.one + rounds.value b.tokens) * a_second * parts
        ≤ limit.burst_bytes * rounds.one * a_second * parts
          + limit.bytes_per_second * (b.last_refill - start) * rounds.one * parts_more
          + count * (limit.burst_bytes * rounds.one) * a_second

  pub more-Within :
      (n m spent : ℕ) (b : TokenBucket fl.F64) → n ≤ m → Within n spent b → Within m spent b
  more-Within n m spent b le v =
      let grown : n * (limit.burst_bytes * rounds.one) ≤ m * (limit.burst_bytes * rounds.one) =
        grind arith in
      record {
        full = v.full;
        rate = v.rate;
        started = v.started;
        stopped = v.stopped;
        held = v.held;
        given = omega (arith, v.given, grown);
      }

  -- What is added up to the burst.
  bounded_add :
      (t g : fl.F64)
      → IsExact limit
      → let sum = fl.min (fl.add t g) (fl.of_u64 limit.burst_bytes) in
        (rounds.value sum ≤ limit.burst_bytes * rounds.one)
        × (rounds.value sum * parts
            ≤ (rounds.value t + rounds.value g) * parts + limit.burst_bytes * rounds.one)
  bounded_add t g exact =
      let most = fl.of_u64 limit.burst_bytes in
      let up : rounds.value most ≡ limit.burst_bytes * rounds.one =
        rounds.whole limit.burst_bytes exact.burst in
      let left = rounds.min_left (fl.add t g) most in
      let right = rounds.min_right (fl.add t g) most in
      let above = rounds.add_above t g in
      (omega (arith, up, right), omega (arith, up, left, right, above))

  refill-Within :
      (count spent now : ℕ) (b : TokenBucket fl.F64)
      → IsExact limit
      → stop < 2 ^ 64
      → now ≤ stop
      → Within count spent b
      → Within (count + 1) spent (refill fl now b)
  unfolding refill
  refill-Within count spent now b exact soon before v =
      let elapsed = fl.as_secs_f64 (now - b.last_refill) in
      elim (Bool-cases (fl.gt elapsed fl.zero)) [
        | inr still ↦ rw still (more-Within count (count + 1) spent b (omega arith) v)
        | inl later ↦ elim (Bool-cases (ltb b.last_refill now)) [
          | inr backward ↦
              let none_passed : now - b.last_refill ≡ 0 = ground arith in
              absurd (impossible (rw none_passed at later) rounds.no_time)
          | inl forward ↦
              let after : b.last_refill ≤ now = ground arith in
              let e =
                span limit.bytes_per_second start b.last_refill now rounds.one v.started after in
              let gain =
                rounds.gain_above limit.bytes_per_second (now - b.last_refill) exact.rate
                  (omega arith) in
              let sum =
                bounded_add b.tokens (fl.mul (fl.of_u64 limit.bytes_per_second) elapsed) exact in
              rw (later, v.full, v.rate)
                (record {
                  full = refl;
                  rate = refl;
                  started = omega (arith, v.started);
                  stopped = before;
                  held = sum.0;
                  given = omega (arith, v.given, e, gain, sum.1);
                })
        ]
      ]
    where
      impossible : {x : Bool} → x ≡ true → x ≡ false → ⊥
      impossible t n = cc

  pub new_bucket-Within :
      (now : ℕ) → IsExact limit → start ≤ now → now ≤ stop → Within 0 0 (new_bucket fl now limit)
  unfolding new_bucket
  new_bucket-Within now exact from upto =
      let up : rounds.value (fl.of_u64 limit.burst_bytes) ≡ limit.burst_bytes * rounds.one =
        rounds.whole limit.burst_bytes exact.burst in
      record {
        full = refl;
        rate = refl;
        started = from;
        stopped = upto;
        held = omega (arith, up);
        given = omega (arith, up);
      }

  pub try_consume-Within :
      (count spent now bytes : ℕ) (b : TokenBucket fl.F64)
      → IsExact limit
      → stop < 2 ^ 64
      → now ≤ stop
      → bytes < 2 ^ 53
      → Within count spent b
      → let (done, after) = try_consume fl now bytes b in
        Within (count + 2) (spent + taken done bytes) after
  unfolding try_consume
  try_consume-Within count spent now bytes b exact soon before small v =
      let r = refill fl now b in
      let w : Within (count + 1) spent r = refill-Within count spent now b exact soon before v in
      elim (Bool-cases (fl.ge r.tokens (fl.of_u64 bytes))) [
        | inl enough ↦
            let finite : rounds.value r.tokens ≤ 2 ^ 53 * rounds.one =
              finite_held (rounds.value r.tokens) exact.burst w.held in
            let above = rounds.sub_above r.tokens bytes small finite enough in
            let below = rounds.sub_below r.tokens bytes small finite enough in
            rw (enough, try_consume)
              (record {
                full = w.full;
                rate = w.rate;
                started = w.started;
                stopped = w.stopped;
                held = omega (arith, w.held, below);
                given = omega (arith, w.held, w.given, above);
              })
        | inr short ↦
            rw (short, try_consume)
              (more-Within (count + 1) (count + 2) (spent + 0) r (omega arith)
                (let same : spent ≡ spent + 0 = omega arith in rw (← same) w))
      ]
    where
      finite_held :
          (t : ℕ)
          → limit.burst_bytes < 2 ^ 53
          → t ≤ limit.burst_bytes * rounds.one
          → t ≤ 2 ^ 53 * rounds.one
      finite_held t h k = grind arith

  pub refund-Within :
      (count spent now bytes : ℕ) (b : TokenBucket fl.F64)
      → IsExact limit
      → stop < 2 ^ 64
      → now ≤ stop
      → bytes < 2 ^ 53
      → Within count (spent + bytes) b
      → Within (count + 2) spent (refund fl now bytes b)
  unfolding refund
  refund-Within count spent now bytes b exact soon before small v =
      let r = refill fl now b in
      let w : Within (count + 1) (spent + bytes) r =
        refill-Within count (spent + bytes) now b exact soon before v in
      let sum = bounded_add r.tokens (fl.of_u64 bytes) exact in
      let back : rounds.value (fl.of_u64 bytes) ≡ bytes * rounds.one = rounds.whole bytes small in
      rw (w.full, refund)
        (record {
          full = refl;
          rate = w.rate;
          started = w.started;
          stopped = w.stopped;
          held = sum.0;
          given = omega (arith, w.given, sum.1, back);
        })
