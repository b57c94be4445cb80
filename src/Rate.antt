-- ===== src/Rate.antt =====
-- Bandwidth limits: `TokenBucket` and `RateLimiter` of crates/common/src/rate_limiter.rs. An
-- instant is a number of nanoseconds, one for each time that the code reads the clock. The type `f64`
-- and its operations are a parameter, `Doubles`. A client's name is a number.
pub mod Rounding
pub mod Bucket
pub mod Admitted
pub mod PerClient
pub mod Units
pub mod Metrics
mod Tests
use rust_p2p_usb.Base.{
  ℕ, ◌+◌, ◌*◌, ◌-◌, max, Bool, true, false, Option, none, some, List, [], Map, lookup, insert,
  remove, ltb, leb, ◌==◌, if◌then◌else◌, not,
}

pub record BandwidthLimit : Type 0 where
  pub bytes_per_second : ℕ
  pub burst_bytes : ℕ

abbrev pub new_limit : ℕ → Option ℕ → BandwidthLimit
new_limit bytes_per_second none = record {
  bytes_per_second = bytes_per_second;
  burst_bytes = bytes_per_second;
}
new_limit bytes_per_second (some burst) = record {
  bytes_per_second = bytes_per_second;
  burst_bytes = burst;
}

-- `f64` with the operations that the buckets use: `of_u64` is the cast, `as_secs_f64` converts a
-- duration in nanoseconds to seconds, and `from_secs_f64` back, or panics (`none`).
pub record Doubles : Type 1 where
  pub F64 : Type 0
  pub of_u64 : ℕ → F64
  pub as_secs_f64 : ℕ → F64
  pub from_secs_f64 : F64 → Option ℕ
  pub zero : F64
  pub add : F64 → F64 → F64
  pub sub : F64 → F64 → F64
  pub mul : F64 → F64 → F64
  pub div : F64 → F64 → F64
  pub min : F64 → F64 → F64
  pub max : F64 → F64 → F64
  pub gt : F64 → F64 → Bool
  pub ge : F64 → F64 → Bool

pub record TokenBucket (F64 : Type 0) : Type 0 where
  pub tokens : F64
  pub max_tokens : F64
  pub refill_rate : F64
  pub last_refill : ℕ

pub record RateLimiter (F64 : Type 0) : Type 0 where
  pub global_bucket : Option (TokenBucket F64)
  pub client_buckets : Map (TokenBucket F64)
  pub device_buckets : Map (TokenBucket F64)
  pub default_client_limit : Option BandwidthLimit
  pub default_device_limit : Option BandwidthLimit

abbrev pub map_bucket {ℓ} : {A : Type ℓ} → (BandwidthLimit → A) → Option BandwidthLimit → Option A
map_bucket f none = none
map_bucket f (some l) = some (f l)

module _ (fl : Doubles) where
  unfoldable pub new_bucket : ℕ → BandwidthLimit → TokenBucket fl.F64
  new_bucket now limit = record {
    tokens = fl.of_u64 limit.burst_bytes;
    max_tokens = fl.of_u64 limit.burst_bytes;
    refill_rate = fl.of_u64 limit.bytes_per_second;
    last_refill = now;
  }

  -- `duration_since` stops at 0.
  unfoldable pub refill : ℕ → TokenBucket fl.F64 → TokenBucket fl.F64
  refill now b =
      let elapsed = fl.as_secs_f64 (now - b.last_refill) in
      if fl.gt elapsed fl.zero
      then record b {
        tokens = fl.min (fl.add b.tokens (fl.mul b.refill_rate elapsed)) b.max_tokens;
        last_refill = now;
      }
      else b

  unfoldable pub try_consume : ℕ → ℕ → TokenBucket fl.F64 → Bool × TokenBucket fl.F64
  unfolding refill
  try_consume now bytes b =
      let r = refill now b in
      if fl.ge r.tokens (fl.of_u64 bytes)
      then (true, record r { tokens = fl.sub r.tokens (fl.of_u64 bytes) })
      else (false, r)

  -- The wait in nanoseconds, or a panic.
  unfoldable pub wait_time : ℕ → ℕ → TokenBucket fl.F64 → Option ℕ × TokenBucket fl.F64
  unfolding refill
  wait_time now bytes b =
      let r = refill now b in
      let deficit = fl.sub (fl.of_u64 bytes) r.tokens in
      if fl.ge r.tokens (fl.of_u64 bytes)
      then (some 0, r)
      else (fl.from_secs_f64 (fl.div deficit r.refill_rate), r)

  unfoldable pub record_bytes : ℕ → ℕ → TokenBucket fl.F64 → TokenBucket fl.F64
  unfolding refill
  record_bytes now bytes b =
      let r = refill now b in
      record r { tokens = fl.max (fl.sub r.tokens (fl.of_u64 bytes)) fl.zero }

  -- What a call at a lower level took is given back, up to the largest amount.
  unfoldable pub refund : ℕ → ℕ → TokenBucket fl.F64 → TokenBucket fl.F64
  unfolding refill
  refund now bytes b =
      let r = refill now b in
      record r { tokens = fl.min (fl.add r.tokens (fl.of_u64 bytes)) r.max_tokens }

  unfoldable pub new :
      ℕ → Option BandwidthLimit → Option BandwidthLimit → Option BandwidthLimit → RateLimiter fl.F64
  new now global_limit default_client_limit default_device_limit = record {
    global_bucket = map_bucket (new_bucket now) global_limit;
    client_buckets = [];
    device_buckets = [];
    default_client_limit = default_client_limit;
    default_device_limit = default_device_limit;
  }

  -- `entry(key).or_insert_with(...)`, a bucket made at `now` if there is none.
  abbrev pub entry : ℕ → BandwidthLimit → Option (TokenBucket fl.F64) → TokenBucket fl.F64
  entry now limit none = new_bucket now limit
  entry now limit (some b) = b

module _ (fl : Doubles) (now bytes : ℕ) where
  unfoldable pub consume_global : Option (TokenBucket fl.F64) → Bool × Option (TokenBucket fl.F64)
  unfolding try_consume
  consume_global none = (true, none)
  consume_global (some b) = let (taken, after) = try_consume fl now bytes b in (taken, some after)

  abbrev pub refund_global : Option (TokenBucket fl.F64) → Option (TokenBucket fl.F64)
  refund_global none = none
  refund_global (some b) = some (refund fl now bytes b)

  abbrev pub record_global : Option (TokenBucket fl.F64) → Option (TokenBucket fl.F64)
  record_global none = none
  record_global (some b) = some (record_bytes fl now bytes b)

  -- The same steps at the level of clients and of devices: with an id and a limit, in the id's
  -- bucket.
  unfoldable pub consume_at :
      Option ℕ → Option BandwidthLimit → Map (TokenBucket fl.F64) → Bool × Map (TokenBucket fl.F64)
  unfolding try_consume
  consume_at none limit m = (true, m)
  consume_at (some id) none m = (true, m)
  consume_at (some id) (some limit) m =
      let (taken, after) = try_consume fl now bytes (entry fl now limit (lookup id m)) in
      (taken, insert id after m)

  unfoldable pub refund_at :
      Option ℕ → Option BandwidthLimit → Map (TokenBucket fl.F64) → Map (TokenBucket fl.F64)
  refund_at none limit m = m
  refund_at (some id) none m = m
  refund_at (some id) (some limit) m = elim (lookup id m) [
    | none ↦ m
    | some b ↦ insert id (refund fl now bytes b) m
  ]

  unfoldable pub record_at :
      Option ℕ → Option BandwidthLimit → Map (TokenBucket fl.F64) → Map (TokenBucket fl.F64)
  record_at none limit m = m
  record_at (some id) none m = m
  record_at (some id) (some limit) m =
      insert id (record_bytes fl now bytes (entry fl now limit (lookup id m))) m

  unfoldable pub wait_at :
      Option ℕ
      → Option BandwidthLimit
      → Map (TokenBucket fl.F64)
      → Option ℕ × Map (TokenBucket fl.F64)
  unfolding wait_time
  wait_at none limit m = (some 0, m)
  wait_at (some id) none m = (some 0, m)
  wait_at (some id) (some limit) m =
      let (wait, after) = wait_time fl now bytes (entry fl now limit (lookup id m)) in
      (wait, insert id after m)

  abbrev pub wait_global : Option (TokenBucket fl.F64) → Option ℕ × Option (TokenBucket fl.F64)
  wait_global none = (some 0, none)
  wait_global (some b) = let (wait, after) = wait_time fl now bytes b in (wait, some after)

-- The instants of a call's steps.
pub record Clock : Type 0 where
  pub at_global : ℕ
  pub at_client : ℕ
  pub at_device : ℕ
  pub refund_global : ℕ
  pub refund_client : ℕ

pub data RateLimitResult : Type 0 where
  allowed : RateLimitResult
  wait : (nanos : ℕ) → RateLimitResult

abbrev pub is_allowed : RateLimitResult → Bool
is_allowed allowed = true
is_allowed (RateLimitResult.wait nanos) = false

abbrev pub wait_duration : RateLimitResult → Option ℕ
wait_duration allowed = none
wait_duration (RateLimitResult.wait nanos) = some nanos

-- The longest of the waits; a panic at any level is one.
abbrev pub longest : Option ℕ → Option ℕ → Option ℕ
longest none w = none
longest (some v) none = none
longest (some v) (some w) = some (max v w)

abbrev pub verdict : Option ℕ → Option RateLimitResult
verdict none = none
verdict (some w) = some (if w == 0 then allowed else RateLimitResult.wait w)

-- `none`: a level panics; what the levels below would have noted is then of no use.
module _ (fl : Doubles) where
  unfoldable pub check :
      Clock
      → Option ℕ
      → Option ℕ
      → ℕ
      → RateLimiter fl.F64
      → Option RateLimitResult × RateLimiter fl.F64
  unfolding wait_at wait_time
  check clock client_id device_id bytes l =
      let (w1, global) = wait_global fl clock.at_global bytes l.global_bucket in
      let (w2, clients) =
        wait_at fl clock.at_client bytes client_id l.default_client_limit l.client_buckets in
      let (w3, devices) =
        wait_at fl clock.at_device bytes device_id l.default_device_limit l.device_buckets in
      (
        verdict (longest (longest w1 w2) w3),
        record l { global_bucket = global; client_buckets = clients; device_buckets = devices },
      )

  unfoldable pub record_transfer :
      Clock → Option ℕ → Option ℕ → ℕ → RateLimiter fl.F64 → RateLimiter fl.F64
  unfolding record_at record_bytes
  record_transfer clock client_id device_id bytes l = record l {
    global_bucket = record_global fl clock.at_global bytes l.global_bucket;
    client_buckets =
        record_at fl clock.at_client bytes client_id l.default_client_limit l.client_buckets;
    device_buckets =
        record_at fl clock.at_device bytes device_id l.default_device_limit l.device_buckets;
  }

  unfoldable pub try_acquire :
      Clock → Option ℕ → Option ℕ → ℕ → RateLimiter fl.F64 → Bool × RateLimiter fl.F64
  unfolding consume_global consume_at refund refund_at
  try_acquire clock client_id device_id bytes l =
      let (of_global, global) = consume_global fl clock.at_global bytes l.global_bucket in
      let (of_client, clients) =
        consume_at fl clock.at_client bytes client_id l.default_client_limit l.client_buckets in
      let (of_device, devices) =
        consume_at fl clock.at_device bytes device_id l.default_device_limit l.device_buckets in
      if not of_global
      then (false, record l { global_bucket = global })
      else if not of_client
      then (
        false,
        record l {
          global_bucket = refund_global fl clock.refund_global bytes global;
          client_buckets = clients;
        },
      )
      else if not of_device
      then (
        false,
        record l {
          global_bucket = refund_global fl clock.refund_global bytes global;
          client_buckets =
              refund_at fl clock.refund_client bytes client_id l.default_client_limit clients;
          device_buckets = devices;
        },
      )
      else (
        true,
        record l { global_bucket = global; client_buckets = clients; device_buckets = devices },
      )

unfoldable pub remove_client : {F64 : Type 0} → ℕ → RateLimiter F64 → RateLimiter F64
remove_client id l = record l { client_buckets = remove id l.client_buckets }

unfoldable pub remove_device : {F64 : Type 0} → ℕ → RateLimiter F64 → RateLimiter F64
remove_device id l = record l { device_buckets = remove id l.device_buckets }
