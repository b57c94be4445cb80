-- ===== src/Rate/Admitted.antt =====
-- What the limiter lets through over any calls of `try_acquire`, of any clients and devices.
use rust_p2p_usb.Base.{
  ℕ, ◌+◌, ◌*◌, ◌-◌, ◌^◌, ◌≤◌, ◌<◌, ◌≡◌, refl, inl, inr, Bool, true, false, ◌&&◌, Bool-cases, Option,
  none, some, List, [], ◌∷◌, arith, All, length,
}
use rust_p2p_usb.Rate.{
  BandwidthLimit, TokenBucket, RateLimiter, Doubles, Clock, new, consume_global, consume_at,
  refund_global, try_acquire,
}
use rust_p2p_usb.Rate.Rounding.{Rounds, a_second, parts, parts_more}
use rust_p2p_usb.Rate.Bucket.{
  Within, IsExact, taken, new_bucket-Within, try_consume-Within, refund-Within, more-Within,
}

-- One call of `try_acquire`.
pub record Call : Type 0 where
  pub clock : Clock
  pub client : Option ℕ
  pub device : Option ℕ
  pub bytes : ℕ

-- The instants of a call are from `start` to `stop`, and its bytes are exact as an `f64`.
pub record Between (start stop : ℕ) (c : Call) : Type 0 where
  pub global_after : start ≤ c.clock.at_global
  pub global_before : c.clock.at_global ≤ stop
  pub client_after : start ≤ c.clock.at_client
  pub client_before : c.clock.at_client ≤ stop
  pub refund_before : c.clock.refund_global ≤ stop
  pub client_refund_before : c.clock.refund_client ≤ stop
  pub small : c.bytes < 2 ^ 53

module _ (fl : Doubles) where
  -- The bytes of the calls that were let through and that `counts` picks, and the limiter after
  -- them.
  unfoldable pub run : (Call → Bool) → List Call → RateLimiter fl.F64 → ℕ × RateLimiter fl.F64
  run counts [] l = (0, l)
  run counts (c ∷ cs) l =
      let (done, l1) = try_acquire fl c.clock c.client c.device c.bytes l in
      let (sum, l2) = run counts cs l1 in (taken (done && counts c) c.bytes + sum, l2)

  -- A property of the steps and of the bytes let through and of the limiter holds after a run if each
  -- call, of four steps at most, keeps it.
  pub run_ind :
      (P : ℕ → ℕ → RateLimiter fl.F64 → Type 0) (Q : Call → Type 0) (counts : Call → Bool)
      → ((k n : ℕ) (c : Call) (l : RateLimiter fl.F64)
          → Q c
          → P k n l
          → let (done, l1) = try_acquire fl c.clock c.client c.device c.bytes l in
            P (k + 4) (n + taken (done && counts c) c.bytes) l1)
      → (cs : List Call) (k n : ℕ) (l : RateLimiter fl.F64) → All Q cs
      → P k n l
      → let (sum, l1) = run counts cs l in P (k + 4 * length cs) (n + sum) l1
  unfolding run
  run_ind P Q counts step [] k n l at v =
      let same : n ≡ n + 0 = omega arith in
      let as_many : k ≡ k + 0 = omega arith in rw (← same, ← as_many) v
  run_ind P Q counts step (c ∷ cs) k n l at v =
      let (done, l1) = try_acquire fl c.clock c.client c.device c.bytes l in
      let now = taken (done && counts c) c.bytes in
      let later = (run counts cs l1).0 in
      let same : n + now + later ≡ n + (now + later) = omega arith in
      let as_many : k + 4 + 4 * length cs ≡ k + 4 * length (c ∷ cs) = omega arith in
      rw (← same, ← as_many)
        (run_ind P Q counts step cs (k + 4) (n + now) l1 at.1 (step k n c l at.0 v))

-- One part in 2 ^ 50 of the burst, for each step.
cancelled :
    (spent burst gained count one : ℕ)
    → 0 < one
    → spent * one * a_second * parts
      ≤ burst * one * a_second * parts
        + gained * one * parts_more
        + count * (burst * one) * a_second
    → spent * (a_second * parts)
      ≤ burst * (a_second * parts) + gained * parts_more + count * burst * a_second
cancelled spent burst gained count one some_one h =
    let scaled : spent * (a_second * parts) * one
        ≤ (burst * (a_second * parts) + gained * parts_more + count * burst * a_second) * one =
      omega (arith, h) in
    divided _ _ scaled
  where
    divided : (x y : ℕ) → x * one ≤ y * one → x ≤ y
    divided x y le = grind arith

module _ (fl : Doubles) (rounds : Rounds fl) (limit : BandwidthLimit) (start stop : ℕ) where
  times_mono : (r a b one : ℕ) → a ≤ b → r * a * one ≤ r * b * one
  times_mono r a b one h = let less : r * a ≤ r * b = grind arith in grind arith

  pub Within-bound :
      (count spent : ℕ) (b : TokenBucket fl.F64)
      → Within fl rounds limit start stop count spent b
      → spent * (a_second * parts)
        ≤ limit.burst_bytes * (a_second * parts)
          + limit.bytes_per_second * (stop - start) * parts_more
          + count * limit.burst_bytes * a_second
  Within-bound count spent b v =
      let longest =
        times_mono limit.bytes_per_second (b.last_refill - start) (stop - start) rounds.one
          (omega (arith, v.stopped)) in
      cancelled spent limit.burst_bytes (limit.bytes_per_second * (stop - start)) count rounds.one
        rounds.positive (omega (arith, v.given, longest))

  abbrev GlobalWithin : ℕ → ℕ → Option (TokenBucket fl.F64) → Type 0
  GlobalWithin count spent none = ⊥
  GlobalWithin count spent (some b) = Within fl rounds limit start stop count spent b

  consume_global-GlobalWithin :
      (count spent now bytes : ℕ) (g : Option (TokenBucket fl.F64))
      → IsExact limit
      → stop < 2 ^ 64
      → now ≤ stop
      → bytes < 2 ^ 53
      → GlobalWithin count spent g
      → let (done, after) = consume_global fl now bytes g in
        GlobalWithin (count + 2) (spent + taken done bytes) after
  unfolding consume_global
  consume_global-GlobalWithin count spent now bytes none exact soon before small v = absurd v
  consume_global-GlobalWithin count spent now bytes (some b) exact soon before small v =
      try_consume-Within fl rounds limit start stop count spent now bytes b exact soon before small
        v

  refund_global-GlobalWithin :
      (count spent now bytes : ℕ) (g : Option (TokenBucket fl.F64))
      → IsExact limit
      → stop < 2 ^ 64
      → now ≤ stop
      → bytes < 2 ^ 53
      → GlobalWithin count (spent + bytes) g
      → GlobalWithin (count + 2) spent (refund_global fl now bytes g)
  refund_global-GlobalWithin count spent now bytes none exact soon before small v = absurd v
  refund_global-GlobalWithin count spent now bytes (some b) exact soon before small v =
      refund-Within fl rounds limit start stop count spent now bytes b exact soon before small v

  -- Counts and bytes that are equal, and more steps.
  same_spent :
      (k m n j : ℕ) (g : Option (TokenBucket fl.F64))
      → k ≤ m
      → n ≡ j
      → GlobalWithin k n g
      → GlobalWithin m j g
  same_spent k m n j none le e v = absurd v
  same_spent k m n j (some b) le e v =
      rw (← e) (more-Within fl rounds limit start stop k m n b le v)

  try_acquire-GlobalWithin :
      (count spent : ℕ) (c : Call) (l : RateLimiter fl.F64)
      → IsExact limit
      → stop < 2 ^ 64
      → Between start stop c
      → GlobalWithin count spent l.global_bucket
      → let (done, l1) = try_acquire fl c.clock c.client c.device c.bytes l in
        GlobalWithin (count + 4) (spent + taken done c.bytes) l1.global_bucket
  unfolding try_acquire
  try_acquire-GlobalWithin count spent c l exact soon at v =
      let g = consume_global fl c.clock.at_global c.bytes l.global_bucket in
      let cl =
        consume_at fl c.clock.at_client c.bytes c.client l.default_client_limit l.client_buckets in
      let dv =
        consume_at fl c.clock.at_device c.bytes c.device l.default_device_limit l.device_buckets in
      let w =
        consume_global-GlobalWithin count spent c.clock.at_global c.bytes l.global_bucket exact soon
          at.global_before at.small v in
      elim (Bool-cases g.0) [
        | inr no_global ↦
            rw no_global
              (same_spent (count + 2) (count + 4) _ _ g.1 (omega arith) refl (rw no_global at w))
        | inl yes_global ↦
            let u : GlobalWithin (count + 2) (spent + c.bytes) g.1 = rw yes_global at w in
            let kept = same_spent (count + 2) (count + 4) _ _ g.1 (omega arith) refl u in
            let back =
              same_spent (count + 2 + 2) (count + 4) spent (spent + 0) _ (omega arith) (omega arith)
                (refund_global-GlobalWithin (count + 2) spent c.clock.refund_global c.bytes g.1
                  exact soon at.refund_before at.small u) in
            elim (Bool-cases cl.0) [
              | inr no_client ↦ rw (yes_global, no_client) back
              | inl yes_client ↦ elim (Bool-cases dv.0) [
                | inr no_device ↦ rw (yes_global, yes_client, no_device) back
                | inl yes_device ↦ rw (yes_global, yes_client, yes_device) kept
              ]
            ]
      ]

  bound :
      (count spent : ℕ) (g : Option (TokenBucket fl.F64))
      → GlobalWithin count spent g
      → spent * (a_second * parts)
        ≤ limit.burst_bytes * (a_second * parts)
          + limit.bytes_per_second * (stop - start) * parts_more
          + count * limit.burst_bytes * a_second
  bound count spent none v = absurd v
  bound count spent (some b) v = Within-bound count spent b v

abbrev pub every : Call → Bool
every c = true

and_true : (b : Bool) → (b && true) ≡ b
and_true true = refl
and_true false = refl

-- A global bucket made at `start`, and any calls from `start` to `stop`, where `f64` rounds as
-- `Rounds` says, the burst and each call's bytes are below 2 ^ 53, the rate is a `u64` and `stop` is
-- below 2 ^ 64 ns: the bytes let through are at most the burst and what the rate gives in that span,
-- more by one part in 2 ^ 50, and for each call four parts in 2 ^ 50 of the burst.
pub run_bound :
    (fl : Doubles) (rounds : Rounds fl) (limit : BandwidthLimit)
    (per_client per_device : Option BandwidthLimit) (start stop : ℕ) (cs : List Call)
    → IsExact limit
    → stop < 2 ^ 64
    → start ≤ stop
    → All (Between start stop) cs
    → (run fl every cs (new fl start (some limit) per_client per_device)).0 * (a_second * parts)
      ≤ limit.burst_bytes * (a_second * parts)
        + limit.bytes_per_second * (stop - start) * parts_more
        + 4 * length cs * limit.burst_bytes * a_second
unfolding new
run_bound fl rounds limit per_client per_device start stop cs exact soon ordered at =
    let l0 = new fl start (some limit) per_client per_device in
    let v =
      run_ind fl (λ k n l. GlobalWithin fl rounds limit start stop k n l.global_bucket)
        (Between start stop) every
        (λ k n c l q w.
          rw (and_true (try_acquire fl c.clock c.client c.device c.bytes l).0)
            (try_acquire-GlobalWithin fl rounds limit start stop k n c l exact soon q w))
        cs 0 0 l0 at
        (new_bucket-Within fl rounds limit start stop start exact (omega arith) ordered) in
    omega (
      arith,
      bound fl rounds limit start stop (0 + 4 * length cs) (0 + (run fl every cs l0).0)
          (run fl every cs l0).1.global_bucket v,
    )
