-- ===== src/Rate/PerClient.antt =====
-- What the limiter lets through for one client, over any calls of all clients.
use rust_p2p_usb.Base.{
  ℕ, ◌+◌, ◌*◌, ◌-◌, ◌^◌, ◌≤◌, ◌<◌, ◌≡◌, refl, inl, inr, Bool, true, false, ◌&&◌, Bool-cases, Option,
  none, some, List, arith, All, Map, lookup, insert, lookup-insert, ◌==◌, ==_iff, is_some_of,
  length,
}
use rust_p2p_usb.Rate.{
  BandwidthLimit, TokenBucket, RateLimiter, Doubles, new, try_consume, refund, consume_global,
  consume_at, refund_at, try_acquire, entry,
}
use rust_p2p_usb.Rate.Rounding.{Rounds, a_second, parts, parts_more}
use rust_p2p_usb.Rate.Bucket.{
  Within, IsExact, taken, new_bucket-Within, try_consume-Within, refund-Within, more-Within,
}
use rust_p2p_usb.Rate.Admitted.{Call, run, run_ind, Between, Within-bound}

and_false : (b : Bool) → (b && false) ≡ false
and_false true = refl
and_false false = refl

and_true : (b : Bool) → (b && true) ≡ b
and_true true = refl
and_true false = refl

-- What the limits of a theorem about a client are.
record IsFine (limit : BandwidthLimit) (stop : ℕ) : Type 0 where
  exact : IsExact limit
  soon : stop < 2 ^ 64

module _ (fl : Doubles) (rounds : Rounds fl) (limit : BandwidthLimit) (start stop id : ℕ) where
  -- A client with no bucket has had nothing.
  abbrev ClientWithin : ℕ → ℕ → Option (TokenBucket fl.F64) → Type 0
  ClientWithin count spent none = spent ≡ 0
  ClientWithin count spent (some b) = Within fl rounds limit start stop count spent b

  entry-Within :
      (count spent now : ℕ) (o : Option (TokenBucket fl.F64))
      → IsFine limit stop
      → start ≤ now
      → now ≤ stop
      → ClientWithin count spent o
      → Within fl rounds limit start stop count spent (entry fl now limit o)
  entry-Within count spent now none fine from upto v = rw v (
      more-Within fl rounds limit start stop 0 count 0 _ (omega arith)
        (new_bucket-Within fl rounds limit start stop now fine.exact from upto))
  entry-Within count spent now (some b) fine from upto v = v

  -- Equal bytes, and more steps.
  same_spent :
      (k m n j : ℕ) (o : Option (TokenBucket fl.F64))
      → k ≤ m
      → n ≡ j
      → ClientWithin k n o
      → ClientWithin m j o
  same_spent k m n j none le e v = omega (arith, v, e)
  same_spent k m n j (some b) le e v =
      rw (← e) (more-Within fl rounds limit start stop k m n b le v)

  consume_at-ClientWithin :
      (count now bytes spent : ℕ) (key : Option ℕ) (m : Map (TokenBucket fl.F64))
      → IsFine limit stop
      → start ≤ now
      → now ≤ stop
      → bytes < 2 ^ 53
      → ClientWithin count spent (lookup id m)
      → let (done, after) = consume_at fl now bytes key (some limit) m in
        ClientWithin (count + 2) (spent + taken (done && is_some_of key id) bytes) (lookup id after)
  unfolding consume_at
  consume_at-ClientWithin count now bytes spent none m fine from upto small v =
      same_spent count (count + 2) spent (spent + 0) _ (omega arith) (omega arith) v
  consume_at-ClientWithin count now bytes spent (some k) m fine from upto small v =
      let (done, after) = try_consume fl now bytes (entry fl now limit (lookup k m)) in
      elim (Bool-cases (k == id)) [
        | inr other ↦
            rw (other, lookup-insert k id after m, other, and_false done)
              (same_spent count (count + 2) spent (spent + 0) _ (omega arith) (omega arith) v)
        | inl same ↦
            let e : k ≡ id = (==_iff k id).0 same in
            rw (same, lookup-insert k id after m, same, and_true done)
              (try_consume-Within fl rounds limit start stop count spent now bytes
                (entry fl now limit (lookup k m)) fine.exact fine.soon upto small
                (entry-Within count spent now (lookup k m) fine from upto (rw e v)))
      ]

  refund-some-ClientWithin :
      (count now bytes spent : ℕ) (o : Option (TokenBucket fl.F64)) (k : ℕ)
      (m : Map (TokenBucket fl.F64))
      → IsFine limit stop
      → now ≤ stop
      → bytes < 2 ^ 53
      → lookup k m ≡ o
      → ClientWithin count (spent + taken (k == id) bytes) (lookup id m)
      → ClientWithin
          (count + 2)
          spent
          (lookup id (elim o [ none ↦ m | some b ↦ insert k (refund fl now bytes b) m ]))
  refund-some-ClientWithin count now bytes spent none k m fine upto small e v =
      elim (Bool-cases (k == id)) [
        | inr other ↦
            same_spent count (count + 2) (spent + 0) spent _ (omega arith) (omega arith)
              (rw other at v)
        | inl same ↦
            let at_id : lookup id m ≡ none = rw (← (==_iff k id).0 same) e in
            let nothing : spent + bytes ≡ 0 = rw (same, at_id) at v in
            rw at_id (omega (arith, nothing))
      ]
  refund-some-ClientWithin count now bytes spent (some b) k m fine upto small e v =
      elim (Bool-cases (k == id)) [
        | inr other ↦
            rw (lookup-insert k id (refund fl now bytes b) m, other)
              (same_spent count (count + 2) (spent + 0) spent _ (omega arith) (omega arith)
                (rw other at v))
        | inl same ↦
            rw (lookup-insert k id (refund fl now bytes b) m, same)
              (let at_id : lookup id m ≡ some b = rw (← (==_iff k id).0 same) e in
                let w : Within fl rounds limit start stop count (spent + bytes) b =
                  rw (same, at_id) at v in
                refund-Within fl rounds limit start stop count spent now bytes b fine.exact
                  fine.soon upto small w)
      ]

  refund_at-ClientWithin :
      (count now bytes spent : ℕ) (key : Option ℕ) (m : Map (TokenBucket fl.F64))
      → IsFine limit stop
      → now ≤ stop
      → bytes < 2 ^ 53
      → ClientWithin count (spent + taken (is_some_of key id) bytes) (lookup id m)
      → ClientWithin (count + 2) spent (lookup id (refund_at fl now bytes key (some limit) m))
  unfolding refund_at
  refund_at-ClientWithin count now bytes spent none m fine upto small v =
      same_spent count (count + 2) (spent + 0) spent _ (omega arith) (omega arith) v
  refund_at-ClientWithin count now bytes spent (some k) m fine upto small v =
      refund-some-ClientWithin count now bytes spent (lookup k m) k m fine upto small refl v

  -- The limit stays, and the client has had `spent` bytes.
  record Holds (count spent : ℕ) (l : RateLimiter fl.F64) : Type 0 where
    limited : l.default_client_limit ≡ some limit
    within : ClientWithin count spent (lookup id l.client_buckets)

  try_acquire-Holds :
      (count spent : ℕ) (c : Call) (l : RateLimiter fl.F64)
      → IsFine limit stop
      → Between start stop c
      → Holds count spent l
      → let (done, l1) = try_acquire fl c.clock c.client c.device c.bytes l in
        Holds (count + 4) (spent + taken (done && is_some_of c.client id) c.bytes) l1
  unfolding try_acquire
  try_acquire-Holds count spent c l fine at v =
      let g = consume_global fl c.clock.at_global c.bytes l.global_bucket in
      let cl = consume_at fl c.clock.at_client c.bytes c.client (some limit) l.client_buckets in
      let dv =
        consume_at fl c.clock.at_device c.bytes c.device l.default_device_limit l.device_buckets in
      let w =
        consume_at-ClientWithin count c.clock.at_client c.bytes spent c.client l.client_buckets fine
          at.client_after at.client_before at.small v.within in
      elim (Bool-cases g.0) [
        | inr no_global ↦ rw no_global (record {
          limited = v.limited;
          within =
              same_spent count (count + 4) spent (spent + 0) _ (omega arith) (omega arith) v.within;
        })
        | inl yes_global ↦ elim (Bool-cases cl.0) [
          | inr no_client ↦
              rw (yes_global, v.limited, no_client)
                (record {
                  limited = refl;
                  within =
                      same_spent (count + 2) (count + 4) _ _ (lookup id cl.1) (omega arith) refl
                        (rw no_client at w);
                })
          | inl yes_client ↦
              let u : ClientWithin (count + 2) (spent + taken (is_some_of c.client id) c.bytes)
                  (lookup id cl.1) =
                rw yes_client at w in
              elim (Bool-cases dv.0) [
                | inr no_device ↦
                    rw (yes_global, v.limited, yes_client, no_device)
                      (record {
                        limited = refl;
                        within =
                            same_spent (count + 2 + 2) (count + 4) spent (spent + 0) _ (omega arith)
                              (omega arith)
                              (refund_at-ClientWithin (count + 2) c.clock.refund_client c.bytes
                                spent c.client cl.1 fine at.client_refund_before at.small u);
                      })
                | inl yes_device ↦
                    rw (yes_global, v.limited, yes_client, yes_device)
                      (record {
                        limited = refl;
                        within =
                            same_spent (count + 2) (count + 4) _ _ (lookup id cl.1) (omega arith)
                              refl u;
                      })
              ]
        ]
      ]

  none_or_within :
      (count spent : ℕ) (o : Option (TokenBucket fl.F64))
      → ClientWithin count spent o
      → spent * (a_second * parts)
        ≤ limit.burst_bytes * (a_second * parts)
          + limit.bytes_per_second * (stop - start) * parts_more
          + count * limit.burst_bytes * a_second
  none_or_within count spent none v = omega (arith, v)
  none_or_within count spent (some b) v = Within-bound fl rounds limit start stop count spent b v

-- A call that is of the client.
abbrev pub is_of : ℕ → Call → Bool
is_of id c = is_some_of c.client id

-- With a limit for each client, and any calls from `start` to `stop` on a new limiter, where `f64`
-- rounds as `Rounds` says, the burst and each call's bytes are below 2 ^ 53, the rate is a `u64` and
-- `stop` is below 2 ^ 64 ns: the bytes let through for a client are at most its burst and what the
-- rate gives in that span, more by one part in 2 ^ 50, and for each call four parts in 2 ^ 50 of the
-- burst.
pub run_bound_client :
    (fl : Doubles) (rounds : Rounds fl) (limit : BandwidthLimit)
    (in_all per_device : Option BandwidthLimit) (start stop id : ℕ) (cs : List Call)
    → IsExact limit
    → stop < 2 ^ 64
    → All (Between start stop) cs
    → (run fl (is_of id) cs (new fl start in_all (some limit) per_device)).0 * (a_second * parts)
      ≤ limit.burst_bytes * (a_second * parts)
        + limit.bytes_per_second * (stop - start) * parts_more
        + 4 * length cs * limit.burst_bytes * a_second
unfolding new lookup
run_bound_client fl rounds limit in_all per_device start stop id cs exact soon at =
    let l0 = new fl start in_all (some limit) per_device in
    let fine : IsFine limit stop = record { exact = exact; soon = soon } in
    let v0 : Holds fl rounds limit start stop id 0 0 l0 = record {
      limited = refl;
      within = refl;
    } in
    let v =
      run_ind fl (Holds fl rounds limit start stop id) (Between start stop) (is_of id)
        (λ k n c l q w. try_acquire-Holds fl rounds limit start stop id k n c l fine q w) cs 0 0 l0
        at v0 in
    omega (
      arith,
      none_or_within fl rounds limit start stop id (0 + 4 * length cs)
          (0 + (run fl (is_of id) cs l0).0) (lookup id (run fl (is_of id) cs l0).1.client_buckets)
          v.within,
    )
