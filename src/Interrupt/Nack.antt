-- ===== src/Interrupt/Nack.antt =====
-- The numbers that the client's buffer reports as missing.
use rust_p2p_usb.Base.{
  ℕ, zero, suc, ◌+◌, ◌-◌, ◌^◌, ◌≤◌, ◌<◌, ◌≡◌, refl, ap, max, Bool, true, false, ◌&&◌, ◌||◌, List,
  [], ◌∷◌, Map, arith, length, retain, ltb, leb, Bool-cases, inl, inr, ◌==◌, if◌then◌else◌, not,
}
use rust_p2p_usb.Protocol.Integrity.{Hasher}
use rust_p2p_usb.Interrupt.{as_u64}
use rust_p2p_usb.Interrupt.Receive.{
  ReceivedReport, EndpointReceiveBuffer, activate, contains, track_one, track, untrack,
  missing_after, note, keep, update_last_contiguous, verify, store,
}

contains-track_one :
    (now_us x m : ℕ) (tracked : List ℕ × Map ℕ)
    → length tracked.0 < 256
    → contains m (track_one now_us x tracked).0 ≡ (contains m tracked.0 || (x == m))
unfolding track_one contains
contains-track_one now_us x m tracked room = ground arith

length-track_one :
    (now_us x : ℕ) (tracked : List ℕ × Map ℕ)
    → length (track_one now_us x tracked).0 ≤ length tracked.0 + 1
unfolding track_one
length-track_one now_us x tracked = ground arith

-- Tracking adds the numbers of the gap, if there is room for them.
contains-track :
    (now_us count from m : ℕ) (tracked : List ℕ × Map ℕ)
    → length tracked.0 + count ≤ 256
    → contains m (track now_us count from tracked).0
      ≡ (contains m tracked.0 || (leb from m && ltb m (from + count)))
unfolding track
contains-track now_us zero from m tracked room = ground arith
contains-track now_us (suc count) from m tracked room = ground (
  arith,
  contains-track now_us count (suc from) m (track_one now_us from tracked),
  length-track_one now_us from tracked,
  contains-track_one now_us from m tracked,
)

pub contains-retain :
    (seq m : ℕ) (ms : List ℕ)
    → contains m (retain (λ k. not (k == seq)) ms) ≡ (contains m ms && not (seq == m))
unfolding contains
contains-retain seq m [] = refl
contains-retain seq m (k ∷ ms) = ground (arith, contains-retain seq m ms)

contains_same : (n m : ℕ) (ms : List ℕ) → n ≡ m → contains n ms ≡ contains m ms
contains_same n m ms e = ap (λ k. contains k ms) e

contains-untrack :
    (seq m : ℕ) (tracked : List ℕ × Map ℕ)
    → contains m (untrack seq tracked).0 ≡ (contains m tracked.0 && not (seq == m))
unfolding untrack
contains-untrack seq m tracked =
    ground (arith, contains-retain seq m tracked.0, contains_same seq m tracked.0)

-- Missing are the numbers from `start` below the next one, but for those that were got.
pub record Exact (start : ℕ) (got : ℕ → Bool) (missing : List ℕ) (next : ℕ) : Type 0 where
  pub missed : (m : ℕ) → contains m missing ≡ (leb start m && ltb m next && not (got m))
  pub unseen : (m : ℕ) → next ≤ m → got m ≡ false
  pub started : start ≤ next

-- A report numbered `seq` leaves room for the numbers that it shows as missing.
abbrev pub Fits : ℕ → EndpointReceiveBuffer → Type 0
Fits seq b = (seq + 1 < 2 ^ 64) × (length b.missing_sequences + (seq - b.next_expected_seq) ≤ 256)

abbrev pub also : ℕ → (ℕ → Bool) → ℕ → Bool
also seq got m = (seq == m) || got m

missing_after-missed :
    (now_us seq start m : ℕ) (got : ℕ → Bool) (b : EndpointReceiveBuffer)
    → Fits seq b
    → Exact start got b.missing_sequences b.next_expected_seq
    → let after =
        missing_after now_us seq b.next_expected_seq (b.missing_sequences, b.missing_timestamps) in
      contains m after.0
      ≡ (leb start m && ltb m (max b.next_expected_seq (seq + 1)) && not (also seq got m))
unfolding missing_after
missing_after-missed now_us seq start m got b fits v =
    let before : List ℕ × Map ℕ = (b.missing_sequences, b.missing_timestamps) in
    ground (
      arith,
      v.missed m,
      v.unseen m,
      v.started,
      fits.1,
      contains-track now_us (seq - b.next_expected_seq) b.next_expected_seq m before,
      contains-untrack seq m before,
    )

pub note-Exact :
    (now_us seq start : ℕ) (got : ℕ → Bool) (b : EndpointReceiveBuffer)
    → Fits seq b
    → Exact start got b.missing_sequences b.next_expected_seq
    → let b1 = note now_us seq b in
      Exact start (also seq got) b1.missing_sequences b1.next_expected_seq
unfolding note
note-Exact now_us seq start got b fits v =
    let wrap : as_u64 (seq + 1) ≡ seq + 1 = omega (arith, fits.0) in
    rw wrap (record {
      missed = λ m. missing_after-missed now_us seq start m got b fits v;
      unseen = λ m past. ground (arith, v.unseen m);
      started = omega (arith, v.started);
    })

-- The reports that arrive, each with the time of its call.
unfoldable pub store_all :
    Hasher → List (ℕ × ReceivedReport) → EndpointReceiveBuffer → EndpointReceiveBuffer
store_all h [] b = b
store_all h ((now_us, r) ∷ cs) b = store_all h cs (store h now_us r b).1

-- The numbers of the reports that pass the check.
unfoldable pub intact : Hasher → List (ℕ × ReceivedReport) → List ℕ
intact h [] = []
intact h ((now_us, r) ∷ cs) = if verify h r then r.sequence ∷ intact h cs else intact h cs

-- Every report leaves room for the numbers that it shows as missing.
unfoldable pub AllFit : Hasher → List (ℕ × ReceivedReport) → EndpointReceiveBuffer → Type 0
AllFit h [] b = Unit
AllFit h ((now_us, r) ∷ cs) b = Fits r.sequence b × AllFit h cs (store h now_us r b).1

-- What is got after one more report.
abbrev pub after : Hasher → ReceivedReport → (ℕ → Bool) → ℕ → Bool
after h r got = if verify h r then also r.sequence got else got

pub record Tracks (start : ℕ) (got : ℕ → Bool) (b : EndpointReceiveBuffer) : Type 0 where
  pub exact : Exact start got b.missing_sequences b.next_expected_seq
  pub on : b.active ≡ true

pub store-Tracks :
    (h : Hasher) (now_us : ℕ) (r : ReceivedReport) (start : ℕ) (got : ℕ → Bool)
    (b : EndpointReceiveBuffer)
    → Fits r.sequence b
    → Tracks start got b
    → Tracks start (after h r got) (store h now_us r b).1
unfolding store note keep update_last_contiguous
store-Tracks h now_us r start got b fits v = elim (Bool-cases (verify h r)) [
  | inl passed ↦
      rw (v.on, passed)
        (record { exact = note-Exact now_us r.sequence start got b fits v.exact; on = refl })
  | inr failed ↦ rw (v.on, failed) (record { exact = v.exact; on = refl })
]

same_got :
    (start : ℕ) (got got' : ℕ → Bool) (b : EndpointReceiveBuffer)
    → ((m : ℕ) → got m ≡ got' m)
    → Tracks start got b
    → Tracks start got' b
same_got start got got' b same v = record {
  exact = record {
    missed = λ m. rw (← same m) (v.exact.missed m);
    unseen = λ m past. rw (← same m) (v.exact.unseen m past);
    started = v.exact.started;
  };
  on = v.on;
}

store_all-Tracks :
    (h : Hasher) (cs : List (ℕ × ReceivedReport)) (start : ℕ) (got : ℕ → Bool)
    (b : EndpointReceiveBuffer)
    → AllFit h cs b
    → Tracks start got b
    → Tracks start (λ m. contains m (intact h cs) || got m) (store_all h cs b)
unfolding store_all intact AllFit contains
store_all-Tracks h [] start got b fits v = v
store_all-Tracks h ((now_us, r) ∷ cs) start got b fits v =
    same_got start _ _ _ (λ m. ground arith)
      (store_all-Tracks h cs start (after h r got) (store h now_us r b).1 fits.1
        (store-Tracks h now_us r start got b fits.0 v))

pub none_below : (n k : ℕ) → false ≡ (leb n k && ltb k n && not false)
none_below n k = ground arith

-- In a buffer activated at `start`, as long as no report finds the set of missing numbers too full
-- for its gap and no number reaches 2^64 - 1: missing are exactly the numbers from `start` below
-- the next expected one that no intact report had.
pub store_all-missing :
    (h : Hasher) (cs : List (ℕ × ReceivedReport)) (start m : ℕ) (b : EndpointReceiveBuffer)
    → AllFit h cs (activate start b)
    → let b1 = store_all h cs (activate start b) in
      contains m b1.missing_sequences
      ≡ (leb start m && ltb m b1.next_expected_seq && not (contains m (intact h cs)))
unfolding activate contains
store_all-missing h cs start m b fits =
    let v0 : Tracks start (λ k. false) (activate start b) = record {
      exact = record {
        missed = λ k. none_below start k;
        unseen = λ k past. refl;
        started = omega arith;
      };
      on = refl;
    } in
    let v = store_all-Tracks h cs start (λ k. false) (activate start b) fits v0 in
    ground (arith, v.exact.missed m)
