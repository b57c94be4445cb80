-- ===== src/Interrupt/Expiry.antt =====
-- The request for missing reports, `get_missing_sequences` and `generate_nack_info` of
-- crates/client/src/virtual_usb/interrupt_receive_buffer.rs: numbers that are missing for too long
-- are given up.
use rust_p2p_usb.Base.{
  KeysOnce, lookup_same_key, insert-KeysOnce, remove-KeysOnce, ℕ, zero, suc, ◌-◌, ◌≤◌, ◌≡◌, refl,
  sym, ap, ◌∙◌, inl, inr, Bool, true, false, ◌&&◌, ◌||◌, Option, none, some, List, [], ◌∷◌, Map,
  lookup, remove, arith, All, retain, ltb, leb, Bool-cases, All-mono, ◌==◌, if◌then◌else◌, not,
}
use rust_p2p_usb.Protocol.Integrity.{Hasher}
use rust_p2p_usb.Interrupt.Receive.{
  EndpointReceiveBuffer, ReceivedReport, contains, activate, track_one, track, untrack,
  missing_after, note, keep, update_last_contiguous, verify, store,
}
use rust_p2p_usb.Interrupt.Nack.{contains-retain, store_all}

-- The keys of the time stamps that are older than the timeout.
unfoldable pub expired : ℕ → ℕ → Map ℕ → List ℕ
expired now_us timeout_us [] = []
expired now_us timeout_us ((seq, timestamp) ∷ rest) =
    if ltb timeout_us (now_us - timestamp)
    then seq ∷ expired now_us timeout_us rest
    else expired now_us timeout_us rest

-- `for seq in &expired`
unfoldable pub give_up : List ℕ → List ℕ × Map ℕ → List ℕ × Map ℕ
give_up [] tracked = tracked
give_up (seq ∷ gone) (missing, timestamps) =
    give_up gone (retain (λ m. not (m == seq)) missing, remove seq timestamps)

unfoldable pub place : ℕ → List ℕ → List ℕ
place n [] = n ∷ []
place n (m ∷ ms) = if leb n m then n ∷ m ∷ ms else m ∷ place n ms

-- `result.sort()`
unfoldable pub sort : List ℕ → List ℕ
unfolding place
sort [] = []
sort (n ∷ ns) = place n (sort ns)

unfoldable pub get_missing_sequences : ℕ → EndpointReceiveBuffer → List ℕ × EndpointReceiveBuffer
unfolding expired give_up sort
get_missing_sequences now_us b =
    let gone = expired now_us b.nack_timeout_us b.missing_timestamps in
    let tracked = give_up gone (b.missing_sequences, b.missing_timestamps) in
    (sort tracked.0, record b { missing_sequences = tracked.0; missing_timestamps = tracked.1 })

unfoldable pub generate_nack_info :
    ℕ → EndpointReceiveBuffer → Option (List ℕ × ℕ) × EndpointReceiveBuffer
unfolding get_missing_sequences
generate_nack_info now_us b =
    let (missing, b1) = get_missing_sequences now_us b in
    elim missing [ [] ↦ (none, b1) | m ∷ ms ↦ (some (m ∷ ms, b1.last_contiguous_seq), b1) ]

abbrev pub too_late : ℕ → ℕ → Option ℕ → Bool
too_late now_us timeout_us none = false
too_late now_us timeout_us (some timestamp) = ltb timeout_us (now_us - timestamp)

contains-expired :
    (now_us timeout_us m : ℕ) (ts : Map ℕ)
    → KeysOnce ts
    → contains m (expired now_us timeout_us ts) ≡ too_late now_us timeout_us (lookup m ts)
unfolding expired contains lookup
contains-expired now_us timeout_us m [] once = refl
contains-expired now_us timeout_us m ((seq, t) ∷ rest) once =
    ground (arith, lookup_same_key seq m rest, contains-expired now_us timeout_us m rest once.1)

contains-give_up :
    (gone : List ℕ) (m : ℕ) (tracked : List ℕ × Map ℕ)
    → contains m (give_up gone tracked).0 ≡ (contains m tracked.0 && not (contains m gone))
unfolding give_up contains
contains-give_up [] m tracked = ground arith
contains-give_up (seq ∷ gone) m (missing, timestamps) = ground (
  arith,
  contains-retain seq m missing,
  contains-give_up gone m (retain (λ k. not (k == seq)) missing, remove seq timestamps),
)

contains-place : (n m : ℕ) (ms : List ℕ) → contains m (place n ms) ≡ ((n == m) || contains m ms)
unfolding place contains
contains-place n m [] = refl
contains-place n m (k ∷ ms) = ground (arith, contains-place n m ms)

contains-sort : (m : ℕ) (ms : List ℕ) → contains m (sort ms) ≡ contains m ms
unfolding sort contains
contains-sort m [] = refl
contains-sort m (n ∷ ms) = ground (arith, contains-place n m (sort ms), contains-sort m ms)

-- No number is above one that follows it.
abbrev pub Sorted : List ℕ → Type 0
Sorted [] = Unit
Sorted (n ∷ ns) = All (λ m. n ≤ m) ns × Sorted ns

All-place : (k n : ℕ) (ms : List ℕ) → k ≤ n → All (λ m. k ≤ m) ms → All (λ m. k ≤ m) (place n ms)
unfolding place
All-place k n [] below v = (below, tt)
All-place k n (m ∷ ms) below v = elim (Bool-cases (leb n m)) [
  | inl first ↦ rw first (below, v)
  | inr later ↦ rw later (v.0, All-place k n ms below v.1)
]

place-Sorted : (n : ℕ) (ms : List ℕ) → Sorted ms → Sorted (place n ms)
unfolding place
place-Sorted n [] v = (tt, tt)
place-Sorted n (m ∷ ms) v = elim (Bool-cases (leb n m)) [
  | inl first ↦
      let before : n ≤ m = ground arith in
      rw first ((before, All-mono _ (λ k above. omega arith) ms v.0), v)
  | inr later ↦ rw later (All-place m n ms (ground arith) v.0, place-Sorted n ms v.1)
]

sort-Sorted : (ms : List ℕ) → Sorted (sort ms)
unfolding sort
sort-Sorted [] = tt
sort-Sorted (n ∷ ms) = place-Sorted n (sort ms) (sort-Sorted ms)

if_KeysOnce :
    (c : Bool) (t u : List ℕ × Map ℕ)
    → KeysOnce t.1
    → KeysOnce u.1
    → KeysOnce (if c then t else u).1
if_KeysOnce true t u ht hu = ht
if_KeysOnce false t u ht hu = hu

track_one-KeysOnce :
    (now_us seq : ℕ) (tracked : List ℕ × Map ℕ)
    → KeysOnce tracked.1
    → KeysOnce (track_one now_us seq tracked).1
unfolding track_one
track_one-KeysOnce now_us seq (missing, ts) once =
    if_KeysOnce _ _ _ (insert-KeysOnce seq now_us ts once) once

track-KeysOnce :
    (now_us count from : ℕ) (tracked : List ℕ × Map ℕ)
    → KeysOnce tracked.1
    → KeysOnce (track now_us count from tracked).1
unfolding track
track-KeysOnce now_us zero from tracked once = once
track-KeysOnce now_us (suc count) from tracked once =
    track-KeysOnce now_us count (suc from) (track_one now_us from tracked)
      (track_one-KeysOnce now_us from tracked once)

untrack-KeysOnce :
    (seq : ℕ) (tracked : List ℕ × Map ℕ) → KeysOnce tracked.1 → KeysOnce (untrack seq tracked).1
unfolding untrack
untrack-KeysOnce seq (missing, ts) once = if_KeysOnce _ _ _ (remove-KeysOnce seq ts once) once

note-KeysOnce :
    (now_us seq : ℕ) (b : EndpointReceiveBuffer)
    → KeysOnce b.missing_timestamps
    → KeysOnce (note now_us seq b).missing_timestamps
unfolding note missing_after
note-KeysOnce now_us seq b once =
    let gap = seq - b.next_expected_seq in
    if_KeysOnce _ _ _ (track-KeysOnce now_us gap b.next_expected_seq _ once)
      (untrack-KeysOnce seq _ once)

activate-KeysOnce :
    (start : ℕ) (b : EndpointReceiveBuffer) → KeysOnce (activate start b).missing_timestamps
unfolding activate
activate-KeysOnce start b = tt

store-KeysOnce :
    (h : Hasher) (now_us : ℕ) (r : ReceivedReport) (b : EndpointReceiveBuffer)
    → KeysOnce b.missing_timestamps
    → KeysOnce (store h now_us r b).1.missing_timestamps
unfolding store keep update_last_contiguous
store-KeysOnce h now_us r b once = elim (Bool-cases b.active) [
  | inr off ↦ rw off once
  | inl on ↦ elim (Bool-cases (verify h r)) [
    | inl passed ↦ rw (on, passed) (note-KeysOnce now_us r.sequence b once)
    | inr failed ↦ rw (on, failed) once
  ]
]

store_all-KeysOnce :
    (h : Hasher) (cs : List (ℕ × ReceivedReport)) (b : EndpointReceiveBuffer)
    → KeysOnce b.missing_timestamps
    → KeysOnce (store_all h cs b).missing_timestamps
unfolding store_all
store_all-KeysOnce h [] b once = once
store_all-KeysOnce h ((now_us, r) ∷ cs) b once =
    store_all-KeysOnce h cs (store h now_us r b).1 (store-KeysOnce h now_us r b once)

get_missing_sequences-contains :
    (now_us m : ℕ) (b : EndpointReceiveBuffer)
    → KeysOnce b.missing_timestamps
    → let (requested, b1) = get_missing_sequences now_us b in
      Sorted requested
      × (contains m requested ≡ (
          contains m b.missing_sequences
          && not (too_late now_us b.nack_timeout_us (lookup m b.missing_timestamps))))
      × (contains m b1.missing_sequences ≡ contains m requested)
unfolding get_missing_sequences
get_missing_sequences-contains now_us m b once =
    let gone = expired now_us b.nack_timeout_us b.missing_timestamps in
    let tracked = give_up gone (b.missing_sequences, b.missing_timestamps) in
    let left = contains-give_up gone m (b.missing_sequences, b.missing_timestamps) in
    let late = contains-expired now_us b.nack_timeout_us m b.missing_timestamps once in
    (
      sort-Sorted tracked.0,
      contains-sort m tracked.0 ∙ (left ∙ ap (λ x. contains m b.missing_sequences && not x) late),
      sym (contains-sort m tracked.0),
    )

-- After any reports in an activated buffer: the numbers that are requested are in order, and they
-- are exactly those that are missing and were not noted longer ago than the timeout; only they are
-- still missing afterwards.
pub get_missing_sequences-store_all :
    (h : Hasher) (cs : List (ℕ × ReceivedReport)) (start now_us m : ℕ) (b : EndpointReceiveBuffer)
    → let b1 = store_all h cs (activate start b) in
      let (requested, b2) = get_missing_sequences now_us b1 in
      Sorted requested
      × (contains m requested ≡ (
          contains m b1.missing_sequences
          && not (too_late now_us b1.nack_timeout_us (lookup m b1.missing_timestamps))))
      × (contains m b2.missing_sequences ≡ contains m requested)
get_missing_sequences-store_all h cs start now_us m b =
    get_missing_sequences-contains now_us m (store_all h cs (activate start b))
      (store_all-KeysOnce h cs (activate start b) (activate-KeysOnce start b))
