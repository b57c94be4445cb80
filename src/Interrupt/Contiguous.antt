-- ===== src/Interrupt/Contiguous.antt =====
-- What the last contiguous number of the client's buffer promises.
use rust_p2p_usb.Base.{
  ℕ, ◌+◌, ◌≤◌, ◌≡◌, refl, inl, inr, Bool, true, false, ◌||◌, List, [], ◌∷◌, arith, Bool-cases,
}
use rust_p2p_usb.Protocol.Integrity.{Hasher}
use rust_p2p_usb.Interrupt.{as_u64}
use rust_p2p_usb.Interrupt.Receive.{
  ReceivedReport, EndpointReceiveBuffer, activate, contains, least, contiguous, note, keep,
  update_last_contiguous, verify, store,
}
use rust_p2p_usb.Interrupt.Nack.{
  Exact, Fits, Tracks, also, after, store_all, intact, AllFit, note-Exact, store-Tracks, none_below,
}

contains-least : (m : ℕ) (ms : List ℕ) → contains (least m ms) (m ∷ ms) ≡ true
unfolding contains least
contains-least m [] = ground arith
contains-least m (n ∷ ns) = ground (arith, contains-least n ns, contains-least m ns)

least_start : (m : ℕ) (ms : List ℕ) → least m ms ≤ m
unfolding least
least_start m [] = omega arith
least_start m (n ∷ ns) = ground (arith, least_start n ns, least_start m ns)

least-lower : (k m : ℕ) (ms : List ℕ) → contains k (m ∷ ms) ≡ true → least m ms ≤ k
unfolding contains least
least-lower k m [] h = ground arith
least-lower k m (n ∷ ns) h =
    ground (arith, least-lower k n ns, least-lower k m ns, least_start n ns, least_start m ns)

-- The new last contiguous number, over the numbers that are missing.
contiguous-got :
    (missing : List ℕ) (start highest last m : ℕ) (got : ℕ → Bool)
    → 1 ≤ start
    → Exact start got missing (highest + 1)
    → (m ≤ last → got m ≡ true)
    → start ≤ m
    → m ≤ contiguous missing highest last
    → got m ≡ true
unfolding contiguous contains
contiguous-got [] start highest last m got first v old from upto = ground (arith, v.missed m)
contiguous-got (x ∷ xs) start highest last m got first v old from upto =
    ground (arith, v.missed m, v.missed (least x xs), contains-least x xs, least-lower m x xs)

record Reached (start : ℕ) (got : ℕ → Bool) (b : EndpointReceiveBuffer) : Type 0 where
  top : b.next_expected_seq ≡ b.highest_seq + 1
  reached : (m : ℕ) → start ≤ m → m ≤ b.last_contiguous_seq → got m ≡ true

note-Reached :
    (now_us seq start : ℕ) (got : ℕ → Bool) (b : EndpointReceiveBuffer)
    → 1 ≤ start
    → Fits seq b
    → Exact start got b.missing_sequences b.next_expected_seq
    → Reached start got b
    → Reached start (also seq got) (update_last_contiguous (note now_us seq b))
unfolding note update_last_contiguous
note-Reached now_us seq start got b first fits x v =
    let b1 = note now_us seq b in
    let wrap : as_u64 (seq + 1) ≡ seq + 1 = omega (arith, fits.0) in
    let above : b1.next_expected_seq ≡ b1.highest_seq + 1 = rw wrap (omega (arith, v.top)) in
    let x1 : Exact start (also seq got) b1.missing_sequences (b1.highest_seq + 1) =
      rw (← above) (note-Exact now_us seq start got b fits x) in
    record {
      top = above;
      reached = λ m from upto.
          contiguous-got b1.missing_sequences start b1.highest_seq b.last_contiguous_seq m
            (also seq got) first x1 (λ low. ground (arith, v.reached m from low)) from upto;
    }

store-Reached :
    (h : Hasher) (now_us : ℕ) (r : ReceivedReport) (start : ℕ) (got : ℕ → Bool)
    (b : EndpointReceiveBuffer)
    → 1 ≤ start
    → Fits r.sequence b
    → Tracks start got b
    → Reached start got b
    → Reached start (after h r got) (store h now_us r b).1
unfolding store keep
store-Reached h now_us r start got b first fits t v = elim (Bool-cases (verify h r)) [
  | inl passed ↦
      let w = note-Reached now_us r.sequence start got b first fits t.exact v in
      rw (t.on, passed) (record { top = w.top; reached = w.reached })
  | inr failed ↦ rw (t.on, failed) (record { top = v.top; reached = v.reached })
]

store_all-Reached :
    (h : Hasher) (cs : List (ℕ × ReceivedReport)) (start : ℕ) (got : ℕ → Bool)
    (b : EndpointReceiveBuffer)
    → 1 ≤ start
    → AllFit h cs b
    → Tracks start got b
    → Reached start got b
    → (m : ℕ) → start ≤ m
    → m ≤ (store_all h cs b).last_contiguous_seq
    → (contains m (intact h cs) || got m) ≡ true
unfolding store_all intact AllFit contains
store_all-Reached h [] start got b first fits t v m from upto = v.reached m from upto
store_all-Reached h ((now_us, r) ∷ cs) start got b first fits t v m from upto = ground (
  arith,
  store_all-Reached h cs start (after h r got) (store h now_us r b).1 first fits.1
      (store-Tracks h now_us r start got b fits.0 t)
      (store-Reached h now_us r start got b first fits.0 t v) m from upto,
)

-- In a buffer activated at a `start` above 0, as long as no report finds the set of missing
-- numbers too full for its gap and no number reaches 2^64 - 1: every number from `start` up to the
-- last contiguous one is that of an intact report.
pub store_all-last_contiguous_seq :
    (h : Hasher) (cs : List (ℕ × ReceivedReport)) (start m : ℕ) (b : EndpointReceiveBuffer)
    → 1 ≤ start
    → AllFit h cs (activate start b)
    → start ≤ m
    → m ≤ (store_all h cs (activate start b)).last_contiguous_seq
    → contains m (intact h cs) ≡ true
unfolding activate contains
store_all-last_contiguous_seq h cs start m b first fits from upto =
    let t : Tracks start (λ k. false) (activate start b) = record {
      exact = record {
        missed = λ k. none_below start k;
        unseen = λ k past. refl;
        started = omega arith;
      };
      on = refl;
    } in
    let v : Reached start (λ k. false) (activate start b) = record {
      top = omega arith;
      reached = λ k low high. absurd (omega arith);
    } in
    ground (
      arith,
      store_all-Reached h cs start (λ k. false) (activate start b) first fits t v m from upto,
    )
