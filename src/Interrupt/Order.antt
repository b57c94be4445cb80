-- ===== src/Interrupt/Order.antt =====
-- The reports that leave the server's buffer, over any sequence of calls: their order, their
-- checksums and how many are lost.
use rust_p2p_usb.Base.{
  ℕ, ◌+◌, ◌^◌, ◌≤◌, ◌<◌, ◌≡◌, refl, Bool, true, false, ==_self, Option, none, some, List, [], ◌∷◌,
  ◌++◌, arith, length, tail, head?, All, All-append, All-mono, leb, if◌then◌else◌,
}
use mathlib.Core.List.{append_assoc, append-nil}
use rust_p2p_usb.Protocol.Integrity.{Hasher}
use rust_p2p_usb.Interrupt.{
  InterruptReport, EndpointBuffer, as_u64, with_capacity, new_report, verify, push, try_pop,
  pop_all, acknowledge,
}

-- One call, with its arguments.
pub data Call : Type 0 where
  pushed : (now_us : ℕ) (bytes : List ℕ) → Call
  popped all_popped : Call
  acked : (seq : ℕ) → Call

abbrev pub list_of {ℓ} : {A : Type ℓ} → Option A → List A
list_of none = []
list_of (some a) = a ∷ []

-- The reports that a call hands out, and the buffer after it.
unfoldable pub call : Hasher → Call → EndpointBuffer → List InterruptReport × EndpointBuffer
call h (pushed now_us bytes) b = ([], (push h now_us bytes b).1)
call h popped b = (list_of (try_pop b).0, (try_pop b).1)
call h all_popped b = pop_all b
call h (acked seq) b = ([], acknowledge seq b)

-- All that is handed out, in order, and the last buffer.
unfoldable pub run : Hasher → List Call → EndpointBuffer → List InterruptReport × EndpointBuffer
unfolding call
run h [] b = ([], b)
run h (c ∷ cs) b = let (out, b1) = call h c b in let (rest, b2) = run h cs b1 in (out ++ rest, b2)

-- Each number is below those that follow.
abbrev pub Ascending : List InterruptReport → Type 0
Ascending [] = Unit
Ascending (r ∷ rs) = All (λ s. r.seq < s.seq) rs × Ascending rs

-- Reports in order, with numbers below `n`, and intact.
record Sound (h : Hasher) (rs : List InterruptReport) (n : ℕ) : Type 0 where
  ordered : Ascending rs
  below : All (λ r. r.seq < n) rs
  intact : All (λ r. verify h r ≡ true) rs

All-drop_middle :
    (P : InterruptReport → Type 0) (xs ys : List InterruptReport)
    → All P (xs ++ ys)
    → All P (xs ++ tail ys)
All-drop_middle P [] [] v = v
All-drop_middle P [] (y ∷ ys) v = v.1
All-drop_middle P (x ∷ xs) ys v = (v.0, All-drop_middle P xs ys v.1)

Ascending-drop_middle :
    (xs ys : List InterruptReport) → Ascending (xs ++ ys) → Ascending (xs ++ tail ys)
Ascending-drop_middle [] [] v = v
Ascending-drop_middle [] (y ∷ ys) v = v.1
Ascending-drop_middle (x ∷ xs) ys v = (All-drop_middle _ xs ys v.0, Ascending-drop_middle xs ys v.1)

Ascending-snoc :
    (xs : List InterruptReport) (r : InterruptReport)
    → Ascending xs
    → All (λ x. x.seq < r.seq) xs
    → Ascending (xs ++ r ∷ [])
Ascending-snoc [] r a b = (tt, tt)
Ascending-snoc (x ∷ xs) r a b =
    (All-append _ xs (r ∷ []) a.0 (b.0, tt), Ascending-snoc xs r a.1 b.1)

kept-Sound :
    (h : Hasher) (out rs : List InterruptReport) (n : ℕ) (full : Bool)
    → Sound h (out ++ rs) n
    → Sound h (out ++ (if full then tail rs else rs)) n
kept-Sound h out rs n true v = record {
  ordered = Ascending-drop_middle out rs v.ordered;
  below = All-drop_middle _ out rs v.below;
  intact = All-drop_middle _ out rs v.intact;
}
kept-Sound h out rs n false v = v

new_report-verify :
    (h : Hasher) (now_us seq endpoint : ℕ) (bytes : List ℕ)
    → verify h (new_report h now_us seq endpoint bytes) ≡ true
unfolding verify new_report
new_report-verify h now_us seq endpoint bytes = ==_self _

snoc-Sound :
    (h : Hasher) (rs : List InterruptReport) (n now_us endpoint : ℕ) (bytes : List ℕ)
    → Sound h rs n
    → Sound h (rs ++ new_report h now_us n endpoint bytes ∷ []) (n + 1)
unfolding new_report
snoc-Sound h rs n now_us endpoint bytes v = record {
  ordered = Ascending-snoc rs _ v.ordered v.below;
  below = All-append _ rs _ (All-mono _ (λ r lt. omega arith) rs v.below) (omega arith, tt);
  intact = All-append _ rs _ v.intact (new_report-verify h now_us n endpoint bytes, tt);
}

push-Sound :
    (h : Hasher) (now_us : ℕ) (bytes : List ℕ) (out : List InterruptReport) (b : EndpointBuffer)
    → b.next_seq + 1 < 2 ^ 64
    → Sound h (out ++ b.reports) b.next_seq
    → Sound h (out ++ (push h now_us bytes b).1.reports) (push h now_us bytes b).1.next_seq
unfolding push
push-Sound h now_us bytes out b room v =
    let full : Bool = leb b.max_size (length b.reports) in
    let rest = if full then tail b.reports else b.reports in
    let w =
      snoc-Sound h (out ++ rest) b.next_seq now_us b.endpoint bytes
        (kept-Sound h out b.reports b.next_seq full v) in
    let wrap : as_u64 (b.next_seq + 1) ≡ b.next_seq + 1 = omega arith in
    rw (wrap, ← append_assoc out rest (new_report h now_us b.next_seq b.endpoint bytes ∷ [])) w

pop_keeps : (out rs : List InterruptReport) → (out ++ list_of (head? rs)) ++ tail rs ≡ out ++ rs
pop_keeps out [] = rw (append_assoc out [] []) refl
pop_keeps out (r ∷ rs) = append_assoc out (r ∷ []) rs

call-Sound :
    (h : Hasher) (c : Call) (out : List InterruptReport) (b : EndpointBuffer)
    → b.next_seq + 1 < 2 ^ 64
    → Sound h (out ++ b.reports) b.next_seq
    → let (more, b1) = call h c b in Sound h ((out ++ more) ++ b1.reports) b1.next_seq
unfolding call try_pop pop_all acknowledge
call-Sound h (pushed now_us bytes) out b room v =
    rw (append-nil out) (push-Sound h now_us bytes out b room v)
call-Sound h popped out b room v = rw (pop_keeps out b.reports) v
call-Sound h all_popped out b room v = rw (append-nil (out ++ b.reports)) v
call-Sound h (acked seq) out b room v = rw (append-nil out) v

call-next_seq :
    (h : Hasher) (c : Call) (b : EndpointBuffer) → (call h c b).1.next_seq ≤ b.next_seq + 1
unfolding call push try_pop pop_all acknowledge
call-next_seq h (pushed now_us bytes) b = omega arith
call-next_seq h popped b = omega arith
call-next_seq h all_popped b = omega arith
call-next_seq h (acked seq) b = omega arith

run-Sound :
    (h : Hasher) (cs : List Call) (out : List InterruptReport) (b : EndpointBuffer)
    → b.next_seq + length cs < 2 ^ 64
    → Sound h (out ++ b.reports) b.next_seq
    → let (more, b1) = run h cs b in Sound h ((out ++ more) ++ b1.reports) b1.next_seq
unfolding run
run-Sound h [] out b room v = rw (append-nil out) v
run-Sound h (c ∷ cs) out b room v =
    let b1 = (call h c b).1 in
    let more = (call h c b).0 in
    let fits : b1.next_seq + length cs < 2 ^ 64 = omega (arith, call-next_seq h c b) in
    rw (← append_assoc out more (run h cs b1).0)
      (run-Sound h cs (out ++ more) b1 fits (call-Sound h c out b (omega arith) v))

-- In any order of fewer than 2^64 calls on a new buffer, what is handed out, followed by what is
-- then still stored, has ascending numbers and passes the check of its checksums.
pub run-Ascending :
    (h : Hasher) (cs : List Call) (endpoint capacity : ℕ)
    → length cs < 2 ^ 64
    → let (out, b) = run h cs (with_capacity endpoint capacity) in
      Ascending (out ++ b.reports) × All (λ r. verify h r ≡ true) (out ++ b.reports)
unfolding with_capacity
run-Ascending h cs endpoint capacity few =
    let empty : Sound h [] 0 = record { ordered = tt; below = tt; intact = tt } in
    let v = run-Sound h cs [] (with_capacity endpoint capacity) (omega arith) empty in
    (v.ordered, v.intact)
