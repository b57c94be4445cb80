-- ===== src/Interrupt/Balance.antt =====
-- Every report that the server's buffer was given is handed out, stored or counted as lost.
use rust_p2p_usb.Base.{
  ℕ, ◌+◌, ◌^◌, ◌≤◌, ◌<◌, ◌≡◌, refl, List, [], ◌∷◌, arith, length, tail, head?, length-append,
  length-tail,
}
use rust_p2p_usb.Protocol.Integrity.{Hasher}
use rust_p2p_usb.Interrupt.{
  InterruptReport, EndpointBuffer, with_capacity, new_report, push, try_pop, pop_all, acknowledge,
}
use rust_p2p_usb.Interrupt.Order.{Call, pushed, popped, all_popped, acked, list_of, call, run}

-- `handed` reports are gone, on a buffer of at least one place.
record Balanced (capacity handed : ℕ) (b : EndpointBuffer) : Type 0 where
  counted : b.total_received ≡ handed + b.total_dropped + length b.reports
  bounded : length b.reports ≤ capacity
  size : b.max_size ≡ capacity
  room : 1 ≤ capacity

push-Balanced :
    (h : Hasher) (now_us : ℕ) (bytes : List ℕ) (capacity handed : ℕ) (b : EndpointBuffer)
    → b.total_received + 1 < 2 ^ 64
    → Balanced capacity handed b
    → Balanced capacity handed (push h now_us bytes b).1
unfolding push
push-Balanced h now_us bytes capacity handed b few v =
    let r = new_report h now_us b.next_seq b.endpoint bytes in
    record {
      counted = ground (
        arith,
        v.counted,
        v.bounded,
        v.size,
        v.room,
        length-append b.reports (r ∷ []),
        length-append (tail b.reports) (r ∷ []),
        length-tail b.reports,
      );
      bounded = ground (
        arith,
        v.counted,
        v.bounded,
        v.size,
        v.room,
        length-append b.reports (r ∷ []),
        length-append (tail b.reports) (r ∷ []),
        length-tail b.reports,
      );
      size = v.size;
      room = v.room;
    }

pop_counts :
    (rs : List InterruptReport) → length (list_of (head? rs)) + length (tail rs) ≡ length rs
pop_counts [] = omega arith
pop_counts (r ∷ rs) = omega arith

call-Balanced :
    (h : Hasher) (c : Call) (capacity handed : ℕ) (b : EndpointBuffer)
    → b.total_received + 1 < 2 ^ 64
    → Balanced capacity handed b
    → let (more, b1) = call h c b in Balanced capacity (handed + length more) b1
unfolding call try_pop pop_all acknowledge
call-Balanced h (pushed now_us bytes) capacity handed b few v =
    let w = push-Balanced h now_us bytes capacity handed b few v in
    record { counted = omega (arith, w.counted); bounded = w.bounded; size = w.size; room = w.room }
call-Balanced h popped capacity handed b few v = record {
  counted = omega (arith, v.counted, pop_counts b.reports);
  bounded = omega (arith, v.bounded, pop_counts b.reports);
  size = v.size;
  room = v.room;
}
call-Balanced h all_popped capacity handed b few v = record {
  counted = omega (arith, v.counted);
  bounded = omega arith;
  size = v.size;
  room = v.room;
}
call-Balanced h (acked seq) capacity handed b few v = record {
  counted = omega (arith, v.counted);
  bounded = v.bounded;
  size = v.size;
  room = v.room;
}

call-total_received :
    (h : Hasher) (c : Call) (b : EndpointBuffer)
    → (call h c b).1.total_received ≤ b.total_received + 1
unfolding call push try_pop pop_all acknowledge
call-total_received h (pushed now_us bytes) b = omega arith
call-total_received h popped b = omega arith
call-total_received h all_popped b = omega arith
call-total_received h (acked seq) b = omega arith

run-Balanced :
    (h : Hasher) (cs : List Call) (capacity handed : ℕ) (b : EndpointBuffer)
    → b.total_received + length cs < 2 ^ 64
    → Balanced capacity handed b
    → let (more, b1) = run h cs b in Balanced capacity (handed + length more) b1
unfolding run
run-Balanced h [] capacity handed b few v = record {
  counted = omega (arith, v.counted);
  bounded = v.bounded;
  size = v.size;
  room = v.room;
}
run-Balanced h (c ∷ cs) capacity handed b few v =
    let b1 = (call h c b).1 in
    let more = (call h c b).0 in
    let fits : b1.total_received + length cs < 2 ^ 64 = omega (arith, call-total_received h c b) in
    let w =
      run-Balanced h cs capacity (handed + length more) b1 fits
        (call-Balanced h c capacity handed b (omega arith) v) in
    record {
      counted = omega (arith, w.counted, length-append more (run h cs b1).0);
      bounded = w.bounded;
      size = w.size;
      room = w.room;
    }

-- After fewer than 2^64 calls on a new buffer of at least one place: the reports received are as
-- many as those handed out, those counted as lost and those stored, and no more are stored than
-- there are places.
pub run-total_received :
    (h : Hasher) (cs : List Call) (endpoint capacity : ℕ)
    → length cs < 2 ^ 64
    → 1 ≤ capacity
    → let (out, b) = run h cs (with_capacity endpoint capacity) in
      (b.total_received ≡ length out + b.total_dropped + length b.reports)
      × (length b.reports ≤ capacity)
unfolding with_capacity
run-total_received h cs endpoint capacity few room =
    let start : Balanced capacity 0 (with_capacity endpoint capacity) = record {
      counted = refl;
      bounded = omega arith;
      size = refl;
      room = room;
    } in
    let v = run-Balanced h cs capacity 0 (with_capacity endpoint capacity) (omega arith) start in
    (omega (arith, v.counted), v.bounded)
