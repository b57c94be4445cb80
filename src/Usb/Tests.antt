-- ===== src/Usb/Tests.antt =====
-- A device of one unit that answers every read with three bytes, and stalls its endpoint once.
use rust_p2p_usb.Base.{
  Result, codes, Bool-cases, inl, inr, ℕ, ◌+◌, ◌≤◌, ◌≡◌, refl, Bool, true, false, if◌then◌else◌,
  List, [], ◌∷◌, none, some, ok, err, arith, length, replicate, length-replicate,
}
use rust_p2p_usb.Protocol.Types.{control, interrupt, bulk, UsbError, TransferResult, success}
use rust_p2p_usb.Protocol.Integrity.{Hasher, compute_checksum}
use rust_p2p_usb.UsbIp.Header.{UsbIpHeader}
use rust_p2p_usb.UsbIp.CmdSubmit.{UsbIpCmdSubmit}
use rust_p2p_usb.Usb.Transfers.{
  RusbError, Rusb, Read, pipe, timeout, is_in, execute_result, execute_bulk_transfer,
}
use rust_p2p_usb.Usb.Transfers.Lengths.{Sized}
use rust_p2p_usb.Usb.Transfers.Checked.{execute_bulk_transfer-answers, ReadAnswer, WriteAnswer}
use rust_p2p_usb.Usb.Transfers.Blocking.{Timed, IsPrompt, execute_result-now}
use rust_p2p_usb.Protocol.Types.{UsbRequest}
use rust_p2p_usb.Usb.Transfers.{execute_transfer}
use rust_p2p_usb.Usb.Manager.Tests.{in_use, in_use-Reach, in_use_id, one_client}
use rust_p2p_usb.Usb.Worker.{
  Worker, Outside, handle_command_inner, submit_transfer, transferred, on_device,
}
use rust_p2p_usb.Usb.Worker.Served.{submit_transfer-executed}
use rust_p2p_usb.Usb.Answers.{answer, answer-fits}

-- The clock of the device in ms, and whether its endpoint is stalled.
record Stick : Type 0 where
  time : ℕ
  stalled : Bool

abbrev got : ℕ → Read
got size = record { count = ok 3; buffer = replicate size 7 }

abbrev later : Stick → Stick
later d = record d { time = d.time + 1 }

abbrev read_stick : ℕ → Stick → Read × Stick
read_stick size d =
    if d.stalled
    then (record { count = err pipe; buffer = replicate size 7 }, later d)
    else (got size, later d)

abbrev stick : Rusb
stick = record {
  Device = Stick;
  read_control = λ rt rq v i size ms d. (got size, later d);
  write_control = λ rt rq v i bytes ms d. (ok (length bytes), later d);
  read_bulk = λ endpoint size ms d. read_stick size d;
  write_bulk = λ endpoint bytes ms d. (ok (length bytes), later d);
  read_interrupt = λ endpoint size ms d. (got size, later d);
  write_interrupt = λ endpoint bytes ms d. (err timeout, later d);
  clear_halt = λ endpoint d. (ok _, record d { stalled = false });
}

-- Not the checksum of the crate, but one that can be fed in parts.
abbrev sum : List ℕ → ℕ
sum [] = 0
sum (b ∷ bs) = b + sum bs

abbrev summed : Hasher
summed = record { State = ℕ; new = 0; update = λ s bytes. s + sum bytes; finalize = λ s. s }

length-read_stick : (size : ℕ) (d : Stick) → length (read_stick size d).0.buffer ≡ size
length-read_stick size d = elim (Bool-cases d.stalled) [
  | inl halted ↦ rw halted (length-replicate {A = ℕ} size 7)
  | inr ready ↦ rw ready (length-replicate {A = ℕ} size 7)
]

stick-Sized : Sized stick
stick-Sized = record {
  control = λ rt rq v i size ms d. length-replicate size 7;
  bulk = λ endpoint size ms d. length-read_stick size d;
  interrupt = λ endpoint size ms d. length-replicate size 7;
}

abbrev plugged : Stick
plugged = record { time = 0; stalled = true }

-- The stalled read is repeated, and its answer has a checksum.
retried_read :
    execute_result stick summed (bulk 0x81 (replicate 8 0) 5000 none) plugged
    ≡ (success (7 ∷ 7 ∷ 7 ∷ []) (some 21), record { time = 2; stalled = false })
unfolding execute_result is_in compute_checksum
retried_read = refl

-- An endpoint of a device that waits longer than a write may.
late_write :
    (execute_result stick summed (interrupt 0x02 (1 ∷ []) 10) plugged).0
    ≡ TransferResult.error UsbError.timeout
unfolding execute_result is_in
late_write = refl

-- A control read that asks for nothing is given what a default buffer takes.
asked_for_nothing :
    (execute_result stick summed (control 0x80 6 256 0 []) plugged).0
    ≡ success (7 ∷ 7 ∷ 7 ∷ []) none
unfolding execute_result is_in
asked_for_nothing = refl

execute_bulk_transfer-answers_example :
    let answered = (execute_bulk_transfer stick summed 0x81 (replicate 8 0) 5000 none plugged).0 in
    (is_in 0x81 ≡ true → ReadAnswer summed answered) × (is_in 0x81 ≡ false → WriteAnswer answered)
execute_bulk_transfer-answers_example =
    execute_bulk_transfer-answers stick summed 0x81 (replicate 8 0) 5000 none plugged

stick-Timed : Timed stick (λ d. d.time) 0
stick-Timed = record {
  read_control = λ rt rq v i size ms d some_time. omega arith;
  write_control = λ rt rq v i bytes ms d some_time. omega arith;
  read_bulk = λ endpoint size ms d some_time. ground arith;
  write_bulk = λ endpoint bytes ms d some_time. omega arith;
  read_interrupt = λ endpoint size ms d some_time. omega arith;
  write_interrupt = λ endpoint bytes ms d some_time. omega arith;
  clear_halt = λ endpoint d. omega arith;
}

execute_result-now_example :
    IsPrompt 0
      (bulk 0x81 (replicate 8 0) 5000 none)
      0
      (execute_result stick summed (bulk 0x81 (replicate 8 0) 5000 none) plugged).1.time
execute_result-now_example =
    execute_result-now stick (λ d. d.time) 0 summed stick-Timed
      (bulk 0x81 (replicate 8 0) 5000 none) plugged (omega arith)

abbrev poll_header : UsbIpHeader
poll_header = record { command = 1; seqnum = 7; devid = 65538; direction = 1; ep = 1 }

abbrev poll_command : UsbIpCmdSubmit
poll_command = record {
  transfer_flags = 0;
  transfer_buffer_length = 8;
  start_frame = 0;
  number_of_packets = 0;
  interval = 4;
  setup = replicate 8 0;
  iso_packets = [];
}

answer-fits_example :
    let r = answer stick summed 1 poll_header poll_command plugged in
    (r.ret.actual_length ≡ length r.bytes) × (length r.bytes ≤ 8)
answer-fits_example =
    answer-fits stick summed stick-Sized 1 poll_header poll_command plugged (omega arith)
      (omega arith) refl

abbrev no_reset : Stick → Result (Unit {0}) RusbError × Stick
no_reset d = (ok _, d)

abbrev busy_worker : Worker stick summed no_reset
busy_worker = record { manager = in_use; hardware = λ id. plugged }

abbrev outside : Outside
outside = record { opening = ok _; to_string = λ e. "error"; now = 20; locked_at = 20 }

abbrev read_mouse : UsbRequest
read_mouse = record { id = 9; handle = 1; transfer = bulk 0x81 (replicate 8 0) 5000 none }

submit_transfer-executed_example :
    let (response, after) = execute_transfer stick summed read_mouse.transfer 9 plugged in
    (handle_command_inner stick summed no_reset outside (submit_transfer 1 read_mouse) busy_worker
      ≡ (transferred response, on_device stick summed no_reset 1 after busy_worker))
    × (response.id ≡ 9)
submit_transfer-executed_example =
    submit_transfer-executed stick summed no_reset (codes "0x046D:*" ∷ []) one_client outside 1 1
      read_mouse busy_worker (omega arith) in_use-Reach in_use_id
