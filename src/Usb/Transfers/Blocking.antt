-- ===== src/Usb/Transfers/Blocking.antt =====
-- How long a request keeps the device, and with it the thread that serves every other one.
use rust_p2p_usb.Base.{
  ℕ, ◌≡◌, refl, true, ◌+◌, ◌*◌, ◌/◌, ◌<◌, ◌≤◌, min, Bool, inl, inr, Bool-cases, List, Option,
  Result, ok, err, arith, length, ◌==◌, if◌then◌else◌,
}
use rust_p2p_usb.Protocol.Types.{
  TransferType, control, interrupt, bulk, isochronous, TransferResult,
}
use rust_p2p_usb.Protocol.Integrity.{Hasher}
use rust_p2p_usb.Usb.Transfers.{
  Rusb, RusbError, default_timeout_ms, is_in, written, execute_control_transfer,
  execute_bulk_transfer, execute_interrupt_transfer, execute_result, bulk_timeout, bulk_in,
  bulk_out, bulk_read, is_stall, after_clear, retried, checksum_fails,
}

-- A call ends within its timeout, where that is not 0, which stands for no limit; `now` is the time
-- of a device in ms, and clearing a stall takes `clear_ms` at most.
pub record Timed (u : Rusb) (now : u.Device → ℕ) (clear_ms : ℕ) : Type 0 where
  pub read_control :
      (request_type request value index size timeout_ms : ℕ) (d : u.Device)
      → 0 < timeout_ms
      → now (u.read_control request_type request value index size timeout_ms d).1
        ≤ now d + timeout_ms
  pub write_control :
      (request_type request value index : ℕ) (bytes : List ℕ) (timeout_ms : ℕ) (d : u.Device)
      → 0 < timeout_ms
      → now (u.write_control request_type request value index bytes timeout_ms d).1
        ≤ now d + timeout_ms
  pub read_bulk :
      (endpoint size timeout_ms : ℕ) (d : u.Device)
      → 0 < timeout_ms
      → now (u.read_bulk endpoint size timeout_ms d).1 ≤ now d + timeout_ms
  pub write_bulk :
      (endpoint : ℕ) (bytes : List ℕ) (timeout_ms : ℕ) (d : u.Device)
      → 0 < timeout_ms
      → now (u.write_bulk endpoint bytes timeout_ms d).1 ≤ now d + timeout_ms
  pub read_interrupt :
      (endpoint size timeout_ms : ℕ) (d : u.Device)
      → 0 < timeout_ms
      → now (u.read_interrupt endpoint size timeout_ms d).1 ≤ now d + timeout_ms
  pub write_interrupt :
      (endpoint : ℕ) (bytes : List ℕ) (timeout_ms : ℕ) (d : u.Device)
      → 0 < timeout_ms
      → now (u.write_interrupt endpoint bytes timeout_ms d).1 ≤ now d + timeout_ms
  pub clear_halt :
      (endpoint : ℕ) (d : u.Device) → now (u.clear_halt endpoint d).1 ≤ now d + clear_ms

-- The timeout that a request comes with.
abbrev pub asked : TransferType → ℕ
asked (control request_type request value index bytes) = default_timeout_ms
asked (interrupt endpoint bytes timeout_ms) = timeout_ms
asked (bulk endpoint bytes timeout_ms checksum) = timeout_ms
asked (isochronous endpoint bytes packets start_frame interval timeout_ms) = default_timeout_ms

-- What is promised of a request that begins at one time and ends at another.
abbrev pub IsPrompt : ℕ → TransferType → ℕ → ℕ → Type 0
IsPrompt clear_ms (control request_type request value index bytes) begin end = end ≤ begin + 5000
IsPrompt clear_ms (interrupt endpoint bytes timeout_ms) begin end =
    (end ≤ begin + timeout_ms) × (is_in endpoint ≡ true → end ≤ begin + 1)
IsPrompt clear_ms (bulk endpoint bytes timeout_ms checksum) begin end =
    (end ≤ begin + (2 * timeout_ms + clear_ms))
    × (is_in endpoint ≡ true → end ≤ begin + (2 * (100 + length bytes / 1024) + clear_ms))
    × (is_in endpoint ≡ true → length bytes ≤ 65536 → end ≤ begin + (200 + clear_ms))
IsPrompt clear_ms (isochronous endpoint bytes packets start_frame interval timeout_ms) begin end =
    end ≡ begin

bulk_timeout-le :
    (endpoint size timeout_ms : ℕ)
    → (bulk_timeout endpoint size timeout_ms ≤ timeout_ms)
      × (is_in endpoint ≡ true → bulk_timeout endpoint size timeout_ms ≤ 100 + size / 1024)
      × (is_in endpoint ≡ true → size ≤ 65536 → bulk_timeout endpoint size timeout_ms ≤ 100)
      × (0 < timeout_ms → 0 < bulk_timeout endpoint size timeout_ms)
unfolding bulk_timeout
bulk_timeout-le endpoint size timeout_ms = (ground arith, ground arith, ground arith, ground arith)

module _ (u : Rusb) (now : u.Device → ℕ) (clear_ms : ℕ) (timed : Timed u now clear_ms) where
  after_clear-now :
      {A : Type 0}
      → (finish : A → TransferResult) (call : u.Device → A × u.Device) (limit : ℕ)
        (cleared : Result (Unit {0}) RusbError) (d : u.Device)
      → ((d : u.Device) → now (call d).1 ≤ now d + limit)
      → now (after_clear u finish call cleared d).1 ≤ now d + limit
  after_clear-now finish call limit (ok _) d within = within d
  after_clear-now finish call limit (err e) d within = omega arith

  retried-now :
      {A : Type 0}
      → (stalled : A → Bool) (finish : A → TransferResult) (call : u.Device → A × u.Device)
        (endpoint limit : ℕ) (d : u.Device)
      → ((d : u.Device) → now (call d).1 ≤ now d + limit)
      → now (retried u stalled finish call endpoint d).1 ≤ now d + (2 * limit + clear_ms)
  unfolding retried
  retried-now stalled finish call endpoint limit d within =
      let first = within d in
      let clear = timed.clear_halt endpoint (call d).1 in
      let (cleared, freed) = u.clear_halt endpoint (call d).1 in
      let second = after_clear-now finish call limit cleared freed within in
      elim (Bool-cases (stalled (call d).0)) [
        | inr no_stall ↦ rw no_stall (omega arith)
        | inl a_stall ↦ rw a_stall (omega arith)
      ]

  bulk_in-now :
      (h : Hasher) (endpoint size limit timeout_ms : ℕ) (d : u.Device)
      → 0 < timeout_ms
      → timeout_ms ≤ limit
      → now (bulk_in u h endpoint size timeout_ms d).1 ≤ now d + (2 * limit + clear_ms)
  unfolding bulk_in
  bulk_in-now h endpoint size limit timeout_ms d some_time small =
      let within =
        retried-now (λ r. is_stall r.count) (bulk_read h) (u.read_bulk endpoint size timeout_ms)
          endpoint timeout_ms d (λ d. timed.read_bulk endpoint size timeout_ms d some_time) in
      omega arith

  bulk_out-now :
      (endpoint : ℕ) (bytes : List ℕ) (timeout_ms : ℕ) (d : u.Device)
      → 0 < timeout_ms
      → now (bulk_out u endpoint bytes timeout_ms d).1 ≤ now d + (2 * timeout_ms + clear_ms)
  unfolding bulk_out
  bulk_out-now endpoint bytes timeout_ms d some_time =
      retried-now is_stall written (u.write_bulk endpoint bytes timeout_ms) endpoint timeout_ms d
        (λ d. timed.write_bulk endpoint bytes timeout_ms d some_time)

  control_transfer-now :
      (request_type request value index : ℕ) (bytes : List ℕ) (d : u.Device)
      → now (execute_control_transfer u request_type request value index bytes d).1
        ≤ now d + default_timeout_ms
  unfolding execute_control_transfer
  control_transfer-now request_type request value index bytes d =
      let size = if length bytes == 0 then 64 else length bytes in
      let read =
        timed.read_control request_type request value index size default_timeout_ms d
          (omega arith) in
      let wrote =
        timed.write_control request_type request value index bytes default_timeout_ms d
          (omega arith) in
      elim (Bool-cases (is_in request_type)) [
        | inl reads ↦ rw reads read
        | inr writes ↦ rw writes wrote
      ]

  interrupt_transfer-now :
      (endpoint : ℕ) (bytes : List ℕ) (timeout_ms : ℕ) (d : u.Device)
      → 0 < timeout_ms
      → IsPrompt clear_ms
          (interrupt endpoint bytes timeout_ms)
          (now d)
          (now (execute_interrupt_transfer u endpoint bytes timeout_ms d).1)
  unfolding execute_interrupt_transfer
  interrupt_transfer-now endpoint bytes timeout_ms d some_time =
      let read = timed.read_interrupt endpoint (length bytes) (min 1 timeout_ms) d (omega arith) in
      let wrote = timed.write_interrupt endpoint bytes timeout_ms d some_time in
      elim (Bool-cases (is_in endpoint)) [
        | inl reads ↦ rw reads (omega (arith, read), λ _. omega (arith, read))
        | inr writes ↦ rw writes (wrote, λ contrary. cc)
      ]

  bulk_transfer-now :
      (h : Hasher) (endpoint : ℕ) (bytes : List ℕ) (timeout_ms : ℕ) (checksum : Option ℕ)
      (d : u.Device)
      → 0 < timeout_ms
      → IsPrompt clear_ms
          (bulk endpoint bytes timeout_ms checksum)
          (now d)
          (now (execute_bulk_transfer u h endpoint bytes timeout_ms checksum d).1)
  unfolding execute_bulk_transfer
  bulk_transfer-now h endpoint bytes timeout_ms checksum d some_time =
      let limits = bulk_timeout-le endpoint (length bytes) timeout_ms in
      elim (Bool-cases (is_in endpoint)) [
        | inl reads ↦ rw reads (
          bulk_in-now h endpoint (length bytes) timeout_ms _ d (rw reads at (limits.3 some_time))
              (rw reads at limits.0),
          λ _.
              bulk_in-now h endpoint (length bytes) (100 + length bytes / 1024) _ d
                (rw reads at (limits.3 some_time)) (rw reads at (limits.1 reads)),
          λ _ small.
              bulk_in-now h endpoint (length bytes) 100 _ d (rw reads at (limits.3 some_time))
                (rw reads at (limits.2 reads small)),
        )
        | inr writes ↦ rw writes (elim (Bool-cases (checksum_fails h bytes checksum)) [
          | inl bad ↦ rw bad (omega arith, λ contrary. cc, λ contrary. cc)
          | inr good ↦
              rw good
                (bulk_out-now endpoint bytes timeout_ms d some_time, λ contrary. cc, λ contrary. cc)
        ])
      ]

-- Where a call ends within its timeout and the request's timeout is not 0, a request keeps the
-- device: a control transfer for 5 s at most; an interrupt transfer for its timeout, and a read for
-- 1 ms; a bulk transfer for twice its timeout and the clearing of a stall, and a read, beside the
-- clearing, for twice 100 ms and a ms for each KB, or twice 100 ms if it asks for 64 KB at most; an
-- isochronous transfer for no time.
pub execute_result-now :
    (u : Rusb) (now : u.Device → ℕ) (clear_ms : ℕ) (h : Hasher)
    → Timed u now clear_ms
    → (t : TransferType) (d : u.Device) → 0 < asked t
    → IsPrompt clear_ms t (now d) (now (execute_result u h t d).1)
unfolding execute_result
execute_result-now u now clear_ms h timed (control request_type request value index bytes) d
      some_time =
    control_transfer-now u now clear_ms timed request_type request value index bytes d
execute_result-now u now clear_ms h timed (interrupt endpoint bytes timeout_ms) d some_time =
    interrupt_transfer-now u now clear_ms timed endpoint bytes timeout_ms d some_time
execute_result-now u now clear_ms h timed (bulk endpoint bytes timeout_ms checksum) d some_time =
    bulk_transfer-now u now clear_ms timed h endpoint bytes timeout_ms checksum d some_time
execute_result-now u now clear_ms h timed
      (isochronous endpoint bytes packets start_frame interval timeout_ms) d some_time =
    refl
