-- ===== src/Usb/Transfers/Lengths.antt =====
-- No answer has more data than the request has room for.
use rust_p2p_usb.Base.{
  length-replicate, subst, some, min, none, Option, ℕ, ◌≤◌, ◌≡◌, refl, inl, inr, Bool-cases, List,
  [], ◌∷◌, Result, ok, err, arith, length-take_at_most, length, take, ◌==◌, if◌then◌else◌,
}
use rust_p2p_usb.Protocol.Types.{
  TransferType, control, interrupt, bulk, isochronous, TransferResult, success, isochronous_success,
  IsoPacketDescriptor,
}
use rust_p2p_usb.Protocol.Integrity.{Hasher}
use rust_p2p_usb.Usb.Transfers.Retry.{retried_lem}
use rust_p2p_usb.Protocol.Integrity.{compute_checksum}
use rust_p2p_usb.Usb.Transfers.{
  Rusb, RusbError, timeout, pipe, no_device, not_found, busy, overflow, io, invalid_param, access,
  unnamed, default_timeout_ms, is_in, control_read, written, tolerant, bulk_timeout, total_len,
  execute_control_transfer, execute_bulk_transfer, execute_interrupt_transfer,
  execute_isochronous_transfer, execute_result, bulk_in, bulk_out, is_stall, bulk_read,
}

-- A read leaves the buffer's size as it is.
pub record Sized (u : Rusb) : Type 0 where
  pub control :
      (request_type request value index size timeout_ms : ℕ) (d : u.Device)
      → length (u.read_control request_type request value index size timeout_ms d).0.buffer ≡ size
  pub bulk :
      (endpoint size timeout_ms : ℕ) (d : u.Device)
      → length (u.read_bulk endpoint size timeout_ms d).0.buffer ≡ size
  pub interrupt :
      (endpoint size timeout_ms : ℕ) (d : u.Device)
      → length (u.read_interrupt endpoint size timeout_ms d).0.buffer ≡ size

abbrev pub data_of : TransferResult → List ℕ
data_of (success bytes checksum) = bytes
data_of (isochronous_success packets start_frame error_count bytes) = bytes
data_of (TransferResult.error e) = []

-- What a request leaves room for: nothing in a write.
abbrev pub room : TransferType → ℕ
room (control request_type request value index bytes) =
    if is_in request_type then (if length bytes == 0 then 64 else length bytes) else 0
room (interrupt endpoint bytes timeout_ms) = if is_in endpoint then length bytes else 0
room (bulk endpoint bytes timeout_ms checksum) = if is_in endpoint then length bytes else 0
room (isochronous endpoint bytes packets start_frame interval timeout_ms) =
    if is_in endpoint then total_len packets else 0

length-written : (r : Result ℕ RusbError) → length (data_of (written r)) ≡ 0
length-written (ok len) = refl
length-written (err e) = refl

length-tolerant :
    (done : List ℕ → TransferResult) (r : Result ℕ RusbError) (buffer : List ℕ)
    → ((bytes : List ℕ) → data_of (done bytes) ≡ bytes)
    → length (data_of (tolerant done r buffer)) ≤ length buffer
length-tolerant done (ok len) buffer keeps =
    rw (keeps (take len buffer)) (length-take_at_most len buffer)
length-tolerant done (err timeout) buffer keeps = rw (keeps []) (omega arith)
length-tolerant done (err io) buffer keeps = rw (keeps []) (omega arith)
length-tolerant done (err pipe) buffer keeps = omega arith
length-tolerant done (err no_device) buffer keeps = omega arith
length-tolerant done (err not_found) buffer keeps = omega arith
length-tolerant done (err busy) buffer keeps = omega arith
length-tolerant done (err overflow) buffer keeps = omega arith
length-tolerant done (err invalid_param) buffer keeps = omega arith
length-tolerant done (err access) buffer keeps = omega arith
length-tolerant done (err (unnamed text)) buffer keeps = omega arith

length-control_read :
    (request_type request : ℕ) (r : Result ℕ RusbError) (buffer : List ℕ)
    → 1 ≤ length buffer
    → length (data_of (control_read request_type request r buffer)) ≤ length buffer
length-control_read request_type request (ok len) buffer some_room = length-take_at_most len buffer
length-control_read request_type request (err timeout) buffer some_room = omega arith
length-control_read request_type request (err io) buffer some_room = omega arith
length-control_read request_type request (err pipe) buffer some_room = ground arith
length-control_read request_type request (err no_device) buffer some_room = omega arith
length-control_read request_type request (err not_found) buffer some_room = omega arith
length-control_read request_type request (err busy) buffer some_room = omega arith
length-control_read request_type request (err overflow) buffer some_room = omega arith
length-control_read request_type request (err invalid_param) buffer some_room = omega arith
length-control_read request_type request (err access) buffer some_room = omega arith
length-control_read request_type request (err (unnamed text)) buffer some_room = omega arith

one_at_least : (bytes : List ℕ) → 1 ≤ (if length bytes == 0 then 64 else length bytes)
one_at_least bytes = ground arith

module _ (u : Rusb) (sized : Sized u) where
  length-bulk_in :
      (h : Hasher) (endpoint size timeout_ms : ℕ) (d : u.Device)
      → length (data_of (bulk_in u h endpoint size timeout_ms d).0) ≤ size
  unfolding bulk_in
  length-bulk_in h endpoint size timeout_ms d =
      retried_lem u (λ t. length (data_of t) ≤ size) (λ r. is_stall r.count) (bulk_read h)
        (u.read_bulk endpoint size timeout_ms) endpoint d
        (λ d.
          let (r, after) = u.read_bulk endpoint size timeout_ms d in
          subst (λ n. length (data_of (bulk_read h r)) ≤ n) (sized.bulk endpoint size timeout_ms d)
            (length-tolerant (λ bytes. success bytes (some (compute_checksum h bytes))) r.count
              r.buffer (λ bytes. refl)))
        (omega arith)

  length-bulk_out :
      (endpoint : ℕ) (bytes : List ℕ) (timeout_ms : ℕ) (d : u.Device)
      → length (data_of (bulk_out u endpoint bytes timeout_ms d).0) ≡ 0
  unfolding bulk_out
  length-bulk_out endpoint bytes timeout_ms d =
      retried_lem u (λ t. length (data_of t) ≡ 0) is_stall written
        (u.write_bulk endpoint bytes timeout_ms) endpoint d
        (λ d. length-written (u.write_bulk endpoint bytes timeout_ms d).0) refl

  length-control_transfer :
      (request_type request value index : ℕ) (bytes : List ℕ) (d : u.Device)
      → length (data_of (execute_control_transfer u request_type request value index bytes d).0)
        ≤ room (control request_type request value index bytes)
  unfolding execute_control_transfer
  length-control_transfer request_type request value index bytes d =
      let size = if length bytes == 0 then 64 else length bytes in
      let r = u.read_control request_type request value index size default_timeout_ms d in
      let w = u.write_control request_type request value index bytes default_timeout_ms d in
      let read = length-control_read request_type request r.0.count r.0.buffer in
      let full = sized.control request_type request value index size default_timeout_ms d in
      elim (Bool-cases (is_in request_type)) [
        | inl reads ↦ rw reads (
            subst
              (λ n. length (data_of (control_read request_type request r.0.count r.0.buffer)) ≤ n)
              full (read (rw full (one_at_least bytes))))
        | inr writes ↦ rw writes (rw (length-written w.0) (omega arith))
      ]

  length-bulk_transfer :
      (h : Hasher) (endpoint : ℕ) (bytes : List ℕ) (timeout_ms : ℕ) (checksum : Option ℕ)
      (d : u.Device)
      → length (data_of (execute_bulk_transfer u h endpoint bytes timeout_ms checksum d).0)
        ≤ room (bulk endpoint bytes timeout_ms checksum)
  unfolding execute_bulk_transfer
  length-bulk_transfer h endpoint bytes timeout_ms checksum d =
      let timeout = bulk_timeout endpoint (length bytes) timeout_ms in
      let read = length-bulk_in h endpoint (length bytes) timeout d in
      let wrote = length-bulk_out endpoint bytes timeout d in ground arith

  length-interrupt_transfer :
      (endpoint : ℕ) (bytes : List ℕ) (timeout_ms : ℕ) (d : u.Device)
      → length (data_of (execute_interrupt_transfer u endpoint bytes timeout_ms d).0)
        ≤ room (interrupt endpoint bytes timeout_ms)
  unfolding execute_interrupt_transfer
  length-interrupt_transfer endpoint bytes timeout_ms d =
      let r = u.read_interrupt endpoint (length bytes) (min 1 timeout_ms) d in
      let w = u.write_interrupt endpoint bytes timeout_ms d in
      elim (Bool-cases (is_in endpoint)) [
        | inl reads ↦ rw reads (
            subst
              (λ n. length (data_of (tolerant (λ got. success got none) r.0.count r.0.buffer)) ≤ n)
              (sized.interrupt endpoint (length bytes) (min 1 timeout_ms) d)
              (length-tolerant (λ got. success got none) r.0.count r.0.buffer (λ got. refl)))
        | inr writes ↦ rw writes (rw (length-written w.0) (omega arith))
      ]

length-isochronous_transfer :
    (endpoint : ℕ) (bytes : List ℕ) (packets : List IsoPacketDescriptor)
    (start_frame interval timeout_ms : ℕ)
    → length (data_of (execute_isochronous_transfer endpoint bytes packets start_frame))
      ≤ room (isochronous endpoint bytes packets start_frame interval timeout_ms)
unfolding execute_isochronous_transfer
length-isochronous_transfer endpoint bytes [] start_frame interval timeout_ms = omega arith
length-isochronous_transfer endpoint bytes (p ∷ ps) start_frame interval timeout_ms =
    elim (Bool-cases (is_in endpoint)) [
      | inl reads ↦ rw reads (rw (length-replicate {A = ℕ} (total_len (p ∷ ps)) 0) (omega arith))
      | inr writes ↦ rw writes (omega arith)
    ]

-- Where reads leave their buffer's size as it is: the data of an answer is no longer than the room
-- that the request leaves, which is none in a write, 64 bytes in a control read without a buffer
-- and the buffer's or the packets' size in every other read.
pub execute_result-length :
    (u : Rusb) (h : Hasher)
    → Sized u
    → (t : TransferType) (d : u.Device) → length (data_of (execute_result u h t d).0) ≤ room t
unfolding execute_result
execute_result-length u h sized (control request_type request value index bytes) d =
    length-control_transfer u sized request_type request value index bytes d
execute_result-length u h sized (interrupt endpoint bytes timeout_ms) d =
    length-interrupt_transfer u sized endpoint bytes timeout_ms d
execute_result-length u h sized (bulk endpoint bytes timeout_ms checksum) d =
    length-bulk_transfer u sized h endpoint bytes timeout_ms checksum d
execute_result-length u h sized (isochronous endpoint bytes packets start_frame interval timeout_ms)
      d =
    length-isochronous_transfer endpoint bytes packets start_frame interval timeout_ms
