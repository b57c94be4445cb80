-- ===== src/Usb/Transfers.antt =====
-- Transfers on an open device: crates/server/src/usb/transfers.rs. The handle of the crate `rusb`
-- is a parameter: its calls take the device and return it after the call. A read fills a buffer of
-- the size that it is given and tells how much of it counts.
use Prim.Native.Nat.{bit_and}
use rust_p2p_usb.Base.{
  ℕ, ◌+◌, ◌*◌, ◌/◌, ◌%◌, ◌≤◌, ◌≡◌, min, Bool, true, false, not, ◌&&◌, Option, none, some, List, [],
  ◌∷◌, map, String, length, take, replicate, pos, ltb, ◌==◌, if◌then◌else◌, Result, ok, err,
}
use rust_p2p_usb.Protocol.Types.{
  TransferType, control, interrupt, bulk, isochronous, UsbError, TransferResult, success,
  isochronous_success, UsbResponse, IsoPacketDescriptor,
}
use rust_p2p_usb.Protocol.Integrity.{Hasher, compute_checksum, verify_checksum}
mod Retry
pub mod Lengths
pub mod Checked
pub mod Blocking

-- The errors of `rusb` that the code names, and the others with their text.
pub data RusbError : Type 0 where
  timeout pipe no_device not_found busy overflow io invalid_param access : RusbError
  unnamed : (text : String) → RusbError

-- What a read gives: the count, or the error, and the buffer.
pub record Read : Type 0 where
  pub count : Result ℕ RusbError
  pub buffer : List ℕ

pub record Rusb : Type 1 where
  pub Device : Type 0
  pub read_control : (request_type request value index size timeout_ms : ℕ) → Device → Read × Device
  pub write_control :
      (request_type request value index : ℕ)
      → List ℕ
      → (timeout_ms : ℕ) → Device
      → Result ℕ RusbError × Device
  pub read_bulk : (endpoint size timeout_ms : ℕ) → Device → Read × Device
  pub write_bulk : (endpoint : ℕ) → List ℕ → (timeout_ms : ℕ) → Device → Result ℕ RusbError × Device
  pub read_interrupt : (endpoint size timeout_ms : ℕ) → Device → Read × Device
  pub write_interrupt :
      (endpoint : ℕ) → List ℕ → (timeout_ms : ℕ) → Device → Result ℕ RusbError × Device
  pub clear_halt : (endpoint : ℕ) → Device → Result (Unit {0}) RusbError × Device

abbrev pub default_timeout_ms : ℕ
default_timeout_ms = 5000

abbrev pub max_bulk_size_high_speed : ℕ
max_bulk_size_high_speed = 64 * 1024

unfoldable pub map_rusb_error : RusbError → UsbError
map_rusb_error timeout = UsbError.timeout
map_rusb_error pipe = UsbError.pipe
map_rusb_error no_device = UsbError.no_device
map_rusb_error not_found = UsbError.not_found
map_rusb_error busy = UsbError.busy
map_rusb_error overflow = UsbError.overflow
map_rusb_error io = UsbError.io
map_rusb_error invalid_param = UsbError.invalid_param
map_rusb_error access = UsbError.access
map_rusb_error (unnamed text) = UsbError.other text

-- Bit 7 of an endpoint or of a request's type.
unfoldable pub is_in : ℕ → Bool
is_in n = not (bit_and n 0x80 == 0)

-- A stalled read of a control endpoint: a device of one unit answers for its number of units.
abbrev pub stalled_control : ℕ → ℕ → TransferResult
stalled_control request_type request =
    if request_type == 0xA1 && request == 0xFE
    then success (0 ∷ []) none
    else TransferResult.error UsbError.pipe

abbrev pub control_read : ℕ → ℕ → Result ℕ RusbError → List ℕ → TransferResult
control_read request_type request (ok len) buffer = success (take len buffer) none
control_read request_type request (err pipe) buffer = stalled_control request_type request
control_read request_type request (err e) buffer = TransferResult.error (map_rusb_error e)

-- A write returns no data.
abbrev pub written : Result ℕ RusbError → TransferResult
written (ok len) = success [] none
written (err e) = TransferResult.error (map_rusb_error e)

-- A read of what may not be there yet: no data is an empty success.
abbrev pub tolerant : (List ℕ → TransferResult) → Result ℕ RusbError → List ℕ → TransferResult
tolerant done (ok len) buffer = done (take len buffer)
tolerant done (err timeout) buffer = done []
tolerant done (err io) buffer = done []
tolerant done (err e) buffer = TransferResult.error (map_rusb_error e)

unfoldable pub bulk_timeout : ℕ → ℕ → ℕ → ℕ
unfolding is_in
bulk_timeout endpoint transfer_size timeout_ms =
    if is_in endpoint
    then min
        (if ltb max_bulk_size_high_speed transfer_size then 100 + transfer_size / 1024 else 100)
        timeout_ms
    else timeout_ms

abbrev pub is_stall : Result ℕ RusbError → Bool
is_stall (ok a) = false
is_stall (err pipe) = true
is_stall (err e) = false

abbrev pub bulk_read : Hasher → Read → TransferResult
bulk_read h r = tolerant (λ bytes. success bytes (some (compute_checksum h bytes))) r.count r.buffer

abbrev pub checksum_fails : Hasher → List ℕ → Option ℕ → Bool
checksum_fails h bytes none = false
checksum_fails h bytes (some expected) = not (verify_checksum h bytes expected)

module _ (u : Rusb) where
  unfoldable pub execute_control_transfer :
      (request_type request value index : ℕ) → List ℕ → u.Device → TransferResult × u.Device
  unfolding is_in map_rusb_error
  execute_control_transfer request_type request value index bytes d =
      if is_in request_type
      then (let size = if length bytes == 0 then 64 else length bytes in
          let (r, after) =
            u.read_control request_type request value index size default_timeout_ms d in
          (control_read request_type request r.count r.buffer, after))
      else (let (r, after) =
            u.write_control request_type request value index bytes default_timeout_ms d in
          (written r, after))

  abbrev pub after_clear :
      {A : Type 0}
      → (A → TransferResult)
      → (u.Device → A × u.Device)
      → Result (Unit {0}) RusbError
      → u.Device
      → TransferResult × u.Device
  after_clear finish call (ok _) d = let (r, after) = call d in (finish r, after)
  after_clear finish call (err e) d = (TransferResult.error UsbError.pipe, d)

  -- One retry of a call that stalled, where the stall can be cleared.
  unfoldable pub retried :
      {A : Type 0}
      → (stalled : A → Bool) (finish : A → TransferResult) (call : u.Device → A × u.Device)
        (endpoint : ℕ)
      → u.Device
      → TransferResult × u.Device
  retried stalled finish call endpoint d =
      let (r, after) = call d in
      if stalled r
      then (let (cleared, freed) = u.clear_halt endpoint after in
          after_clear finish call cleared freed)
      else (finish r, after)

  unfoldable pub bulk_in :
      Hasher → (endpoint size timeout_ms : ℕ) → u.Device → TransferResult × u.Device
  unfolding retried map_rusb_error
  bulk_in h endpoint size timeout_ms d =
      retried (λ r. is_stall r.count) (bulk_read h) (u.read_bulk endpoint size timeout_ms) endpoint
        d

  unfoldable pub bulk_out :
      (endpoint : ℕ) → List ℕ → (timeout_ms : ℕ) → u.Device → TransferResult × u.Device
  unfolding retried map_rusb_error
  bulk_out endpoint bytes timeout_ms d =
      retried is_stall written (u.write_bulk endpoint bytes timeout_ms) endpoint d

  unfoldable pub execute_bulk_transfer :
      Hasher
      → (endpoint : ℕ) → List ℕ
      → (timeout_ms : ℕ) → Option ℕ
      → u.Device
      → TransferResult × u.Device
  unfolding bulk_in bulk_out bulk_timeout is_in
  execute_bulk_transfer h endpoint bytes timeout_ms checksum d =
      let timeout = bulk_timeout endpoint (length bytes) timeout_ms in
      if is_in endpoint
      then bulk_in h endpoint (length bytes) timeout d
      else if checksum_fails h bytes checksum
      then (TransferResult.error (UsbError.other "Checksum mismatch"), d)
      else bulk_out endpoint bytes timeout d

  unfoldable pub execute_interrupt_transfer :
      (endpoint : ℕ) → List ℕ → (timeout_ms : ℕ) → u.Device → TransferResult × u.Device
  unfolding is_in map_rusb_error
  execute_interrupt_transfer endpoint bytes timeout_ms d =
      if is_in endpoint
      then (let (r, after) = u.read_interrupt endpoint (length bytes) (min 1 timeout_ms) d in
          (tolerant (λ got. success got none) r.count r.buffer, after))
      else (let (r, after) = u.write_interrupt endpoint bytes timeout_ms d in (written r, after))

-- The bytes that the packets of a read have room for.
unfoldable pub total_len : List IsoPacketDescriptor → ℕ
total_len [] = 0
total_len (p ∷ ps) = p.length + total_len ps

-- The packets, each with what it is said to have moved.
unfoldable pub simulated :
    (IsoPacketDescriptor → ℕ) → List IsoPacketDescriptor → List IsoPacketDescriptor
simulated moved [] = []
simulated moved (p ∷ ps) = record p { actual_length = moved p; status = pos 0 } ∷ simulated moved ps

-- No device is asked: the packets of a read are empty, and those of a write are taken whole.
unfoldable pub execute_isochronous_transfer :
    (endpoint : ℕ) → List ℕ → List IsoPacketDescriptor → (start_frame : ℕ) → TransferResult
unfolding is_in total_len simulated
execute_isochronous_transfer endpoint bytes [] start_frame =
    TransferResult.error UsbError.invalid_param
execute_isochronous_transfer endpoint bytes (p ∷ ps) start_frame =
    if is_in endpoint
    then isochronous_success (simulated (λ q. 0) (p ∷ ps)) start_frame 0
        (replicate (total_len (p ∷ ps)) 0)
    else isochronous_success (simulated (λ q. q.length) (p ∷ ps)) start_frame 0 []

module _ (u : Rusb) (h : Hasher) where
  unfoldable pub execute_result : TransferType → u.Device → TransferResult × u.Device
  unfolding execute_control_transfer execute_bulk_transfer execute_interrupt_transfer
      execute_isochronous_transfer
  execute_result (control request_type request value index bytes) d =
      execute_control_transfer u request_type request value index bytes d
  execute_result (bulk endpoint bytes timeout_ms checksum) d =
      execute_bulk_transfer u h endpoint bytes timeout_ms checksum d
  execute_result (interrupt endpoint bytes timeout_ms) d =
      execute_interrupt_transfer u endpoint bytes timeout_ms d
  execute_result (isochronous endpoint bytes packets start_frame interval timeout_ms) d =
      (execute_isochronous_transfer endpoint bytes packets start_frame, d)

  unfoldable pub execute_transfer :
      TransferType → (request_id : ℕ) → u.Device → UsbResponse × u.Device
  unfolding execute_result
  execute_transfer transfer request_id d =
      let (result, after) = execute_result transfer d in
      let response : UsbResponse = record { id = request_id; result = result } in (response, after)
