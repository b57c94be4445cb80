-- ===== src/Usb/Transfers/Checked.antt =====
-- What a bulk transfer's answer promises.
use rust_p2p_usb.Base.{
  ℕ, ◌≡◌, ◌≢◌, refl, true, false, inl, inr, Bool-cases, List, [], Option, none, some, Result, ok,
  err, arith, length, take, ==_self,
}
use rust_p2p_usb.Protocol.Types.{TransferResult, UsbError, success, isochronous_success}
use rust_p2p_usb.Protocol.Integrity.{Hasher, compute_checksum, verify_checksum}
use rust_p2p_usb.Usb.Transfers.{
  Rusb, RusbError, timeout, pipe, no_device, not_found, busy, overflow, io, invalid_param, access,
  unnamed, is_in, written, execute_bulk_transfer, bulk_in, bulk_out, bulk_read, is_stall,
  map_rusb_error, checksum_fails,
}
use rust_p2p_usb.Usb.Transfers.Retry.{retried_lem}

-- A read's data with a checksum that the other side accepts; no device that has nothing to say is
-- an error.
abbrev pub ReadAnswer : Hasher → TransferResult → Type 0
ReadAnswer h (success bytes none) = ⊥
ReadAnswer h (success bytes (some checksum)) = verify_checksum h bytes checksum ≡ true
ReadAnswer h (isochronous_success packets start_frame error_count bytes) = ⊥
ReadAnswer h (TransferResult.error e) = (e ≢ UsbError.timeout) × (e ≢ UsbError.io)

abbrev pub WriteAnswer : TransferResult → Type 0
WriteAnswer (success bytes checksum) = (bytes ≡ []) × (checksum ≡ none)
WriteAnswer (isochronous_success packets start_frame error_count bytes) = ⊥
WriteAnswer (TransferResult.error e) = Unit

verify-compute :
    (h : Hasher) (bytes : List ℕ) → verify_checksum h bytes (compute_checksum h bytes) ≡ true
unfolding verify_checksum
verify-compute h bytes = ==_self (compute_checksum h bytes)

bulk_read-ReadAnswer :
    (h : Hasher) (r : Result ℕ RusbError) (buffer : List ℕ)
    → ReadAnswer h (bulk_read h (record { count = r; buffer = buffer }))
unfolding map_rusb_error
bulk_read-ReadAnswer h (ok len) buffer = verify-compute h (take len buffer)
bulk_read-ReadAnswer h (err timeout) buffer = verify-compute h []
bulk_read-ReadAnswer h (err io) buffer = verify-compute h []
bulk_read-ReadAnswer h (err pipe) buffer = (ground arith, ground arith)
bulk_read-ReadAnswer h (err no_device) buffer = (ground arith, ground arith)
bulk_read-ReadAnswer h (err not_found) buffer = (ground arith, ground arith)
bulk_read-ReadAnswer h (err busy) buffer = (ground arith, ground arith)
bulk_read-ReadAnswer h (err overflow) buffer = (ground arith, ground arith)
bulk_read-ReadAnswer h (err invalid_param) buffer = (ground arith, ground arith)
bulk_read-ReadAnswer h (err access) buffer = (ground arith, ground arith)
bulk_read-ReadAnswer h (err (unnamed text)) buffer = (ground arith, ground arith)

written-WriteAnswer : (r : Result ℕ RusbError) → WriteAnswer (written r)
written-WriteAnswer (ok len) = (refl, refl)
written-WriteAnswer (err e) = _

module _ (u : Rusb) (h : Hasher) where
  bulk_in-ReadAnswer :
      (endpoint size timeout_ms : ℕ) (d : u.Device)
      → ReadAnswer h (bulk_in u h endpoint size timeout_ms d).0
  unfolding bulk_in
  bulk_in-ReadAnswer endpoint size timeout_ms d =
      retried_lem u (ReadAnswer h) (λ r. is_stall r.count) (bulk_read h)
        (u.read_bulk endpoint size timeout_ms) endpoint d
        (λ d.
          let r = u.read_bulk endpoint size timeout_ms d in
          bulk_read-ReadAnswer h r.0.count r.0.buffer)
        (ground arith, ground arith)

  bulk_out-WriteAnswer :
      (endpoint : ℕ) (bytes : List ℕ) (timeout_ms : ℕ) (d : u.Device)
      → WriteAnswer (bulk_out u endpoint bytes timeout_ms d).0
  unfolding bulk_out
  bulk_out-WriteAnswer endpoint bytes timeout_ms d =
      retried_lem u WriteAnswer is_stall written (u.write_bulk endpoint bytes timeout_ms) endpoint d
        (λ d. written-WriteAnswer (u.write_bulk endpoint bytes timeout_ms d).0) _

  -- A bulk read answers with an error other than a timeout and an I/O error, or with data and a
  -- checksum that `verify_checksum` accepts for it. A bulk write answers with an error, or with no
  -- data and no checksum.
  pub execute_bulk_transfer-answers :
      (endpoint : ℕ) (bytes : List ℕ) (timeout_ms : ℕ) (checksum : Option ℕ) (d : u.Device)
      → let result = (execute_bulk_transfer u h endpoint bytes timeout_ms checksum d).0 in
        (is_in endpoint ≡ true → ReadAnswer h result)
        × (is_in endpoint ≡ false → WriteAnswer result)
  unfolding execute_bulk_transfer
  execute_bulk_transfer-answers endpoint bytes timeout_ms checksum d = (
    λ reads. rw reads (bulk_in-ReadAnswer endpoint (length bytes) _ d),
    λ writes. elim (Bool-cases (checksum_fails h bytes checksum)) [
      | inl bad ↦ rw (writes, bad) _
      | inr good ↦ rw (writes, good) (bulk_out-WriteAnswer endpoint bytes _ d)
    ],
  )
