-- ===== src/Usb/Transfers/Retry.antt =====
-- What holds of every answer of a call, and of a stall, holds of the answer of the call with its
-- retry.
use rust_p2p_usb.Base.{ℕ, inl, inr, Bool, Bool-cases, Result, ok, err}
use rust_p2p_usb.Protocol.Types.{TransferResult, UsbError}
use rust_p2p_usb.Usb.Transfers.{Rusb, RusbError, retried, after_clear}

module _ (u : Rusb) {A : Type 0} (P : TransferResult → Type 0) where
  after_clear_lem :
      (finish : A → TransferResult) (call : u.Device → A × u.Device)
      (cleared : Result (Unit {0}) RusbError) (d : u.Device)
      → P (finish (call d).0)
      → P (TransferResult.error UsbError.pipe)
      → P (after_clear u finish call cleared d).0
  after_clear_lem finish call (ok _) d again stall = again
  after_clear_lem finish call (err e) d again stall = stall

  pub retried_lem :
      (stalled : A → Bool) (finish : A → TransferResult) (call : u.Device → A × u.Device)
      (endpoint : ℕ) (d : u.Device)
      → ((d : u.Device) → P (finish (call d).0))
      → P (TransferResult.error UsbError.pipe)
      → P (retried u stalled finish call endpoint d).0
  unfolding retried
  retried_lem stalled finish call endpoint d each stall = elim (Bool-cases (stalled (call d).0)) [
    | inr no_stall ↦ rw no_stall (each d)
    | inl a_stall ↦ rw a_stall (
        let (cleared, freed) = u.clear_halt endpoint (call d).1 in
        after_clear_lem finish call cleared freed (each freed) stall)
  ]
