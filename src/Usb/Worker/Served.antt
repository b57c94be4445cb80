-- ===== src/Usb/Worker/Served.antt =====
-- What a transfer on a handle comes to.
use rust_p2p_usb.Base.{
  ℕ, ◌<◌, ◌^◌, ◌≡◌, refl, ap, ◌∙◌, true, inl, inr, Option-cases, some, List, arith, lookup, Result,
}
use rust_p2p_usb.Protocol.Types.{UsbRequest, UsbResponse}
use rust_p2p_usb.Protocol.Integrity.{Hasher}
use rust_p2p_usb.Usb.Transfers.{Rusb, RusbError, execute_transfer}
use rust_p2p_usb.Usb.Manager.{
  DeviceManager, SharingConfig, UsbDevice, with_sharing_config, find_device, get_device_by_handle,
  get_device_by_id, get_device_id_for_handle,
}
use rust_p2p_usb.Usb.Manager.Coherent.{Coherent, names_id, held}
use rust_p2p_usb.Usb.Manager.Detachment.{open_place}
use rust_p2p_usb.Usb.Manager.Reach.{Reach, new-Reach-Coherent}
use rust_p2p_usb.Usb.Worker.{
  Worker, Outside, WorkerAnswer, transferred, submit, on_device, handle_command_inner,
  submit_transfer,
}

-- The device behind a handle that is attached.
device_behind :
    (h id : ℕ) (m : DeviceManager)
    → Coherent m
    → get_device_id_for_handle h m ≡ some id
    → (d : UsbDevice) × ((get_device_by_handle h m ≡ some d) × ((d.opened ≡ true) × (d.id ≡ id)))
unfolding get_device_by_handle get_device_by_id get_device_id_for_handle find_device
device_behind h id m v there =
    let is_held : held h id m ≡ true = ground (arith, there) in
    let (key, (at_id, is_open)) =
      open_place (lookup id m.device_ids) m.devices (v.opened h id is_held) in
    let named : names_id id (lookup key m.devices) ≡ true =
      v.named id key (ground (arith, at_id)) in
    elim (Option-cases (lookup key m.devices)) [
      | inl missing ↦ absurd (ground (arith, is_open, missing))
      | inr (d, at_key) ↦ (
        d,
        (
          rw (there, get_device_by_handle) (rw (at_id, at_key) refl),
          (ground (arith, is_open, at_key), ground (arith, named, at_key)),
        ),
      )
    ]

module _ (u : Rusb) (hasher : Hasher)
    (reset : u.Device → Result (Unit {0}) RusbError × u.Device) where
  submit_open :
      (request : UsbRequest) (d : UsbDevice) (w : Worker u hasher reset)
      → d.opened ≡ true
      → submit u hasher reset request (some d) w ≡ (
          let (response, after) =
            execute_transfer u hasher request.transfer request.id (w.hardware d.id) in
          (response, on_device u hasher reset d.id after w))
  unfolding submit
  submit_open request d w is_open = rw is_open refl

  -- After any calls on a new manager whose limit of clients is a `u32`, none of which brings a
  -- counter to its end: whoever has the device's lock, a transfer on an attached handle is carried
  -- out on the device of the handle and on no other, and answered with the request's number.
  pub submit_transfer-executed :
      (filters : List (List ℕ)) (config : SharingConfig) (o : Outside) (h id : ℕ)
      (request : UsbRequest) (w : Worker u hasher reset)
      → config.default_max_clients < 2 ^ 32
      → Reach (with_sharing_config filters config) w.manager
      → get_device_id_for_handle h w.manager ≡ some id
      → let (response, after) =
          execute_transfer u hasher request.transfer request.id (w.hardware id) in
        (handle_command_inner u hasher reset o (submit_transfer h request) w
          ≡ (transferred response, on_device u hasher reset id after w))
        × (response.id ≡ request.id)
  unfolding handle_command_inner execute_transfer
  submit_transfer-executed filters config o h id request w small r there =
      let (d, (found, (is_open, its_id))) =
        device_behind h id w.manager (new-Reach-Coherent filters config small r) there in
      let answer_of : UsbResponse × Worker u hasher reset → WorkerAnswer × Worker u hasher reset =
        λ p. (transferred p.0, p.1) in
      let carried : ℕ → UsbResponse × Worker u hasher reset = λ n.
        (let (response, after) =
            execute_transfer u hasher request.transfer request.id (w.hardware n) in
          (response, on_device u hasher reset n after w)) in
      (
        ap (λ p. answer_of (submit u hasher reset request p w)) found
            ∙ (ap answer_of (submit_open request d w is_open)
                ∙ ap (λ n. answer_of (carried n)) its_id),
        refl,
      )
