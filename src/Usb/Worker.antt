-- ===== src/Usb/Worker.antt =====
-- The commands of the thread that owns the devices: crates/server/src/usb/worker.rs,
-- `handle_command_inner`. What a command sends on its channel is its answer here; `Shutdown` ends
-- the loop before the handler is asked.
pub mod Served
use rust_p2p_usb.Base.{
  ℕ, ◌+◌, ◌<◌, ◌^◌, ◌≡◌, refl, sym, ap, ◌∙◌, subst, String, Bool, true, false, inl, inr, Bool-cases,
  Option-cases, Option, none, some, List, [], ◌∷◌, arith, lookup, contains_key, ◌==◌, ==_iff,
  if◌then◌else◌, Result, ok, err,
}
use rust_p2p_usb.Protocol.Types.{
  DeviceInfo, AttachError, DetachError, LockResult, UnlockResult, DeviceSharingStatus, UsbRequest,
  UsbResponse, UsbError, TransferResult,
}
use rust_p2p_usb.Protocol.Integrity.{Hasher}
use rust_p2p_usb.Usb.Transfers.{Rusb, RusbError, map_rusb_error, execute_transfer}
use rust_p2p_usb.Usb.Manager.{
  DeviceManager, SharingConfig, UsbDevice, with_sharing_config, attach_device, detach_device,
  find_device, get_device_by_handle, get_device_by_id, get_device_id_for_handle, id_of,
}
use rust_p2p_usb.Usb.Manager.Registry.{list_devices}
use rust_p2p_usb.Usb.Manager.Calls.{acquire_lock, release_lock, get_sharing_status}
use rust_p2p_usb.Usb.Manager.Coherent.{Coherent, opened_of, names_id, held}
use rust_p2p_usb.Usb.Manager.Reach.{Reach, new-Reach-Coherent}

pub data UsbCommand : Type 0 where
  list_all : UsbCommand
  attach : (device_id : ℕ) (client_id : String) → UsbCommand
  detach : (handle : ℕ) → UsbCommand
  submit_transfer : (handle : ℕ) (request : UsbRequest) → UsbCommand
  reset_device : (handle : ℕ) → UsbCommand
  sharing_status : (device_id : ℕ) (handle : Option ℕ) → UsbCommand
  lock_device : (handle : ℕ) (write_access : Bool) → UsbCommand
  unlock_device : (handle : ℕ) → UsbCommand

pub data WorkerAnswer : Type 0 where
  devices : List DeviceInfo → WorkerAnswer
  attached : Result ℕ AttachError → WorkerAnswer
  detached : Result (Unit {0}) DetachError → WorkerAnswer
  transferred : UsbResponse → WorkerAnswer
  was_reset : Result (Unit {0}) UsbError → WorkerAnswer
  status : Result DeviceSharingStatus AttachError → WorkerAnswer
  locked : LockResult → WorkerAnswer
  unlocked : UnlockResult → WorkerAnswer

-- What the library and the clock say during one command.
pub record Outside : Type 0 where
  pub opening : Result (Unit {0}) RusbError
  pub to_string : RusbError → String
  pub now : ℕ
  pub locked_at : ℕ

abbrev pub not_found_response : ℕ → UsbResponse
not_found_response id = record { id = id; result = TransferResult.error UsbError.not_found }

module _ (u : Rusb) (hasher : Hasher)
    (reset : u.Device → Result (Unit {0}) RusbError × u.Device) where
  -- The manager, and the devices behind it by their ids.
  pub record Worker : Type 0 where
    pub manager : DeviceManager
    pub hardware : ℕ → u.Device

  abbrev pub on_device : ℕ → u.Device → Worker → Worker
  on_device id after w = record w { hardware = λ k. if k == id then after else w.hardware k }

  unfoldable pub submit : UsbRequest → Option UsbDevice → Worker → UsbResponse × Worker
  submit request none w = (not_found_response request.id, w)
  submit request (some d) w =
      let (response, after) =
        execute_transfer u hasher request.transfer request.id (w.hardware d.id) in
      if d.opened then (response, on_device d.id after w) else (not_found_response request.id, w)

  abbrev pub reset_result : Result (Unit {0}) RusbError → Result (Unit {0}) UsbError
  reset_result (ok done) = ok done
  reset_result (err e) = err (map_rusb_error e)

  unfoldable pub reset_at : Option UsbDevice → Worker → Result (Unit {0}) UsbError × Worker
  unfolding map_rusb_error
  reset_at none w = (err UsbError.not_found, w)
  reset_at (some d) w =
      let (done, after) = reset (w.hardware d.id) in
      if d.opened then (reset_result done, on_device d.id after w) else (err UsbError.not_found, w)

  unfoldable pub handle_command_inner : Outside → UsbCommand → Worker → WorkerAnswer × Worker
  unfolding submit reset_at get_device_by_handle attach_device detach_device acquire_lock
      release_lock get_sharing_status list_devices
  handle_command_inner o list_all w = (devices (list_devices w.manager), w)
  handle_command_inner o (attach device_id client_id) w =
      let (result, m) =
        attach_device o.to_string o.opening o.now o.locked_at device_id client_id w.manager in
      (attached result, record w { manager = m })
  handle_command_inner o (detach handle) w =
      let (result, m) = detach_device handle w.manager in
      (detached result, record w { manager = m })
  handle_command_inner o (submit_transfer handle request) w =
      let (response, after) = submit request (get_device_by_handle handle w.manager) w in
      (transferred response, after)
  handle_command_inner o (reset_device handle) w =
      let (done, after) = reset_at (get_device_by_handle handle w.manager) w in
      (was_reset done, after)
  handle_command_inner o (sharing_status device_id handle) w =
      (status (get_sharing_status device_id handle w.manager), w)
  handle_command_inner o (lock_device handle write_access) w =
      let (result, m) = acquire_lock o.now handle write_access w.manager in
      (locked result, record w { manager = m })
  handle_command_inner o (unlock_device handle) w =
      let (result, m) = release_lock handle w.manager in (unlocked result, record w { manager = m })
