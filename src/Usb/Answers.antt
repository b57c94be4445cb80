-- ===== src/Usb/Answers.antt =====
-- A command of the kernel on its way to a device and back: the conversions of
-- crates/client/src/virtual_usb/usbip_protocol.rs around the transfers of
-- crates/server/src/usb/transfers.rs.
use rust_p2p_usb.Base.{
  ◌^◌, ltb, ◌∙◌, ℕ, ◌<◌, ◌≤◌, ◌≡◌, refl, Bool, true, false, [], arith, length, length-replicate,
  replicate, ◌==◌, if◌then◌else◌, Bool-cases, inl, inr,
}
use rust_p2p_usb.Protocol.Types.{TransferResult, success, isochronous_success}
use rust_p2p_usb.Protocol.Integrity.{Hasher}
use rust_p2p_usb.UsbIp.Header.{UsbIpHeader}
use rust_p2p_usb.UsbIp.CmdSubmit.{UsbIpCmdSubmit}
use rust_p2p_usb.UsbIp.Request.{
  byte_at, usbip_to_usb_request, control_transfer, endpoint_transfer, transfer_data, all_zero,
}
use rust_p2p_usb.UsbIp.Response.{UsbIpConvertedResponse, usb_response_to_usbip_full, converted}
use rust_p2p_usb.UsbIp.Directions.{converted-counts}
use rust_p2p_usb.Usb.Transfers.{Rusb, is_in, execute_transfer, execute_result}
use rust_p2p_usb.Usb.Transfers.Lengths.{Sized, data_of, room, execute_result-length}

-- The answer to a command that comes without a payload.
unfoldable pub answer :
    (u : Rusb)
    → Hasher
    → (handle : ℕ) → UsbIpHeader
    → UsbIpCmdSubmit
    → u.Device
    → UsbIpConvertedResponse
unfolding usbip_to_usb_request execute_transfer usb_response_to_usbip_full
answer u h handle header cmd d =
    let request = usbip_to_usb_request handle header cmd [] in
    usb_response_to_usbip_full (execute_transfer u h request.transfer request.id d).0

converted-data_of : (t : TransferResult) → (converted t).bytes ≡ data_of t
unfolding converted
converted-data_of (success bytes checksum) = refl
converted-data_of (isochronous_success packets start_frame error_count bytes) = refl
converted-data_of (TransferResult.error e) = refl

length-read_buffer :
    (reads : Bool) (n : ℕ) → length (if reads then replicate {A = ℕ} n 0 else []) ≤ n
length-read_buffer true n = rw (length-replicate {A = ℕ} n 0) (omega arith)
length-read_buffer false n = omega arith

room-control_transfer :
    (cmd : UsbIpCmdSubmit)
    → 0 < cmd.transfer_buffer_length
    → room (control_transfer cmd []) ≤ cmd.transfer_buffer_length
unfolding control_transfer is_in
room-control_transfer cmd some_room =
    let zeros = length-replicate {A = ℕ} cmd.transfer_buffer_length 0 in
    elim (Bool-cases (is_in (byte_at 0 cmd.setup))) [
      | inl reads ↦ rw (reads, zeros) (ground arith)
      | inr writes ↦ rw writes (omega arith)
    ]

room-endpoint_transfer :
    (header : UsbIpHeader) (cmd : UsbIpCmdSubmit)
    → cmd.number_of_packets ≡ 0
    → room (endpoint_transfer header cmd []) ≤ cmd.transfer_buffer_length
unfolding endpoint_transfer transfer_data
room-endpoint_transfer header cmd no_packets =
    let fits = length-read_buffer (header.direction == 1) cmd.transfer_buffer_length in
    rw no_packets (elim (Bool-cases (ltb 0 cmd.interval)) [
      | inl polled ↦ rw polled (ground arith)
      | inr streamed ↦ rw streamed (ground arith)
    ])

room-usbip_to_usb_request :
    (handle : ℕ) (header : UsbIpHeader) (cmd : UsbIpCmdSubmit)
    → 0 < cmd.transfer_buffer_length
    → cmd.number_of_packets ≡ 0
    → room (usbip_to_usb_request handle header cmd []).transfer ≤ cmd.transfer_buffer_length
unfolding usbip_to_usb_request
room-usbip_to_usb_request handle header cmd some_room no_packets =
    elim (Bool-cases (all_zero cmd.setup)) [
      | inl data_stage ↦ rw data_stage (room-endpoint_transfer header cmd no_packets)
      | inr setup_stage ↦ rw setup_stage (room-control_transfer cmd some_room)
    ]

-- Where reads leave their buffer's size as it is: the answer to a command without a payload,
-- without isochronous packets and with a buffer that is not empty carries as many bytes as it
-- says, and no more than the kernel's buffer takes.
pub answer-fits :
    (u : Rusb) (h : Hasher)
    → Sized u
    → (handle : ℕ) (header : UsbIpHeader) (cmd : UsbIpCmdSubmit) (d : u.Device)
    → 0 < cmd.transfer_buffer_length
    → cmd.transfer_buffer_length < 2 ^ 32
    → cmd.number_of_packets ≡ 0
    → let r = answer u h handle header cmd d in
      (r.ret.actual_length ≡ length r.bytes) × (length r.bytes ≤ cmd.transfer_buffer_length)
unfolding answer
answer-fits u h sized handle header cmd d some_room small no_packets =
    let request = usbip_to_usb_request handle header cmd [] in
    let (result, after) = execute_result u h request.transfer d in
    let same = converted-data_of result in
    let roomy = execute_result-length u h sized request.transfer d in
    let request_fits = room-usbip_to_usb_request handle header cmd some_room no_packets in
    let fits : length (converted result).bytes ≤ cmd.transfer_buffer_length =
      rw same (omega arith) in
    let counts = converted-counts result in (counts.0 ∙ omega arith, fits)
