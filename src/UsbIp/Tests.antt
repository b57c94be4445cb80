-- ===== src/UsbIp/Tests.antt =====
-- Messages as bytes, and the theorems at them.
use rust_p2p_usb.Base.{
  ◌≡◌, ◌≢◌, refl, [], ◌∷◌, ◌++◌, arith, some, replicate, ok, pos, negsuc, to_i32,
}
use rust_p2p_usb.Protocol.Types.{pipe, UsbResponse, TransferResult}
use rust_p2p_usb.UsbIp.Header
use rust_p2p_usb.UsbIp.Header.{UsbIpHeader, cmd_submit, command_type-eq-ok}
use rust_p2p_usb.UsbIp.IsoPacket.{UsbIpIsoPacketDescriptor}
use rust_p2p_usb.UsbIp.CmdSubmit
use rust_p2p_usb.UsbIp.CmdSubmit.{UsbIpCmdSubmit}
use rust_p2p_usb.UsbIp.Reply.{UsbIpRetSubmit}
use rust_p2p_usb.UsbIp.Request.{usbip_to_usb_request}
use rust_p2p_usb.UsbIp.Response.{errno, usb_response_to_usbip_full, converted}
use rust_p2p_usb.UsbIp.Directions.{
  endpoint_of, bytes_of, usbip_to_usb_request-endpoint, usb_response_to_usbip_full-counts,
}

abbrev read_header : UsbIpHeader
read_header = record { command = 1; seqnum = 7; devid = 65538; direction = 1; ep = 2 }

abbrev stalled_packet : UsbIpIsoPacketDescriptor
stalled_packet = record { offset = 0; length = 8; actual_length = 0; status = 0xffff_ffe0 }

abbrev read_command : UsbIpCmdSubmit
read_command = record {
  transfer_flags = 0;
  transfer_buffer_length = 3;
  start_frame = 0;
  number_of_packets = 1;
  interval = 1;
  setup = replicate 8 0;
  iso_packets = stalled_packet ∷ [];
}

read_header-InRange : Header.InRange read_header
read_header-InRange = omega arith

read_command-InRange : CmdSubmit.InRange read_command
read_command-InRange = record {
  transfer_flags = omega arith;
  transfer_buffer_length = omega arith;
  start_frame = omega arith;
  number_of_packets = omega arith;
  interval = omega arith;
  setup = refl;
  counted = refl;
  packets = (omega arith, tt);
}

header_bytes :
    Header.write_to read_header
    ≡ 0 ∷ 0 ∷ 0 ∷ 1 ∷ 0 ∷ 0 ∷ 0 ∷ 7 ∷ 0 ∷ 1 ∷ 0 ∷ 2 ∷ 0 ∷ 0 ∷ 0 ∷ 1 ∷ 0 ∷ 0 ∷ 0 ∷ 2 ∷ []
unfolding Header.write_to
header_bytes = refl

stall_status : to_i32 stalled_packet.status ≡ errno pipe
unfolding to_i32 errno
stall_status = refl

read_submit-write_submit_example :
    CmdSubmit.read_submit (CmdSubmit.write_submit read_command ++ 9 ∷ [])
    ≡ ok (read_command, 9 ∷ [])
read_submit-write_submit_example =
    CmdSubmit.read_submit-write_submit read_command (9 ∷ []) read_command-InRange

-- A word whose high half is not zero is taken for CMD_SUBMIT.
abbrev long_answer : UsbIpRetSubmit
long_answer = record {
  status = negsuc 31;
  actual_length = 0x8000_0001;
  start_frame = 0;
  number_of_packets = 0;
  error_count = 0;
}

usbip_to_usb_request-endpoint_example :
    (endpoint_of (usbip_to_usb_request 4 read_header read_command []).transfer ≡ some 130)
    × (bytes_of (usbip_to_usb_request 4 read_header read_command []).transfer ≡ 0 ∷ 0 ∷ 0 ∷ [])
usbip_to_usb_request-endpoint_example =
    usbip_to_usb_request-endpoint 4 read_header read_command [] refl (omega arith)

abbrev piped : UsbResponse
piped = record { id = 7; result = TransferResult.error pipe }

usb_response_to_usbip_full-counts_example :
    ((usb_response_to_usbip_full piped).ret.actual_length ≡ 0)
    × ((usb_response_to_usbip_full piped).ret.number_of_packets ≡ 0)
    × ((usb_response_to_usbip_full piped).ret.status ≢ pos 0
        → ((usb_response_to_usbip_full piped).bytes ≡ [])
          × ((usb_response_to_usbip_full piped).iso_packets ≡ []))
unfolding usb_response_to_usbip_full converted
usb_response_to_usbip_full-counts_example = usb_response_to_usbip_full-counts piped
