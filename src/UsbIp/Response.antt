-- ===== src/UsbIp/Response.antt =====
-- `usb_response_to_usbip_full`: the server's answer as an answer to the kernel.
use rust_p2p_usb.Base.{ℕ, List, [], ◌∷◌, ℤ, pos, negsuc, of_i32, as_u32, length}
use rust_p2p_usb.Protocol.Types.{
  UsbResponse, TransferResult, UsbError, IsoPacketDescriptor, success, isochronous_success, timeout,
  pipe, no_device, not_found, busy, overflow, io, invalid_param, access,
}
use rust_p2p_usb.UsbIp.IsoPacket.{UsbIpIsoPacketDescriptor}
use rust_p2p_usb.UsbIp.Reply
use rust_p2p_usb.UsbIp.Reply.{UsbIpRetSubmit}

pub record UsbIpConvertedResponse : Type 0 where
  pub ret : UsbIpRetSubmit
  pub bytes : List ℕ
  pub iso_packets : List UsbIpIsoPacketDescriptor

-- `negsuc n` is -(n + 1), so -110 is `negsuc 109`.
unfoldable pub errno : UsbError → ℤ
errno timeout = negsuc 109
errno pipe = negsuc 31
errno no_device = negsuc 18
errno invalid_param = negsuc 21
errno busy = negsuc 15
errno overflow = negsuc 74
errno io = negsuc 4
errno access = negsuc 12
errno not_found = negsuc 1
errno (UsbError.other message) = negsuc 4

unfoldable pub wire_packets : List IsoPacketDescriptor → List UsbIpIsoPacketDescriptor
wire_packets [] = []
wire_packets (p ∷ ps) =
    record {
      offset = p.offset;
      length = p.length;
      actual_length = p.actual_length;
      status = of_i32 p.status;
    }
    ∷ wire_packets ps

unfoldable pub converted : TransferResult → UsbIpConvertedResponse
converted (success bytes checksum) = record {
  ret = Reply.success (as_u32 (length bytes));
  bytes = bytes;
  iso_packets = [];
}
converted (isochronous_success packets start_frame error_count bytes) = record {
  ret = record {
    status = pos 0;
    actual_length = as_u32 (length bytes);
    start_frame = start_frame;
    number_of_packets = as_u32 (length packets);
    error_count = error_count;
  };
  bytes = bytes;
  iso_packets = wire_packets packets;
}
converted (TransferResult.error e) = record {
  ret = Reply.error (errno e);
  bytes = [];
  iso_packets = [];
}

unfoldable pub usb_response_to_usbip_full : UsbResponse → UsbIpConvertedResponse
usb_response_to_usbip_full response = converted response.result

unfoldable pub usb_response_to_usbip : UsbResponse → UsbIpRetSubmit × List ℕ
usb_response_to_usbip response = let r = usb_response_to_usbip_full response in (r.ret, r.bytes)
