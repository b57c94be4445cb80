-- ===== src/UsbIp/Request.antt =====
-- `usbip_to_usb_request`: a command of the kernel as a request to the server. The device handle is
-- what `device_proxy.handle()` returned.
use Prim.Native.Nat.{bit_and, bit_or}
use rust_p2p_usb.Base.{
  ℕ, zero, suc, ◌+◌, ◌*◌, ◌%◌, ◌^◌, Bool, true, false, not, ◌&&◌, List, [], ◌∷◌, ◌==◌, ltb,
  if◌then◌else◌, replicate, none, to_i32,
}
use rust_p2p_usb.Protocol.Types.{
  TransferType, IsoPacketDescriptor, UsbRequest, control, interrupt, bulk, isochronous,
}
use rust_p2p_usb.UsbIp.Header.{UsbIpHeader}
use rust_p2p_usb.UsbIp.IsoPacket.{UsbIpIsoPacketDescriptor}
use rust_p2p_usb.UsbIp.CmdSubmit.{UsbIpCmdSubmit}

-- `as u8`
abbrev pub as_u8 : ℕ → ℕ
as_u8 n = n % 2 ^ 8

-- `bytes[i]`; the setup packet has eight bytes, and no index reaches past it.
abbrev pub byte_at : ℕ → List ℕ → ℕ
byte_at i [] = 0
byte_at zero (b ∷ bs) = b
byte_at (suc i) (b ∷ bs) = byte_at i bs

-- `u16::from_le_bytes` of the bytes at an index and behind it
abbrev pub le_u16 : ℕ → List ℕ → ℕ
le_u16 i setup = byte_at i setup + 256 * byte_at (suc i) setup

-- `== [0u8; 8]`
abbrev pub all_zero : List ℕ → Bool
all_zero [] = true
all_zero (b ∷ bs) = (b == 0) && all_zero bs

abbrev pub is_empty : List ℕ → Bool
is_empty [] = true
is_empty (b ∷ bs) = false

unfoldable pub control_transfer : UsbIpCmdSubmit → List ℕ → TransferType
control_transfer cmd bytes =
    control (byte_at 0 cmd.setup) (byte_at 1 cmd.setup) (le_u16 2 cmd.setup) (le_u16 4 cmd.setup) (
      if not (bit_and (byte_at 0 cmd.setup) 0x80 == 0) && is_empty bytes
      then replicate cmd.transfer_buffer_length 0
      else bytes)

unfoldable pub endpoint_address : UsbIpHeader → ℕ
endpoint_address h = if h.direction == 1 then bit_or (as_u8 h.ep) 0x80 else as_u8 h.ep

unfoldable pub transfer_data : UsbIpHeader → UsbIpCmdSubmit → List ℕ → List ℕ
transfer_data h cmd bytes =
    if h.direction == 1 then replicate cmd.transfer_buffer_length 0 else bytes

unfoldable pub descriptors : List UsbIpIsoPacketDescriptor → List IsoPacketDescriptor
descriptors [] = []
descriptors (p ∷ ps) =
    record {
      offset = p.offset;
      length = p.length;
      actual_length = p.actual_length;
      status = to_i32 p.status;
    }
    ∷ descriptors ps

unfoldable pub endpoint_transfer : UsbIpHeader → UsbIpCmdSubmit → List ℕ → TransferType
endpoint_transfer h cmd bytes =
    if ltb 0 cmd.number_of_packets
    then isochronous (endpoint_address h) (transfer_data h cmd bytes) (descriptors cmd.iso_packets)
        cmd.start_frame cmd.interval 5000
    else if ltb 0 cmd.interval
    then interrupt (endpoint_address h) (transfer_data h cmd bytes) 5000
    else bulk (endpoint_address h) (transfer_data h cmd bytes) 5000 none

unfoldable pub usbip_to_usb_request : ℕ → UsbIpHeader → UsbIpCmdSubmit → List ℕ → UsbRequest
usbip_to_usb_request handle h cmd bytes = record {
  id = h.seqnum;
  handle = handle;
  transfer =
      if not (all_zero cmd.setup)
      then control_transfer cmd bytes
      else endpoint_transfer h cmd bytes;
}
