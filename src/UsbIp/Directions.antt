-- ===== src/UsbIp/Directions.antt =====
-- What the conversions keep: directions and buffers of requests, packets there and back, and an
-- answer that describes its own payload.
use Prim.Native.Nat.{bit_or}
use rust_p2p_usb.Base.{
  all_below, all_below-So, ℕ, suc, ◌+◌, ◌<◌, ◌≡◌, ◌≢◌, refl, ap, ◌⊎◌, true, List, [], ◌∷◌, arith,
  All, length, replicate, Option, none, some, ◌==◌, ==_iff, if◌then◌else◌, pos, negsuc,
  of_i32-to_i32, as_u32,
}
use rust_p2p_usb.Protocol.Types.{
  TransferType, control, interrupt, bulk, isochronous, UsbError, UsbResponse, TransferResult,
  success, isochronous_success, IsoPacketDescriptor,
}
use rust_p2p_usb.UsbIp.Header.{UsbIpHeader}
use rust_p2p_usb.UsbIp.IsoPacket
use rust_p2p_usb.UsbIp.IsoPacket.{UsbIpIsoPacketDescriptor}
use rust_p2p_usb.UsbIp.CmdSubmit.{UsbIpCmdSubmit}
use rust_p2p_usb.UsbIp.Reply
use rust_p2p_usb.UsbIp.Request.{
  all_zero, endpoint_address, endpoint_transfer, transfer_data, descriptors, usbip_to_usb_request,
  as_u8,
}
use rust_p2p_usb.UsbIp.Response.{errno, wire_packets, usb_response_to_usbip_full, converted}

abbrev pub endpoint_of : TransferType → Option ℕ
endpoint_of (control request_type request value index bytes) = none
endpoint_of (interrupt endpoint bytes timeout_ms) = some endpoint
endpoint_of (bulk endpoint bytes timeout_ms checksum) = some endpoint
endpoint_of (isochronous endpoint bytes packets start_frame interval timeout_ms) = some endpoint

abbrev pub bytes_of : TransferType → List ℕ
bytes_of (control request_type request value index bytes) = bytes
bytes_of (interrupt endpoint bytes timeout_ms) = bytes
bytes_of (bulk endpoint bytes timeout_ms checksum) = bytes
bytes_of (isochronous endpoint bytes packets start_frame interval timeout_ms) = bytes

-- The direction bit is added to a number that does not have it.
direction_bits : all_below 128 (λ x. bit_or x 0x80 == x + 128) ≡ true
unfolding all_below
direction_bits = refl

bit_or-direction : (x : ℕ) → x < 128 → bit_or x 0x80 ≡ x + 128
bit_or-direction x h = (==_iff _ _).0 (all_below-So 128 _ x direction_bits h)

endpoint_address_lem :
    (h : UsbIpHeader)
    → h.ep < 128
    → endpoint_address h ≡ (if h.direction == 1 then h.ep + 128 else h.ep)
unfolding endpoint_address
endpoint_address_lem h small = ground (arith, bit_or-direction (as_u8 h.ep))

-- A command with no setup packet and an endpoint number below 128, of whatever kind, goes to the
-- endpoint that the kernel named, with the direction bit exactly for a read; a read carries a
-- buffer of the length that is asked for, and a write the kernel's bytes.
pub usbip_to_usb_request-endpoint :
    (handle : ℕ) (h : UsbIpHeader) (cmd : UsbIpCmdSubmit) (bytes : List ℕ)
    → all_zero cmd.setup ≡ true
    → h.ep < 128
    → let transfer = (usbip_to_usb_request handle h cmd bytes).transfer in
      (endpoint_of transfer ≡ some (if h.direction == 1 then h.ep + 128 else h.ep))
      × (bytes_of transfer
          ≡ (if h.direction == 1 then replicate cmd.transfer_buffer_length 0 else bytes))
unfolding usbip_to_usb_request endpoint_transfer transfer_data
usbip_to_usb_request-endpoint handle h cmd bytes zero_setup small =
    ground (arith, endpoint_address_lem h small)

-- Packets of `u32` fields survive the way to the protocol and back.
pub wire_packets-descriptors :
    (ps : List UsbIpIsoPacketDescriptor)
    → All IsoPacket.InRange ps
    → wire_packets (descriptors ps) ≡ ps
unfolding wire_packets descriptors
wire_packets-descriptors [] v = refl
wire_packets-descriptors (p ∷ ps) v =
    rw (of_i32-to_i32 p.status v.0.status, wire_packets-descriptors ps v.1)

length-wire_packets : (ps : List IsoPacketDescriptor) → length (wire_packets ps) ≡ length ps
unfolding wire_packets
length-wire_packets [] = refl
length-wire_packets (p ∷ ps) = ap suc (length-wire_packets ps)

pub converted-counts :
    (t : TransferResult)
    → let r = converted t in
      (r.ret.actual_length ≡ as_u32 (length r.bytes))
      × (r.ret.number_of_packets ≡ as_u32 (length r.iso_packets))
      × (r.ret.status ≢ pos 0 → (r.bytes ≡ []) × (r.iso_packets ≡ []))
unfolding converted Reply.success Reply.error
converted-counts (success bytes checksum) = (refl, omega arith, λ n. absurd (n refl))
converted-counts (isochronous_success packets start_frame error_count bytes) =
    (refl, rw (length-wire_packets packets), λ n. absurd (n refl))
converted-counts (TransferResult.error e) = (omega arith, omega arith, λ n. (refl, refl))

-- Of every answer the counts are those of the payload that follows it, as `u32`, and an answer with
-- an error has no payload.
pub usb_response_to_usbip_full-counts :
    (response : UsbResponse)
    → let r = usb_response_to_usbip_full response in
      (r.ret.actual_length ≡ as_u32 (length r.bytes))
      × (r.ret.number_of_packets ≡ as_u32 (length r.iso_packets))
      × (r.ret.status ≢ pos 0 → (r.bytes ≡ []) × (r.iso_packets ≡ []))
unfolding usb_response_to_usbip_full
usb_response_to_usbip_full-counts response = converted-counts response.result

-- Errors that the kernel cannot tell apart: an I/O error and one without a number of its own.
abbrev pub IsEio : UsbError → Type 0
IsEio e = errno e ≡ negsuc 4

-- Two errors that are answered with one status are the same, or both are answered as EIO.
pub errno-injective : (e d : UsbError) → errno e ≡ errno d → (e ≡ d) ⊎ (IsEio e × IsEio d)
unfolding errno
errno-injective e d same = ground arith
