-- ===== src/UsbIp/IsoPacket.antt =====
-- `UsbIpIsoPacketDescriptor`, sixteen bytes for each packet of an isochronous transfer.
use rust_p2p_usb.Base.{
  ℕ, zero, suc, ◌*◌, ◌^◌, ◌<◌, ◌≡◌, refl, List, [], ◌∷◌, ◌++◌, arith, All, length, Result, ok,
  ◌>>=◌, from_be_bytes-be_bytes,
}
use mathlib.Core.List.{append_assoc}
use rust_p2p_usb.UsbIp.Wire.{WireError, read_u32, write_u32}

pub record UsbIpIsoPacketDescriptor : Type 0 where
  pub offset : ℕ
  pub length : ℕ
  pub actual_length : ℕ
  pub status : ℕ

abbrev pub size : ℕ
size = 16

unfoldable pub read_packet : List ℕ → Result (UsbIpIsoPacketDescriptor × List ℕ) WireError
read_packet reader = do
  (offset, r1) ← read_u32 reader
  (len, r2) ← read_u32 r1
  (actual_length, r3) ← read_u32 r2
  (status, r4) ← read_u32 r3
  let packet : UsbIpIsoPacketDescriptor = record {
    offset = offset;
    length = len;
    actual_length = actual_length;
    status = status;
  }
  ok (packet, r4)

unfoldable pub write_packet : UsbIpIsoPacketDescriptor → List ℕ
write_packet p =
    write_u32 p.offset ++ (write_u32 p.length ++ (write_u32 p.actual_length ++ write_u32 p.status))

-- The loop over `number_of_packets`.
unfoldable pub read_packets : ℕ → List ℕ → Result (List UsbIpIsoPacketDescriptor × List ℕ) WireError
read_packets zero reader = ok ([], reader)
read_packets (suc count) reader = do
  (packet, left) ← read_packet reader
  (packets, rest) ← read_packets count left
  ok (packet ∷ packets, rest)

-- The loop over the packets of a command.
unfoldable pub write_packets : List UsbIpIsoPacketDescriptor → List ℕ
write_packets [] = []
write_packets (p ∷ ps) = write_packet p ++ write_packets ps

pub record InRange (p : UsbIpIsoPacketDescriptor) : Type 0 where
  pub offset : p.offset < 2 ^ 32
  pub length : p.length < 2 ^ 32
  pub actual_length : p.actual_length < 2 ^ 32
  pub status : p.status < 2 ^ 32

pub read_packet-write_packet :
    (p : UsbIpIsoPacketDescriptor) (rest : List ℕ)
    → InRange p
    → read_packet (write_packet p ++ rest) ≡ ok (p, rest)
unfolding read_packet write_packet read_u32
read_packet-write_packet p rest v = rw (
  from_be_bytes-be_bytes p.offset v.offset,
  from_be_bytes-be_bytes p.length v.length,
  from_be_bytes-be_bytes p.actual_length v.actual_length,
  from_be_bytes-be_bytes p.status v.status,
)

pub read_packets-write_packets :
    (ps : List UsbIpIsoPacketDescriptor) (rest : List ℕ)
    → All InRange ps
    → read_packets (length ps) (write_packets ps ++ rest) ≡ ok (ps, rest)
unfolding read_packets write_packets
read_packets-write_packets [] rest v = refl
read_packets-write_packets (p ∷ ps) rest v = rw (
  append_assoc (write_packet p) (write_packets ps) rest,
  read_packet-write_packet p (write_packets ps ++ rest) v.0,
  read_packets-write_packets ps rest v.1,
)

pub length-write_packets :
    (ps : List UsbIpIsoPacketDescriptor) → length (write_packets ps) ≡ size * length ps
unfolding write_packets write_packet
length-write_packets [] = refl
length-write_packets (p ∷ ps) = omega (arith, length-write_packets ps)
