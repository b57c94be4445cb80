-- ===== src/UsbIp/CmdSubmit.antt =====
-- `UsbIpCmdSubmit` and `UsbIpCmdUnlink`, what the kernel asks for.
use rust_p2p_usb.Base.{
  ℕ, ◌+◌, ◌*◌, ◌^◌, ◌<◌, ◌≡◌, List, ◌++◌, arith, All, length, length-append, Result, ok, ◌>>=◌,
  from_be_bytes-be_bytes, read_exact, read_exact-append,
}
use mathlib.Core.List.{append_assoc}
use rust_p2p_usb.UsbIp.Wire.{WireError, read_u32, write_u32, or_eof}
use rust_p2p_usb.UsbIp.IsoPacket
use rust_p2p_usb.UsbIp.IsoPacket.{
  UsbIpIsoPacketDescriptor, read_packets, write_packets, read_packets-write_packets,
  length-write_packets,
}

-- `setup` has eight bytes.
pub record UsbIpCmdSubmit : Type 0 where
  pub transfer_flags : ℕ
  pub transfer_buffer_length : ℕ
  pub start_frame : ℕ
  pub number_of_packets : ℕ
  pub interval : ℕ
  pub setup : List ℕ
  pub iso_packets : List UsbIpIsoPacketDescriptor

abbrev pub size : ℕ
size = 28

unfoldable pub read_submit : List ℕ → Result (UsbIpCmdSubmit × List ℕ) WireError
read_submit reader = do
  (transfer_flags, r1) ← read_u32 reader
  (transfer_buffer_length, r2) ← read_u32 r1
  (start_frame, r3) ← read_u32 r2
  (number_of_packets, r4) ← read_u32 r3
  (interval, r5) ← read_u32 r4
  (setup, r6) ← or_eof (read_exact 8 r5)
  (iso_packets, r7) ← read_packets number_of_packets r6
  let cmd : UsbIpCmdSubmit = record {
    transfer_flags = transfer_flags;
    transfer_buffer_length = transfer_buffer_length;
    start_frame = start_frame;
    number_of_packets = number_of_packets;
    interval = interval;
    setup = setup;
    iso_packets = iso_packets;
  }
  ok (cmd, r7)

unfoldable pub write_submit : UsbIpCmdSubmit → List ℕ
write_submit c =
    write_u32 c.transfer_flags
    ++ (write_u32 c.transfer_buffer_length
        ++ (write_u32 c.start_frame
            ++ (write_u32 c.number_of_packets
                ++ (write_u32 c.interval ++ (c.setup ++ write_packets c.iso_packets)))))

pub record InRange (c : UsbIpCmdSubmit) : Type 0 where
  pub transfer_flags : c.transfer_flags < 2 ^ 32
  pub transfer_buffer_length : c.transfer_buffer_length < 2 ^ 32
  pub start_frame : c.start_frame < 2 ^ 32
  pub number_of_packets : c.number_of_packets < 2 ^ 32
  pub interval : c.interval < 2 ^ 32
  pub setup : length c.setup ≡ 8
  pub counted : length c.iso_packets ≡ c.number_of_packets
  pub packets : All IsoPacket.InRange c.iso_packets

-- A command of `u32` fields, with eight setup bytes and as many packets as it tells, is read back,
-- whatever follows it.
pub read_submit-write_submit :
    (c : UsbIpCmdSubmit) (rest : List ℕ)
    → InRange c
    → read_submit (write_submit c ++ rest) ≡ ok (c, rest)
unfolding read_submit write_submit read_u32
read_submit-write_submit c rest v = rw (
  from_be_bytes-be_bytes c.transfer_flags v.transfer_flags,
  from_be_bytes-be_bytes c.transfer_buffer_length v.transfer_buffer_length,
  from_be_bytes-be_bytes c.start_frame v.start_frame,
  from_be_bytes-be_bytes c.number_of_packets v.number_of_packets,
  from_be_bytes-be_bytes c.interval v.interval,
  append_assoc c.setup (write_packets c.iso_packets) rest,
  ← v.setup,
  read_exact-append c.setup (write_packets c.iso_packets ++ rest),
  ← v.counted,
  read_packets-write_packets c.iso_packets rest v.packets,
)

-- A command of `u32` fields, with eight setup bytes and as many packets as it tells, takes 28 bytes
-- and 16 more for each packet.
pub length-write_submit :
    (c : UsbIpCmdSubmit)
    → InRange c
    → length (write_submit c) ≡ size + IsoPacket.size * c.number_of_packets
unfolding write_submit
length-write_submit c v = omega (
  arith,
  length-append c.setup (write_packets c.iso_packets),
  length-write_packets c.iso_packets,
  v.setup,
  v.counted,
)

pub record UsbIpCmdUnlink : Type 0 where
  pub seqnum_unlink : ℕ

unfoldable pub read_unlink : List ℕ → Result (UsbIpCmdUnlink × List ℕ) WireError
read_unlink reader = do
  (seqnum_unlink, rest) ← read_u32 reader
  let cmd : UsbIpCmdUnlink = record { seqnum_unlink = seqnum_unlink }
  ok (cmd, rest)
