-- ===== src/UsbIp/Header.antt =====
-- `UsbIpCommand` and `UsbIpHeader`, the first twenty bytes of every message.
use rust_p2p_usb.Base.{
  ℕ, ◌%◌, ◌^◌, ◌<◌, ◌≡◌, ◌↔◌, refl, List, ◌++◌, arith, length, Result, ok, err, ◌>>=◌, ◌==◌,
  if◌then◌else◌, from_be_bytes-be_bytes,
}
use rust_p2p_usb.UsbIp.Wire.{WireError, unknown_command, read_u32, write_u32}

pub data UsbIpCommand : Type 0 where
  cmd_submit ret_submit cmd_unlink ret_unlink : UsbIpCommand

-- The discriminant, `command as u32`.
abbrev pub code : UsbIpCommand → ℕ
code cmd_submit = 1
code ret_submit = 3
code cmd_unlink = 2
code ret_unlink = 4

unfoldable pub from_u16 : ℕ → Result UsbIpCommand WireError
from_u16 value =
    if value == 1
    then ok cmd_submit
    else if value == 3
    then ok ret_submit
    else if value == 2
    then ok cmd_unlink
    else if value == 4
    then ok ret_unlink
    else err (unknown_command value)

pub record UsbIpHeader : Type 0 where
  pub command : ℕ
  pub seqnum : ℕ
  pub devid : ℕ
  pub direction : ℕ
  pub ep : ℕ

abbrev pub size : ℕ
size = 20

unfoldable pub new : UsbIpCommand → ℕ → ℕ → UsbIpHeader
new command seqnum devid = record {
  command = code command;
  seqnum = seqnum;
  devid = devid;
  direction = 0;
  ep = 0;
}

unfoldable pub read_from : List ℕ → Result (UsbIpHeader × List ℕ) WireError
read_from reader = do
  (command, r1) ← read_u32 reader
  (seqnum, r2) ← read_u32 r1
  (devid, r3) ← read_u32 r2
  (direction, r4) ← read_u32 r3
  (ep, r5) ← read_u32 r4
  let header : UsbIpHeader = record {
    command = command;
    seqnum = seqnum;
    devid = devid;
    direction = direction;
    ep = ep;
  }
  ok (header, r5)

unfoldable pub write_to : UsbIpHeader → List ℕ
write_to h =
    write_u32 h.command
    ++ (write_u32 h.seqnum ++ (write_u32 h.devid ++ (write_u32 h.direction ++ write_u32 h.ep)))

-- `as u16`, then the command
unfoldable pub command_type : UsbIpHeader → Result UsbIpCommand WireError
unfolding from_u16
command_type h = from_u16 (h.command % 2 ^ 16)

-- Every field is a `u32`.
pub record InRange (h : UsbIpHeader) : Type 0 where
  pub command : h.command < 2 ^ 32
  pub seqnum : h.seqnum < 2 ^ 32
  pub devid : h.devid < 2 ^ 32
  pub direction : h.direction < 2 ^ 32
  pub ep : h.ep < 2 ^ 32

pub length-write_to : (h : UsbIpHeader) → length (write_to h) ≡ size
unfolding write_to
length-write_to h = refl

-- A header that is written, of `u32` fields, is read back, whatever follows it.
pub read_from-write_to :
    (h : UsbIpHeader) (rest : List ℕ) → InRange h → read_from (write_to h ++ rest) ≡ ok (h, rest)
unfolding read_from write_to read_u32
read_from-write_to h rest v = rw (
  from_be_bytes-be_bytes h.command v.command,
  from_be_bytes-be_bytes h.seqnum v.seqnum,
  from_be_bytes-be_bytes h.devid v.devid,
  from_be_bytes-be_bytes h.direction v.direction,
  from_be_bytes-be_bytes h.ep v.ep,
)

-- The command of a header is known exactly if the low half of its word is the command's code; the
-- high half is ignored.
pub command_type-eq-ok :
    (h : UsbIpHeader) (c : UsbIpCommand) → (command_type h ≡ ok c) ↔ (h.command % 2 ^ 16 ≡ code c)
unfolding command_type
command_type-eq-ok h c = ground arith
