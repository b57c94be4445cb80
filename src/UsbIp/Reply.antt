-- ===== src/UsbIp/Reply.antt =====
-- `UsbIpRetSubmit` and `UsbIpRetUnlink`, what the kernel is answered.
use rust_p2p_usb.Base.{ℕ, ◌^◌, ◌<◌, ◌≡◌, List, ◌++◌, ℤ, pos, negsuc, to_i32, of_i32-to_i32}
use rust_p2p_usb.UsbIp.Wire.{write_i32, write_u32}

pub record UsbIpRetSubmit : Type 0 where
  pub status : ℤ
  pub actual_length : ℕ
  pub start_frame : ℕ
  pub number_of_packets : ℕ
  pub error_count : ℕ

unfoldable pub success : ℕ → UsbIpRetSubmit
success actual_length = record {
  status = pos 0;
  actual_length = actual_length;
  start_frame = 0;
  number_of_packets = 0;
  error_count = 0;
}

unfoldable pub error : ℤ → UsbIpRetSubmit
error status = record {
  status = status;
  actual_length = 0;
  start_frame = 0;
  number_of_packets = 0;
  error_count = 0;
}

-- Each count is cast to an `i32` before it is written.
unfoldable pub write_reply : UsbIpRetSubmit → List ℕ
write_reply r =
    write_i32 r.status
    ++ (write_i32 (to_i32 r.actual_length)
        ++ (write_i32 (to_i32 r.start_frame)
            ++ (write_i32 (to_i32 r.number_of_packets) ++ write_i32 (to_i32 r.error_count))))

pub record InRange (r : UsbIpRetSubmit) : Type 0 where
  pub actual_length : r.actual_length < 2 ^ 32
  pub start_frame : r.start_frame < 2 ^ 32
  pub number_of_packets : r.number_of_packets < 2 ^ 32
  pub error_count : r.error_count < 2 ^ 32

-- The casts lose nothing: if the counts are `u32`, the bytes are those of the status and of the
-- four `u32` counts.
pub write_reply-words :
    (r : UsbIpRetSubmit)
    → InRange r
    → write_reply r
      ≡ write_i32 r.status
        ++ (write_u32 r.actual_length
            ++ (write_u32 r.start_frame
                ++ (write_u32 r.number_of_packets ++ write_u32 r.error_count)))
unfolding write_reply
write_reply-words r v = rw (
  of_i32-to_i32 r.actual_length v.actual_length,
  of_i32-to_i32 r.start_frame v.start_frame,
  of_i32-to_i32 r.number_of_packets v.number_of_packets,
  of_i32-to_i32 r.error_count v.error_count,
)

pub record UsbIpRetUnlink : Type 0 where
  pub status : ℤ

abbrev pub unlinked : UsbIpRetUnlink
unlinked = record { status = pos 0 }

-- -ENOENT
abbrev pub not_found : UsbIpRetUnlink
not_found = record { status = negsuc 1 }

unfoldable pub write_unlink : UsbIpRetUnlink → List ℕ
write_unlink r = write_i32 r.status
