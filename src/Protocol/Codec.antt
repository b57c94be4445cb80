-- ===== src/Protocol/Codec.antt =====
-- Frames: crates/protocol/src/codec.rs, error.rs and version.rs. The serializer is the crate
-- `postcard`, a parameter: what it does to a message, what it reads from bytes, and its error type.
-- A reader is the list of its remaining bytes and a writer the list of the bytes written.
pub mod Frames
pub mod Streams
use rust_p2p_usb.Base.{
  ℕ, ◌+◌, ◌*◌, ◌≡◌, Bool, true, false, not, ◌&&◌, Option, none, some, List, [], ◌∷◌, ◌++◌, length,
  take, drop, ltb, leb, ◌==◌, if◌then◌else◌, Result, ok, err, ◌>>=◌, fail_if, be_bytes,
  from_be_bytes, read_exact,
}
use rust_p2p_usb.Protocol.Messages.{ProtocolVersion, Message}

-- The kinds of `std::io::Error` that reading from bytes has.
pub data IoError : Type 0 where
  unexpected_eof : IoError

pub data ProtocolError (E : Type 0) : Type 0 where
  serialization : E → ProtocolError E
  incompatible_version : (major minor expected_major expected_minor : ℕ) → ProtocolError E
  invalid_message_type : ProtocolError E
  buffer_too_small : (needed available : ℕ) → ProtocolError E
  frame_too_large : (size max : ℕ) → ProtocolError E
  incomplete_frame : (expected actual : ℕ) → ProtocolError E
  io : IoError → ProtocolError E

pub record Postcard (F E : Type 0) : Type 0 where
  pub to_allocvec : Message F → Result (List ℕ) E
  pub from_bytes : List ℕ → Result (Message F) E

-- What the crate documents: it reads back what it wrote.
abbrev pub RoundTrips : {F E : Type 0} → Postcard F E → Type 0
RoundTrips {F} p =
    (m : Message F) (bytes : List ℕ) → p.to_allocvec m ≡ ok bytes → p.from_bytes bytes ≡ ok m

abbrev pub max_frame_size : ℕ
max_frame_size = 32 * 1024 * 1024

abbrev pub current_version : ProtocolVersion
current_version = record { major = 1; minor = 1; patch = 0 }

unfoldable pub is_compatible_with : ProtocolVersion → ProtocolVersion → Bool
is_compatible_with self other = self.major == other.major && leb other.minor self.minor

unfoldable pub validate_version :
    {E : Type 0} → ProtocolVersion → Result (Unit {0}) (ProtocolError E)
validate_version version =
    fail_if (not (version.major == current_version.major))
      (incompatible_version version.major version.minor current_version.major current_version.minor)
      (ok tt)

-- The first four bytes as a length, or nothing if there are fewer.
abbrev pub prefix_of : List ℕ → Option (ℕ × List ℕ)
prefix_of (a ∷ b ∷ c ∷ d ∷ rest) = some (from_be_bytes a b c d, rest)
prefix_of _ = none

-- `?` on a read that may hit the end of the stream
abbrev pub or_eof {ℓ} : {A : Type ℓ} {E : Type 0} → Option A → Result A (ProtocolError E)
or_eof none = err (io unexpected_eof)
or_eof (some a) = ok a

-- `map_err(ProtocolError::from)`
abbrev pub or_serialization {ℓ} :
    {A : Type ℓ} {E : Type 0} → Result A E → Result A (ProtocolError E)
or_serialization (ok a) = ok a
or_serialization (err e) = err (serialization e)

unfoldable pub write_framed_async :
    {E : Type 0} → List ℕ → List ℕ → Result (List ℕ) (ProtocolError E)
write_framed_async writer framed_bytes = ok (writer ++ framed_bytes)

-- Returns the frame, its prefix included, beside what is left of the stream.
unfoldable pub read_framed_async :
    {E : Type 0} → List ℕ → Result (List ℕ × List ℕ) (ProtocolError E)
read_framed_async reader = do
  (size, rest) ← or_eof (prefix_of reader)
  fail_if (ltb max_frame_size size) (frame_too_large size max_frame_size)
      (do (bytes, left) ← or_eof (read_exact size rest); ok (take 4 reader ++ bytes, left))

module _ {F E : Type 0} (p : Postcard F E) where
  unfoldable pub encode_message : Message F → Result (List ℕ) (ProtocolError E)
  encode_message message = or_serialization (p.to_allocvec message)

  unfoldable pub decode_message : List ℕ → Result (Message F) (ProtocolError E)
  decode_message bytes = or_serialization (p.from_bytes bytes)

  unfoldable pub encode_framed : Message F → Result (List ℕ) (ProtocolError E)
  encode_framed message = do
    bytes ← encode_message message
    fail_if (ltb max_frame_size (length bytes)) (frame_too_large (length bytes) max_frame_size)
        (ok (be_bytes (length bytes) ++ bytes))

  -- After the length prefix: `actual` is the length of the whole frame.
  decode_body : ℕ → ℕ → List ℕ → Result (Message F) (ProtocolError E)
  decode_body size actual body =
      fail_if (ltb max_frame_size size) (frame_too_large size max_frame_size) (
        fail_if (ltb actual (4 + size)) (incomplete_frame (4 + size) actual)
          (decode_message (take size body)))

  unfoldable pub decode_framed : List ℕ → Result (Message F) (ProtocolError E)
  unfolding decode_body
  decode_framed frame = elim (prefix_of frame) [
    | none ↦ err (incomplete_frame 4 (length frame))
    | some (size, body) ↦ decode_body size (length frame) body
  ]

  unfoldable pub write_framed : List ℕ → Message F → Result (List ℕ) (ProtocolError E)
  write_framed writer message = do framed ← encode_framed message; ok (writer ++ framed)

  -- Returns the message beside what is left of the stream.
  unfoldable pub read_framed : List ℕ → Result (Message F × List ℕ) (ProtocolError E)
  read_framed reader = do
    (size, rest) ← or_eof (prefix_of reader)
    fail_if (ltb max_frame_size size) (frame_too_large size max_frame_size) (do
      (bytes, left) ← or_eof (read_exact size rest)
      message ← decode_message bytes
      ok (message, left))
