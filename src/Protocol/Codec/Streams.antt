-- ===== src/Protocol/Codec/Streams.antt =====
-- Messages on a stream: what is written is read back in order, and both readers agree.
use rust_p2p_usb.Base.{
  ℕ, suc, ◌≤◌, ◌≡◌, refl, ◌∙◌, inl, inr, List, [], ◌∷◌, ◌++◌, arith, length, Result, ok, ◌>>=◌,
  be_bytes, from_be_bytes, from_be_bytes-be_bytes, read_exact, read_exact-append, read_exact-split,
  le→ltb, Option-cases, Result-cases, take_all,
}
use mathlib.Core.List.{append_assoc, append-nil}
use rust_p2p_usb.Protocol.Messages.{Message}
use rust_p2p_usb.Protocol.Codec.{
  ProtocolError, Postcard, RoundTrips, max_frame_size, decode_message, encode_framed, decode_framed,
  decode_body, write_framed, read_framed, read_framed_async,
}
use rust_p2p_usb.Protocol.Codec.Frames.{IsFrameOf, encode_framed-IsFrameOf}

body_streams :
    {F E : Type 0} (p : Postcard F E) (m : Message F) (bytes rest : List ℕ)
    → p.from_bytes bytes ≡ ok m
    → length bytes ≤ max_frame_size
    → read_framed p ((be_bytes (length bytes) ++ bytes) ++ rest) ≡ ok (m, rest)
unfolding read_framed decode_message
body_streams p m bytes rest reads small = rw (
  from_be_bytes-be_bytes (length bytes) (omega arith),
  le→ltb max_frame_size (length bytes) small,
  read_exact-append bytes rest,
  reads,
)

-- A frame at the head of a stream is read as its message, and the stream is left behind it.
pub read_framed-encode_framed :
    {F E : Type 0} (p : Postcard F E) (m : Message F) (frame rest : List ℕ)
    → RoundTrips p
    → encode_framed p m ≡ ok frame
    → read_framed p (frame ++ rest) ≡ ok (m, rest)
read_framed-encode_framed p m frame rest law h = of_frame (encode_framed-IsFrameOf p m frame h)
  where
    of_frame :
        (bytes : List ℕ) × IsFrameOf p m frame bytes → read_framed p (frame ++ rest) ≡ ok (m, rest)
    of_frame (bytes, f) =
        rw f.layout (body_streams p m bytes rest (law m bytes f.serialized) f.in_limit)

-- A client that writes messages one after the other, and one that reads as many.
module _ {F E : Type 0} (p : Postcard F E) where
  unfoldable pub write_all : List ℕ → List (Message F) → Result (List ℕ) (ProtocolError E)
  write_all writer [] = ok writer
  write_all writer (m ∷ ms) = do written ← write_framed p writer m; write_all written ms

  unfoldable pub read_all : ℕ → List ℕ → Result (List (Message F) × List ℕ) (ProtocolError E)
  read_all ℕ.zero reader = ok ([], reader)
  read_all (suc count) reader = do
    (m, left) ← read_framed p reader
    (ms, rest) ← read_all count left
    ok (m ∷ ms, rest)

-- What a run of writes adds to the stream, and that it reads back.
abbrev Added : {F E : Type 0} → Postcard F E → List ℕ → List (Message F) → List ℕ → Type 0
Added p writer ms written =
    (added : List ℕ) × (written ≡ writer ++ added)
    × ((rest : List ℕ) → read_all p (length ms) (added ++ rest) ≡ ok (ms, rest))

first_written :
    {F E : Type 0} (p : Postcard F E) (writer frame : List ℕ) (m : Message F)
    (ms : List (Message F)) (written : List ℕ)
    → RoundTrips p
    → encode_framed p m ≡ ok frame
    → Added p (writer ++ frame) ms written
    → Added p writer (m ∷ ms) written
unfolding read_all
first_written p writer frame m ms written law h (added, e, reads) = (
  frame ++ added,
  e ∙ append_assoc writer frame added,
  λ rest. rw (
    append_assoc frame added rest,
    read_framed-encode_framed p m frame (added ++ rest) law h,
    reads rest,
  ),
)

write_all-Added :
    {F E : Type 0} (p : Postcard F E) (writer : List ℕ) (ms : List (Message F)) (written : List ℕ)
    → RoundTrips p
    → write_all p writer ms ≡ ok written
    → Added p writer ms written
unfolding write_all read_all write_framed
write_all-Added p writer [] written law h = ([], ground (arith, append-nil writer), λ rest. refl)
write_all-Added p writer (m ∷ ms) written law h = elim (Result-cases (encode_framed p m)) [
  | inr (e, failed) ↦ cc (rw failed at h)
  | inl (frame, framed) ↦
      first_written p writer frame m ms written law framed
        (write_all-Added p (writer ++ frame) ms written law (rw framed at h))
]

-- Messages that were written to an empty stream are read back in their order by as many reads, and
-- what follows on the stream is left.
pub read_all-write_all :
    {F E : Type 0} (p : Postcard F E) (ms : List (Message F)) (stream rest : List ℕ)
    → RoundTrips p
    → write_all p [] ms ≡ ok stream
    → read_all p (length ms) (stream ++ rest) ≡ ok (ms, rest)
read_all-write_all p ms stream rest law h = of_added (write_all-Added p [] ms stream law h)
  where
    of_added : Added p [] ms stream → read_all p (length ms) (stream ++ rest) ≡ ok (ms, rest)
    of_added (added, e, reads) = rw e (reads rest)

-- The message that a raw frame holds, beside what is left of the stream.
abbrev pub decoded :
    {F E : Type 0} → Postcard F E → List ℕ × List ℕ → Result (Message F × List ℕ) (ProtocolError E)
decoded p (frame, left) = decode_framed p frame >>= λ m. ok (m, left)

sized_read :
    {F E : Type 0} (p : Postcard F E) (a b c d : ℕ) (rest : List ℕ)
    → read_framed p (a ∷ b ∷ c ∷ d ∷ rest)
      ≡ (read_framed_async (a ∷ b ∷ c ∷ d ∷ rest) >>= decoded p)
unfolding read_framed read_framed_async decode_framed decode_body
sized_read p a b c d rest = elim (Option-cases (read_exact (from_be_bytes a b c d) rest)) [
  | inl cut ↦ ground arith
  | inr ((got, left), e) ↦
      ground (
        arith,
        read_exact-split (from_be_bytes a b c d) rest e,
        take_all (from_be_bytes a b c d) got,
      )
]

-- On every stream, reading a message is reading a raw frame and decoding it, errors included.
pub read_framed-read_framed_async :
    {F E : Type 0} (p : Postcard F E) (reader : List ℕ)
    → read_framed p reader ≡ (read_framed_async reader >>= decoded p)
unfolding read_framed read_framed_async
read_framed-read_framed_async p [] = refl
read_framed-read_framed_async p (a ∷ []) = refl
read_framed-read_framed_async p (a ∷ b ∷ []) = refl
read_framed-read_framed_async p (a ∷ b ∷ c ∷ []) = refl
read_framed-read_framed_async p (a ∷ b ∷ c ∷ d ∷ rest) = sized_read p a b c d rest
