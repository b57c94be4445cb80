-- ===== src/Protocol/Codec/Frames.antt =====
-- What a frame is, that it reads back, and that a part of it is never taken for a message.
use rust_p2p_usb.Base.{
  ℕ, zero, suc, ◌+◌, ◌≤◌, ◌<◌, ◌≡◌, refl, ap, ◌∙◌, List, [], ◌∷◌, ◌++◌, arith, length, take, ltb,
  Result, ok, err, ◌>>=◌, fail_if, be_bytes, from_be_bytes, from_be_bytes-be_bytes, length-append,
  take-length_append, length-take, le→ltb,
}
use rust_p2p_usb.Protocol.Messages.{Message}
use rust_p2p_usb.Protocol.Codec.{
  ProtocolError, incomplete_frame, Postcard, RoundTrips, max_frame_size, encode_message,
  decode_message, encode_framed, decode_body, decode_framed, or_serialization, frame_too_large,
}

-- A frame and the bytes that it carries.
pub record IsFrameOf {F E : Type 0} (p : Postcard F E) (m : Message F) (frame bytes : List ℕ)
    : Type 0 where
  pub serialized : p.to_allocvec m ≡ ok bytes
  pub in_limit : length bytes ≤ max_frame_size
  pub layout : frame ≡ be_bytes (length bytes) ++ bytes

module _ {F E : Type 0} (p : Postcard F E) (m : Message F) where
  framed_of :
      (r : Result (List ℕ) E) {frame : List ℕ}
      → p.to_allocvec m ≡ r
      → (or_serialization r >>= λ bytes.
          fail_if
            (ltb max_frame_size (length bytes))
            (frame_too_large (length bytes) max_frame_size)
            (ok (be_bytes (length bytes) ++ bytes)))
        ≡ ok frame
      → (bytes : List ℕ) × IsFrameOf p m frame bytes
  framed_of (err e) s h = cc
  framed_of (ok bytes) s h =
      (bytes, record { serialized = s; in_limit = ground arith; layout = ground arith })

  -- What `encode_framed` returns is the length in four bytes and the serialized message, which is
  -- within the limit.
  pub encode_framed-IsFrameOf :
      (frame : List ℕ) → encode_framed p m ≡ ok frame → (bytes : List ℕ) × IsFrameOf p m frame bytes
  unfolding encode_framed encode_message
  encode_framed-IsFrameOf frame h = framed_of (p.to_allocvec m) refl h

-- The body of a frame is not changed by what follows the frame.
body_reads :
    {F E : Type 0} (p : Postcard F E) (m : Message F) (bytes extra : List ℕ) (actual : ℕ)
    → p.from_bytes bytes ≡ ok m
    → length bytes ≤ max_frame_size
    → 4 + length bytes ≤ actual
    → decode_body p (length bytes) actual (bytes ++ extra) ≡ ok m
unfolding decode_body decode_message
body_reads p m bytes extra actual reads small fits = rw (
  le→ltb max_frame_size (length bytes) small,
  le→ltb actual (4 + length bytes) fits,
  take-length_append bytes extra,
  reads,
)

frame_reads :
    {F E : Type 0} (p : Postcard F E) (m : Message F) (bytes extra : List ℕ)
    → p.from_bytes bytes ≡ ok m
    → length bytes ≤ max_frame_size
    → decode_framed p ((be_bytes (length bytes) ++ bytes) ++ extra) ≡ ok m
unfolding decode_framed
frame_reads p m bytes extra reads small =
    rw (from_be_bytes-be_bytes (length bytes) (omega arith))
      (body_reads p m bytes extra _ reads small (omega (arith, length-append bytes extra)))

-- If the serializer reads back what it wrote, a frame decodes to its message, whatever follows it.
pub decode_framed-encode_framed :
    {F E : Type 0} (p : Postcard F E) (m : Message F) (frame extra : List ℕ)
    → RoundTrips p
    → encode_framed p m ≡ ok frame
    → decode_framed p (frame ++ extra) ≡ ok m
decode_framed-encode_framed p m frame extra law h = of_frame (encode_framed-IsFrameOf p m frame h)
  where
    of_frame :
        (bytes : List ℕ) × IsFrameOf p m frame bytes → decode_framed p (frame ++ extra) ≡ ok m
    of_frame (bytes, f) =
        rw f.layout (frame_reads p m bytes extra (law m bytes f.serialized) f.in_limit)

short_prefix :
    {F E : Type 0} (p : Postcard F E) (frame : List ℕ)
    → length frame < 4
    → decode_framed p frame ≡ err (incomplete_frame 4 (length frame))
unfolding decode_framed
short_prefix p [] h = refl
short_prefix p (a ∷ []) h = refl
short_prefix p (a ∷ b ∷ []) h = refl
short_prefix p (a ∷ b ∷ c ∷ []) h = refl
short_prefix p (a ∷ b ∷ c ∷ d ∷ rest) h = absurd (omega arith)

cut_body :
    {F E : Type 0} (p : Postcard F E) (size : ℕ) (a b c d : ℕ) (rest : List ℕ)
    → from_be_bytes a b c d ≡ size
    → size ≤ max_frame_size
    → length rest < size
    → decode_framed p (a ∷ b ∷ c ∷ d ∷ rest) ≡ err (incomplete_frame (4 + size) (4 + length rest))
unfolding decode_framed decode_body
cut_body p size a b c d rest e small short = rw (e, le→ltb max_frame_size size small) (ground arith)

-- What the error of a cut frame says, of a frame of `full` bytes cut to `n`.
abbrev pub Incomplete : {A E : Type 0} → ℕ → ℕ → Result A (ProtocolError E) → Type 0
Incomplete n full r =
    (needed : ℕ) × (r ≡ err (incomplete_frame needed n)) × (n < needed) × (needed ≤ full)

cut_frame :
    {F E : Type 0} (p : Postcard F E) (bytes : List ℕ) (n : ℕ)
    → length bytes ≤ max_frame_size
    → n < 4 + length bytes
    → Incomplete n (4 + length bytes) (decode_framed p (take n (be_bytes (length bytes) ++ bytes)))
cut_frame p bytes zero small short = (4, short_prefix p [] (omega arith), omega arith, omega arith)
cut_frame p bytes (suc zero) small short =
    (4, short_prefix p _ (omega arith), omega arith, omega arith)
cut_frame p bytes (suc (suc zero)) small short =
    (4, short_prefix p _ (omega arith), omega arith, omega arith)
cut_frame p bytes (suc (suc (suc zero))) small short =
    (4, short_prefix p _ (omega arith), omega arith, omega arith)
cut_frame p bytes (suc (suc (suc (suc k)))) small short = (
  4 + length bytes,
  cut_body p (length bytes) _ _ _ _ (take k bytes)
        (from_be_bytes-be_bytes (length bytes) (omega arith)) small
        (omega (arith, length-take k bytes (omega arith)))
      ∙ ap (λ j. err (incomplete_frame (4 + length bytes) j))
          (omega (arith, length-take k bytes (omega arith))),
  omega arith,
  omega arith,
)

-- A proper part of a frame from its start is never decoded to a message: the error tells the
-- length at hand, and a larger length that is needed, at most that of the frame.
pub decode_framed-take :
    {F E : Type 0} (p : Postcard F E) (m : Message F) (frame : List ℕ) (n : ℕ)
    → encode_framed p m ≡ ok frame
    → n < length frame
    → Incomplete n (length frame) (decode_framed p (take n frame))
decode_framed-take p m frame n h short = of_frame (encode_framed-IsFrameOf p m frame h)
  where
    of_frame :
        (bytes : List ℕ) × IsFrameOf p m frame bytes
        → Incomplete n (length frame) (decode_framed p (take n frame))
    of_frame (bytes, f) =
        let sized : length frame ≡ 4 + length bytes = ap length f.layout ∙ omega arith in
        rw (sized, f.layout) (cut_frame p bytes n f.in_limit (omega arith))
