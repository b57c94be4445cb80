-- ===== src/Protocol/Tests.antt =====
-- Runs of the codec and of the checks over a small serializer and a small hasher.
use rust_p2p_usb.Base.{
  ℕ, ◌+◌, ◌≡◌, ◌⊎◌, refl, List, [], ◌∷◌, ◌++◌, arith, take, Result, ok, err, le_bytes, ◌==◌,
  if◌then◌else◌,
}
use rust_p2p_usb.Protocol.Messages.{ProtocolVersion, Message, MessagePayload}
use rust_p2p_usb.Protocol.Codec.{
  Postcard, RoundTrips, current_version, encode_framed, decode_framed, incomplete_frame,
  write_framed, encode_message,
}
use rust_p2p_usb.Protocol.Codec.Frames.{Incomplete, decode_framed-encode_framed, decode_framed-take}
use rust_p2p_usb.Protocol.Codec.Streams.{write_all, read_all, read_all-write_all}
use rust_p2p_usb.Protocol.Integrity.{
  Hasher, Streams, Collide, interrupt_bytes, compute_interrupt_checksum, verify_interrupt_checksum,
  verify_interrupt_checksum-collision,
}

abbrev ping : Message (Unit {0})
ping = record { version = current_version; payload = MessagePayload.ping }

abbrev pong : Message (Unit {0})
pong = record { version = current_version; payload = MessagePayload.pong }

-- A serializer that knows the two messages without content.
write_payload : ProtocolVersion → MessagePayload (Unit {0}) → Result (List ℕ) (Unit {0})
write_payload v MessagePayload.ping = ok (v.major ∷ v.minor ∷ v.patch ∷ 8 ∷ [])
write_payload v MessagePayload.pong = ok (v.major ∷ v.minor ∷ v.patch ∷ 9 ∷ [])
write_payload v _ = err tt

read_payload : ℕ → ProtocolVersion → Result (Message (Unit {0})) (Unit {0})
read_payload tag v =
    if tag == 8
    then ok (record { version = v; payload = MessagePayload.ping })
    else if tag == 9
    then ok (record { version = v; payload = MessagePayload.pong })
    else err tt

read_small : List ℕ → Result (Message (Unit {0})) (Unit {0})
unfolding read_payload
read_small (a ∷ b ∷ c ∷ tag ∷ []) = read_payload tag (record { major = a; minor = b; patch = c })
read_small _ = err tt

abbrev small : Postcard (Unit {0}) (Unit {0})
small = record { to_allocvec = λ m. write_payload m.version m.payload; from_bytes = read_small }

payload_round_trip :
    (v : ProtocolVersion) (payload : MessagePayload (Unit {0})) (bytes : List ℕ)
    → write_payload v payload ≡ ok bytes
    → read_small bytes ≡ ok (record { version = v; payload = payload })
unfolding write_payload read_small
payload_round_trip v MessagePayload.ping bytes h = ground arith
payload_round_trip v MessagePayload.pong bytes h = ground arith
payload_round_trip v _ bytes h = cc

small-RoundTrips : RoundTrips small
small-RoundTrips m bytes h = payload_round_trip m.version m.payload bytes h

abbrev ping_frame : List ℕ
ping_frame = 0 ∷ 0 ∷ 0 ∷ 4 ∷ 1 ∷ 1 ∷ 0 ∷ 8 ∷ []

ping_framed : encode_framed small ping ≡ ok ping_frame
unfolding encode_framed encode_message write_payload
ping_framed = refl

cut_frame_refused : decode_framed small (take 6 ping_frame) ≡ err (incomplete_frame 8 6)
unfolding decode_framed
cut_frame_refused = refl

decode_framed-encode_framed_example : decode_framed small (ping_frame ++ 7 ∷ []) ≡ ok ping
decode_framed-encode_framed_example =
    decode_framed-encode_framed small ping ping_frame (7 ∷ []) small-RoundTrips ping_framed

decode_framed-take_example : Incomplete 6 8 (decode_framed small (take 6 ping_frame))
decode_framed-take_example = decode_framed-take small ping ping_frame 6 ping_framed (omega arith)

read_all-write_all_example :
    read_all small 2 ((ping_frame ++ 0 ∷ 0 ∷ 0 ∷ 4 ∷ 1 ∷ 1 ∷ 0 ∷ 9 ∷ []) ++ 7 ∷ [])
    ≡ ok (ping ∷ pong ∷ [], 7 ∷ [])
unfolding write_all write_framed encode_framed encode_message write_payload
read_all-write_all_example =
    read_all-write_all small (ping ∷ pong ∷ []) _ (7 ∷ []) small-RoundTrips refl

abbrev newer : ProtocolVersion
newer = record { major = 1; minor = 2; patch = 0 }

-- A hasher that adds up the bytes.
sum_onto : ℕ → List ℕ → ℕ
sum_onto s [] = s
sum_onto s (b ∷ bs) = sum_onto (s + b) bs

abbrev adder : Hasher
adder = record { State = ℕ; new = 0; update = sum_onto; finalize = λ s. s }

adder-Streams : Streams adder
unfolding sum_onto
adder-Streams s [] ys = refl
adder-Streams s (x ∷ xs) ys = adder-Streams (s + x) xs ys

verify_interrupt_checksum-collision_example :
    ((◌≡◌ {A = ℕ} 5 5)
      × (◌≡◌ {A = ℕ} 129 130)
      × (◌≡◌ {A = List ℕ} (2 ∷ []) (1 ∷ []))
      × (◌≡◌ {A = ℕ} 9 9))
    ⊎ Collide adder (interrupt_bytes 5 129 (2 ∷ []) 9) (interrupt_bytes 5 130 (1 ∷ []) 9)
unfolding verify_interrupt_checksum compute_interrupt_checksum sum_onto le_bytes
verify_interrupt_checksum-collision_example =
    verify_interrupt_checksum-collision adder 5 129 (2 ∷ []) 9 5 130 (1 ∷ []) 9 adder-Streams
      (omega arith) (omega arith) (omega arith) (omega arith) refl
