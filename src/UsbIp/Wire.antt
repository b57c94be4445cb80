-- ===== src/UsbIp/Wire.antt =====
-- Reading and writing big-endian words. A reader is the list of its remaining bytes; a writer
-- returns the bytes that it adds.
use rust_p2p_usb.Base.{
  ℕ, ◌^◌, ◌<◌, ◌≡◌, ap, subst, Option, none, some, List, [], ◌∷◌, ◌++◌, arith, All, Result, ok, err,
  be_bytes, from_be_bytes, from_be_bytes-be_bytes, ℤ, of_i32,
}

pub data WireError : Type 0 where
  unexpected_eof : WireError
  unknown_command : ℕ → WireError

unfoldable pub read_u32 : List ℕ → Result (ℕ × List ℕ) WireError
read_u32 (a ∷ b ∷ c ∷ d ∷ rest) = ok (from_be_bytes a b c d, rest)
read_u32 _ = err unexpected_eof

abbrev pub write_u32 : ℕ → List ℕ
write_u32 n = be_bytes n

abbrev pub write_i32 : ℤ → List ℕ
write_i32 z = be_bytes (of_i32 z)

abbrev pub or_eof {ℓ} : {A : Type ℓ} → Option A → Result A WireError
or_eof none = err unexpected_eof
or_eof (some a) = ok a

pub read_u32-write_u32 :
    (n : ℕ) (rest : List ℕ) → n < 2 ^ 32 → read_u32 (write_u32 n ++ rest) ≡ ok (n, rest)
unfolding read_u32
read_u32-write_u32 n rest small = ap (λ k. ok (k, rest)) (from_be_bytes-be_bytes n small)

-- A word that was read is written as the bytes that it was read from.
pub write_u32-read_u32 :
    (bytes : List ℕ) (n : ℕ) (rest : List ℕ)
    → All (λ b. b < 256) bytes
    → read_u32 bytes ≡ ok (n, rest)
    → (write_u32 n ++ rest ≡ bytes) × All (λ b. b < 256) rest
unfolding read_u32
write_u32-read_u32 (a ∷ b ∷ c ∷ d ∷ tail) n rest (ha, (hb, (hc, (hd, hs)))) h =
    let e : n ≡ from_be_bytes a b c d = ground arith in
    let t : tail ≡ rest = ground arith in (ground arith, subst (All (λ (b : ℕ). b < 256)) t hs)
write_u32-read_u32 [] n rest hs h = cc
write_u32-read_u32 (a ∷ []) n rest hs h = cc
write_u32-read_u32 (a ∷ b ∷ []) n rest hs h = cc
write_u32-read_u32 (a ∷ b ∷ c ∷ []) n rest hs h = cc
