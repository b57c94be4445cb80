-- ===== src/Base/Words.antt =====
-- Machine integers and their bytes. A word is a number below its modulus; a byte list is most or
-- least significant byte first. An `i32` is an integer, and `as` casts go through the bit pattern.
use Prim.Native.Nat.{ℕ, zero, suc, ◌+◌, ◌-◌, ◌*◌, ◌/◌, ◌%◌, ◌^◌, ◌<◌}
use mathlib.Core.Path.{◌≡◌, refl, ap}
use mathlib.Core.Option.{Option, none, some}
use mathlib.Core.List.{List, [], ◌∷◌, ◌++◌}
use native.Mathlib.Omega.{arith}
use native.Mathlib.Nat.{pow-suc}
use rust_p2p_usb.Base.Tests.{ltb, if◌then◌else◌}
use rust_p2p_usb.Base.Lists.{
  length, take, drop, take-length_append, drop-length_append, length-append, length-take,
}

-- `negsuc n` is -(n + 1).
pub data ℤ : Type 0 where
  pos : ℕ → ℤ
  negsuc : ℕ → ℤ

-- `as u32`
abbrev pub as_u32 : ℕ → ℕ
as_u32 n = n % 2 ^ 32

-- `as i32` of a `u32`
unfoldable pub to_i32 : ℕ → ℤ
to_i32 word = if ltb word (2 ^ 31) then pos word else negsuc (2 ^ 32 - 1 - word)

-- `as u32` of an `i32`
unfoldable pub of_i32 : ℤ → ℕ
of_i32 (pos n) = n % 2 ^ 32
of_i32 (negsuc n) = 2 ^ 32 - 1 - n % 2 ^ 32

pub of_i32-to_i32 : (word : ℕ) → word < 2 ^ 32 → of_i32 (to_i32 word) ≡ word
unfolding of_i32 to_i32
of_i32-to_i32 word small = ground arith

-- `to_be_bytes` of a `u32`
abbrev pub be_bytes : ℕ → List ℕ
be_bytes n = n / 2 ^ 24 % 256 ∷ n / 2 ^ 16 % 256 ∷ n / 2 ^ 8 % 256 ∷ n % 256 ∷ []

-- `from_be_bytes` of a `u32`
abbrev pub from_be_bytes : ℕ → ℕ → ℕ → ℕ → ℕ
from_be_bytes a b c d = a * 2 ^ 24 + b * 2 ^ 16 + c * 2 ^ 8 + d

pub from_be_bytes-be_bytes :
    (n : ℕ)
    → n < 2 ^ 32
    → from_be_bytes (n / 2 ^ 24 % 256) (n / 2 ^ 16 % 256) (n / 2 ^ 8 % 256) (n % 256) ≡ n
from_be_bytes-be_bytes n small = omega arith

-- `to_le_bytes`, of as many bytes as asked for
unfoldable pub le_bytes : ℕ → ℕ → List ℕ
le_bytes zero n = []
le_bytes (suc count) n = n % 256 ∷ le_bytes count (n / 256)

unfoldable pub from_le_bytes : List ℕ → ℕ
from_le_bytes [] = 0
from_le_bytes (b ∷ bs) = b + 256 * from_le_bytes bs

pub length-le_bytes : (count n : ℕ) → length (le_bytes count n) ≡ count
unfolding le_bytes
length-le_bytes zero n = refl
length-le_bytes (suc count) n = ap suc (length-le_bytes count (n / 256))

pub from_le_bytes-le_bytes : (count n : ℕ) → n < 256 ^ count → from_le_bytes (le_bytes count n) ≡ n
unfolding le_bytes from_le_bytes
from_le_bytes-le_bytes zero n small = omega arith
from_le_bytes-le_bytes (suc count) n small =
    omega (arith, from_le_bytes-le_bytes count (n / 256) (omega (arith, pow-suc 256 count)))

-- `read_exact` of a reader whose remaining bytes are the list; `none` is `UnexpectedEof`.
unfoldable pub read_exact {ℓ} : {A : Type ℓ} → ℕ → List A → Option (List A × List A)
read_exact count bytes =
    if ltb (length bytes) count then none else some (take count bytes, drop count bytes)

pub read_exact-append {ℓ} :
    {A : Type ℓ} (bytes rest : List A)
    → read_exact (length bytes) (bytes ++ rest) ≡ some (bytes, rest)
unfolding read_exact
read_exact-append bytes rest =
    ground (
      arith,
      length-append bytes rest,
      take-length_append bytes rest,
      drop-length_append bytes rest,
    )

pub read_exact-split {ℓ} :
    {A : Type ℓ} (count : ℕ) (bytes : List A) {got rest : List A}
    → read_exact count bytes ≡ some (got, rest)
    → (length got ≡ count) × (got ≡ take count bytes)
unfolding read_exact
read_exact-split count bytes e = ground (arith, length-take count bytes)
