-- ===== src/Base/Text.antt =====
-- Texts as lists of code points, and the functions of the standard library that the program uses on
-- them: case and white space of ASCII only.
use Prim.Native.Nat.{ℕ, ◌+◌, ◌*◌, ◌-◌, ◌/◌, ◌%◌}
use Prim.Native.String.{String}
use Prim.Native.Char.{code}
use mathlib.Core.Bool.{Bool, true, false, ◌&&◌, ◌||◌}
use mathlib.Core.List.{List, [], ◌∷◌, map, reverse}
use mathlib.Core.Option.{Option, none, some}
use rust_p2p_usb.Base.Tests.{◌==◌, ltb, leb, if◌then◌else◌}

-- The code points of a text.
abbrev pub codes : String → List ℕ
codes String.[] = []
codes (String.◌∷◌ c s) = code c ∷ codes s

unfoldable pub same_text : List ℕ → List ℕ → Bool
same_text [] [] = true
same_text [] (d ∷ ds) = false
same_text (c ∷ cs) [] = false
same_text (c ∷ cs) (d ∷ ds) = c == d && same_text cs ds

abbrev pub to_lower : ℕ → ℕ
to_lower c = if leb 65 c && leb c 90 then c + 32 else c

abbrev pub to_lowercase : List ℕ → List ℕ
to_lowercase = map to_lower

abbrev pub is_whitespace : ℕ → Bool
is_whitespace c = (leb 9 c && leb c 13) || c == 32

unfoldable pub trim_start : List ℕ → List ℕ
trim_start [] = []
trim_start (c ∷ cs) = if is_whitespace c then trim_start cs else c ∷ cs

unfoldable pub trim : List ℕ → List ℕ
unfolding trim_start
trim cs = reverse (trim_start (reverse (trim_start cs)))

-- The first part of a split is given, in reverse.
unfoldable pub split_from : List ℕ → ℕ → List ℕ → List (List ℕ)
split_from part sep [] = reverse part ∷ []
split_from part sep (c ∷ cs) =
    if c == sep then reverse part ∷ split_from [] sep cs else split_from (c ∷ part) sep cs

unfoldable pub split : ℕ → List ℕ → List (List ℕ)
unfolding split_from
split = split_from []

-- The digits after `value`, which may not pass `limit`.
unfoldable pub digits_from : ℕ → ℕ → List ℕ → Option ℕ
digits_from limit value [] = some value
digits_from limit value (c ∷ cs) =
    let next = value * 10 + (c - 48) in
    let rest = digits_from limit next cs in
    if leb 48 c && (leb c 57 && leb next limit) then rest else none

-- `parse` of an unsigned number up to `limit`
unfoldable pub parse : ℕ → List ℕ → Option ℕ
unfolding digits_from
parse limit [] = none
parse limit (c ∷ []) = digits_from limit 0 (c ∷ [])
parse limit (c ∷ d ∷ cs) =
    if c == 43 then digits_from limit 0 (d ∷ cs) else digits_from limit 0 (c ∷ d ∷ cs)

-- `{:02}` of a number below a hundred
abbrev pub two_digits : ℕ → List ℕ
two_digits n = (n / 10 + 48) ∷ (n % 10 + 48) ∷ []

-- A digit of `{:x}`.
abbrev pub hex_digit : ℕ → ℕ
hex_digit d = if ltb d 10 then d + 48 else d + 87

-- `{:04x}` of a `u16`
abbrev pub four_hex : ℕ → List ℕ
four_hex n =
    hex_digit (n / 4096)
    ∷ hex_digit (n / 256 % 16)
    ∷ hex_digit (n / 16 % 16)
    ∷ hex_digit (n % 16)
    ∷ []

abbrev pub hex_value : ℕ → Option ℕ
hex_value c =
    if leb 48 c && leb c 57
    then some (c - 48)
    else if leb 97 (to_lower c) && leb (to_lower c) 102
    then some (to_lower c - 87)
    else none

-- The hexadecimal digits after `value`, which may not pass `limit`.
unfoldable pub hex_from : ℕ → ℕ → List ℕ → Option ℕ
hex_from limit value [] = some value
hex_from limit value (c ∷ cs) = elim (hex_value c) [
  | none ↦ none
  | some v ↦
      let next = value * 16 + v in
      let rest = hex_from limit next cs in if leb next limit then rest else none
]

-- `from_str_radix` with radix 16 of an unsigned number up to `limit`
unfoldable pub parse_hex : ℕ → List ℕ → Option ℕ
unfolding hex_from
parse_hex limit [] = none
parse_hex limit (c ∷ []) = hex_from limit 0 (c ∷ [])
parse_hex limit (c ∷ d ∷ cs) =
    if c == 43 then hex_from limit 0 (d ∷ cs) else hex_from limit 0 (c ∷ d ∷ cs)

-- `trim_start_matches("0x")`, every time that it stands at the front.
unfoldable pub trim_0x : List ℕ → List ℕ
trim_0x [] = []
trim_0x (c ∷ []) = c ∷ []
trim_0x (c ∷ d ∷ cs) = let rest = trim_0x cs in if c == 48 && d == 120 then rest else c ∷ d ∷ cs
