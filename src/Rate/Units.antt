-- ===== src/Rate/Units.antt =====
-- Rates in text form, `parse_bandwidth` and `BandwidthLimit::from_str`: a number with a unit, of
-- bits or bytes per second. A product is a `u64` that wraps, as it does in a release build.
use Prim.Native.Nat.{◌*◌, ◌/◌, ◌%◌, ◌^◌}
use mathlib.Core.List.{reverse}
use rust_p2p_usb.Base.{
  ℕ, Option, none, some, List, [], ◌∷◌, codes, trim, to_lowercase, parse, ◌==◌, if◌then◌else◌, ◌-◌,
}
use rust_p2p_usb.Rate.{BandwidthLimit, new_limit}

-- What follows a prefix.
unfoldable pub after_prefix : List ℕ → List ℕ → Option (List ℕ)
after_prefix [] cs = some cs
after_prefix (p ∷ ps) [] = none
after_prefix (p ∷ ps) (c ∷ cs) = let rest = after_prefix ps cs in if p == c then rest else none

abbrev pub reversed : Option (List ℕ) → Option (List ℕ)
reversed none = none
reversed (some cs) = some (reverse cs)

unfoldable pub strip_suffix : List ℕ → List ℕ → Option (List ℕ)
unfolding after_prefix
strip_suffix suffix text = reversed (after_prefix (reverse suffix) (reverse text))

abbrev pub parse_u64 : List ℕ → Option ℕ
parse_u64 text = parse (2 ^ 64 - 1) text

-- A unit, by its suffix, and what its number is multiplied with and divided by.
pub record RateUnit : Type 0 where
  pub suffix : List ℕ
  pub times : ℕ
  pub per : ℕ

-- In the order in which they are tried.
abbrev pub units : List RateUnit
units =
    record { suffix = codes "gbps"; times = 1000000000; per = 8 }
    ∷ record { suffix = codes "mbps"; times = 1000000; per = 8 }
    ∷ record { suffix = codes "kbps"; times = 1000; per = 8 }
    ∷ record { suffix = codes "bps"; times = 1; per = 8 }
    ∷ record { suffix = codes "gb/s"; times = 1000000000; per = 1 }
    ∷ record { suffix = codes "mb/s"; times = 1000000; per = 1 }
    ∷ record { suffix = codes "kb/s"; times = 1000; per = 1 }
    ∷ record { suffix = codes "b/s"; times = 1; per = 1 }
    ∷ []

abbrev pub scaled : RateUnit → Option ℕ → Option ℕ
scaled unit none = none
scaled unit (some n) = some (n * unit.times % 2 ^ 64 / unit.per)

unfoldable pub parse_in : List RateUnit → List ℕ → Option ℕ
unfolding strip_suffix
parse_in [] text = parse_u64 text
parse_in (unit ∷ rest) text =
    let others = parse_in rest text in
    elim (strip_suffix unit.suffix text) [
      | some number ↦ scaled unit (parse_u64 (trim number))
      | none ↦ others
    ]

unfoldable pub parse_bandwidth : List ℕ → Option ℕ
unfolding parse_in
parse_bandwidth text = parse_in units (to_lowercase (trim text))

abbrev pub limit_of : Option ℕ → Option BandwidthLimit
limit_of none = none
limit_of (some bytes_per_second) = some (new_limit bytes_per_second none)

unfoldable pub from_str : List ℕ → Option BandwidthLimit
unfolding parse_bandwidth
from_str text = limit_of (parse_bandwidth text)
