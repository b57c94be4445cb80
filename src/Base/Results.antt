-- ===== src/Base/Results.antt =====
-- Results with an error, and the bind that a `?` of the source is.
use mathlib.Core.Path.{◌≡◌, refl}
use mathlib.Core.Logic.{◌⊎◌, inl, inr}
use mathlib.Core.Bool.{Bool, true, false}

pub data Result {ℓ} (A : Type ℓ) (E : Type 0) : Type ℓ where
  ok : A → Result A E
  err : E → Result A E

infixl 5 ◌>>=◌
abbrev pub ◌>>=◌ {ℓ κ} :
    {A : Type ℓ} {B : Type κ} {E : Type 0} → Result A E → (A → Result B E) → Result B E
ok value >>= next = next value
err error >>= next = err error

-- `if failed { return Err(error) }`, before the rest
abbrev pub fail_if {ℓ} : {A : Type ℓ} {E : Type 0} → Bool → E → Result A E → Result A E
fail_if true error rest = err error
fail_if false error rest = rest

pub Result-cases {ℓ} :
    {A : Type ℓ} {E : Type 0} (r : Result A E) → ((a : A) × (r ≡ ok a)) ⊎ ((e : E) × (r ≡ err e))
Result-cases (ok a) = inl (a, refl)
Result-cases (err e) = inr (e, refl)
