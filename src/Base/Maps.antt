-- ===== src/Base/Maps.antt =====
-- A hash map with numeric keys, as a list of entries: `insert` replaces the value of a key that is
-- there, and adds a new key at the end.
use Prim.Native.Nat.{ℕ, suc, ◌≤◌}
use mathlib.Core.Path.{◌≡◌, refl, ap, sym, ◌∙◌}
use mathlib.Core.Logic.{inl, inr}
use mathlib.Core.Bool.{Bool, true, false}
use mathlib.Core.List.{List, [], ◌∷◌}
use mathlib.Core.Option.{Option, none, some}
use native.Mathlib.Omega.{arith}
use rust_p2p_usb.Base.Tests.{Bool-cases, ==_iff, ◌==◌, if◌then◌else◌, is_some}
use rust_p2p_usb.Base.Lists.{length}

abbrev pub Map {ℓ} : Type ℓ → Type ℓ
Map V = List (ℕ × V)

module _ {ℓ} {V : Type ℓ} (key : ℕ) where
  unfoldable pub lookup : Map V → Option V
  lookup [] = none
  lookup (entry ∷ rest) = if entry.0 == key then some entry.1 else lookup rest

  unfoldable pub insert : V → Map V → Map V
  insert new [] = (key, new) ∷ []
  insert new (entry ∷ rest) = if entry.0 == key then (key, new) ∷ rest else entry ∷ insert new rest

  unfoldable pub remove : Map V → Map V
  remove [] = []
  remove (entry ∷ rest) = if entry.0 == key then remove rest else entry ∷ remove rest

  abbrev pub contains_key : Map V → Bool
  contains_key entries = is_some (lookup entries)

module _ {ℓ} {V : Type ℓ} where
  -- What a key finds after a write, whichever key was written.
  pub lookup-insert :
      (written key : ℕ) (new : V) (entries : Map V)
      → lookup key (insert written new entries)
        ≡ (if written == key then some new else lookup key entries)
  unfolding lookup insert
  lookup-insert written key new [] = refl
  lookup-insert written key new (entry ∷ rest) = ground (arith, lookup-insert written key new rest)

  pub contains_key-insert :
      (key : ℕ) (new : V) (entries : Map V) → contains_key key (insert key new entries) ≡ true
  contains_key-insert key new entries = ground (arith, lookup-insert key key new entries)

  pub lookup-remove :
      (gone key : ℕ) (entries : Map V)
      → lookup key (remove gone entries) ≡ (if gone == key then none else lookup key entries)
  unfolding lookup remove
  lookup-remove gone key [] = ground arith
  lookup-remove gone key (entry ∷ rest) = ground (arith, lookup-remove gone key rest)

  pub length-insert :
      (key : ℕ) (new : V) (entries : Map V) → length (insert key new entries) ≤ suc (length entries)
  unfolding insert
  length-insert key new [] = omega arith
  length-insert key new (entry ∷ rest) = ground (arith, length-insert key new rest)

  pub length-insert_old :
      (key : ℕ) (new : V) (entries : Map V)
      → contains_key key entries ≡ true
      → length (insert key new entries) ≡ length entries
  unfolding insert lookup
  length-insert_old key new [] old = ground arith
  length-insert_old key new (entry ∷ rest) old = ground (arith, length-insert_old key new rest)

  pub length-remove : (key : ℕ) (entries : Map V) → length (remove key entries) ≤ length entries
  unfolding remove
  length-remove key [] = omega arith
  length-remove key (entry ∷ rest) = ground (arith, length-remove key rest)

  -- Every key stands once.
  abbrev pub KeysOnce : Map V → Type 0
  KeysOnce [] = Unit
  KeysOnce (entry ∷ rest) = (contains_key entry.0 rest ≡ false) × KeysOnce rest

  pub lookup_same_key : (n m : ℕ) (entries : Map V) → n ≡ m → lookup n entries ≡ lookup m entries
  lookup_same_key n m entries e = ap (λ k. lookup k entries) e

  pub insert-KeysOnce :
      (key : ℕ) (new : V) (entries : Map V) → KeysOnce entries → KeysOnce (insert key new entries)
  unfolding insert lookup
  insert-KeysOnce key new [] once = (refl, tt)
  insert-KeysOnce key new (entry ∷ rest) once = elim (Bool-cases (entry.0 == key)) [
    | inl same ↦
        let at_key = lookup_same_key key entry.0 rest (sym ((==_iff entry.0 key).0 same)) in
        rw same (ap is_some at_key ∙ once.0, once.1)
    | inr other ↦
        let found = lookup-insert key entry.0 new rest in
        rw other (ground (arith, found, once.0), insert-KeysOnce key new rest once.1)
  ]

  pub remove-KeysOnce :
      (key : ℕ) (entries : Map V) → KeysOnce entries → KeysOnce (remove key entries)
  unfolding remove
  remove-KeysOnce key [] once = tt
  remove-KeysOnce key (entry ∷ rest) once = elim (Bool-cases (entry.0 == key)) [
    | inl same ↦ rw same (remove-KeysOnce key rest once.1)
    | inr other ↦
        let found = lookup-remove key entry.0 rest in
        rw other (ground (arith, found, once.0), remove-KeysOnce key rest once.1)
  ]
