-- ===== src/Sharing/Queue.antt =====
-- The access queue: positions, and that no handle waits twice.

use rust_p2p_usb.Base.{
  ℕ, ◌<◌, ◌≡◌, refl, inl, inr, Bool, not, none, some, List, [], ◌∷◌, ◌++◌, arith, length, retain,
  All, ◌==◌, if◌then◌else◌, Bool-cases, Option-cases,
}
use rust_p2p_usb.Sharing.{QueueEntry, position}
use rust_p2p_usb.Sharing.Grants.{drop_expired, is_expired}

-- No handle stands in the queue twice.
abbrev pub Distinct : List QueueEntry → Type 0
Distinct [] = Unit
Distinct (e ∷ q) = (position e.handle q ≡ none) × Distinct q

pub position-append_last :
    (h : ℕ) (e : QueueEntry) (q : List QueueEntry)
    → position h q ≡ none
    → position h (q ++ e ∷ []) ≡ (if e.handle == h then some (length q) else none)
unfolding position
position-append_last h e [] p = refl
position-append_last h e (d ∷ q) p = ground (arith, position-append_last h e q)

pub position-append_same :
    (h : ℕ) (e : QueueEntry) (q : List QueueEntry) {i : ℕ}
    → position h q ≡ some i
    → position h (q ++ e ∷ []) ≡ some i
unfolding position
position-append_same h e [] p = ground arith
position-append_same h e (d ∷ q) p = elim (Option-cases (position h q)) [
  | inl missing ↦ ground arith
  | inr (j, found) ↦ ground (arith, position-append_same h e q found)
]

pub Distinct-append_last :
    (e : QueueEntry) (q : List QueueEntry)
    → position e.handle q ≡ none
    → Distinct q
    → Distinct (q ++ e ∷ [])
unfolding position
Distinct-append_last e [] p d = (refl, tt)
Distinct-append_last e (f ∷ q) p d =
    (ground (arith, position-append_last f.handle e q), Distinct-append_last e q (ground arith) d.1)

pub position-retain-none :
    (h : ℕ) (p : QueueEntry → Bool) (q : List QueueEntry)
    → position h q ≡ none
    → position h (retain p q) ≡ none
unfolding position
position-retain-none h p [] e = refl
position-retain-none h p (d ∷ q) e = ground (arith, position-retain-none h p q)

pub Distinct-retain :
    (p : QueueEntry → Bool) (q : List QueueEntry) → Distinct q → Distinct (retain p q)
Distinct-retain p [] d = tt
Distinct-retain p (e ∷ q) d =
    ground (arith, Distinct-retain p q d.1, position-retain-none e.handle p q d.0)

-- After the entries of a handle are removed, it has no position.
pub position-retain_other :
    (h : ℕ) (q : List QueueEntry) → position h (retain (λ e. not (e.handle == h)) q) ≡ none
unfolding position
position-retain_other h [] = refl
position-retain_other h (e ∷ q) = ground (arith, position-retain_other h q)

pub Distinct-drop_expired :
    (now : ℕ) (q : List QueueEntry) → Distinct q → Distinct (drop_expired now q)
unfolding drop_expired
Distinct-drop_expired now [] d = tt
Distinct-drop_expired now (e ∷ q) d = elim (Bool-cases (is_expired now e)) [
  | inl old ↦ rw old (Distinct-drop_expired now q d.1)
  | inr live ↦ rw live d
]

pub All-drop_expired {ℓ} :
    (P : QueueEntry → Type ℓ) (now : ℕ) (q : List QueueEntry) → All P q → All P (drop_expired now q)
unfolding drop_expired
All-drop_expired P now [] a = tt
All-drop_expired P now (e ∷ q) a = elim (Bool-cases (is_expired now e)) [
  | inl old ↦ rw old (All-drop_expired P now q a.1)
  | inr live ↦ rw live a
]

pub All-retain {ℓ} :
    (P : QueueEntry → Type ℓ) (p : QueueEntry → Bool) (q : List QueueEntry)
    → All P q
    → All P (retain p q)
All-retain P p [] a = tt
All-retain P p (e ∷ q) a = elim (Bool-cases (p e)) [
  | inl keep ↦ rw keep (a.0, All-retain P p q a.1)
  | inr drop ↦ rw drop (All-retain P p q a.1)
]

-- A position is that of an entry of the handle, and lies in the queue.
pub position-lt : (h : ℕ) (q : List QueueEntry) {i : ℕ} → position h q ≡ some i → i < length q
unfolding position
position-lt h [] e = ground arith
position-lt h (d ∷ q) e = elim (Option-cases (position h q)) [
  | inl missing ↦ ground arith
  | inr (j, found) ↦ ground (arith, position-lt h q found)
]
