-- ===== src/Interrupt/Window.antt =====
-- What a client that fetches too seldom still gets from the server's buffer.
use rust_p2p_usb.Base.{
  ℕ, zero, suc, ◌-◌, ◌≤◌, ◌<◌, ◌≡◌, refl, sym, ap, ◌∙◌, List, [], ◌∷◌, ◌++◌, arith, length, tail,
  drop, map, length-append, leb, Bool-cases, inl, inr,
}
use mathlib.Core.List.{append_assoc, append-nil}
use rust_p2p_usb.Protocol.Integrity.{Hasher}
use rust_p2p_usb.Interrupt.{
  InterruptReport, EndpointBuffer, with_capacity, new_report, push, pop_all,
}

-- The reports of a poll loop: a time and the bytes that were read.
unfoldable pub push_all : Hasher → List (ℕ × List ℕ) → EndpointBuffer → EndpointBuffer
push_all h [] b = b
push_all h ((now_us, bytes) ∷ more) b = push_all h more (push h now_us bytes b).1

abbrev pub payloads : List InterruptReport → List (List ℕ)
payloads = map InterruptReport.bytes

-- The last `n` of a list.
abbrev pub last_of {ℓ} : {A : Type ℓ} → ℕ → List A → List A
last_of n xs = drop (length xs - n) xs

module _ {ℓ} {A : Type ℓ} where
  drop-append : (k : ℕ) (xs ys : List A) → k ≤ length xs → drop k (xs ++ ys) ≡ drop k xs ++ ys
  drop-append zero xs ys h = refl
  drop-append (suc k) [] ys h = absurd (omega arith)
  drop-append (suc k) (x ∷ xs) ys h = drop-append k xs ys (omega arith)

  drop-suc : (k : ℕ) (xs : List A) → drop (suc k) xs ≡ tail (drop k xs)
  drop-suc zero [] = refl
  drop-suc zero (x ∷ xs) = refl
  drop-suc (suc k) [] = refl
  drop-suc (suc k) (x ∷ xs) = drop-suc k xs

  length-drop : (k : ℕ) (xs : List A) → length (drop k xs) ≡ length xs - k
  length-drop zero xs = omega arith
  length-drop (suc k) [] = omega arith
  length-drop (suc k) (x ∷ xs) = omega (arith, length-drop k xs)

  last_of_full :
      (n : ℕ) (xs : List A) (x : A)
      → 1 ≤ n
      → n ≤ length xs
      → last_of n (xs ++ x ∷ []) ≡ tail (last_of n xs) ++ x ∷ []
  last_of_full n xs x some_room full =
      let count : length (xs ++ x ∷ []) - n ≡ suc (length xs - n) =
        omega (arith, length-append xs (x ∷ [])) in
      rw
        (
          count,
          drop-append (suc (length xs - n)) xs (x ∷ []) (omega arith),
          drop-suc (length xs - n) xs,
        )
        refl

  last_of_short :
      (n : ℕ) (xs : List A) (x : A)
      → length xs < n
      → last_of n (xs ++ x ∷ []) ≡ last_of n xs ++ x ∷ []
  last_of_short n xs x short =
      let count : length (xs ++ x ∷ []) - n ≡ 0 = omega (arith, length-append xs (x ∷ [])) in
      let none_gone : length xs - n ≡ 0 = omega arith in rw (count, none_gone) refl

payloads-tail : (rs : List InterruptReport) → payloads (tail rs) ≡ tail (payloads rs)
payloads-tail [] = refl
payloads-tail (r ∷ rs) = refl

payloads-append : (rs qs : List InterruptReport) → payloads (rs ++ qs) ≡ payloads rs ++ payloads qs
payloads-append [] qs = refl
payloads-append (r ∷ rs) qs = ap (◌∷◌ r.bytes) (payloads-append rs qs)

length-payloads : (rs : List InterruptReport) → length (payloads rs) ≡ length rs
length-payloads [] = refl
length-payloads (r ∷ rs) = ap suc (length-payloads rs)

push-payloads :
    (h : Hasher) (now_us : ℕ) (bytes : List ℕ) (given : List (List ℕ)) (b : EndpointBuffer)
    → 1 ≤ b.max_size
    → payloads b.reports ≡ last_of b.max_size given
    → payloads (push h now_us bytes b).1.reports ≡ last_of b.max_size (given ++ bytes ∷ [])
unfolding push new_report
push-payloads h now_us bytes given b some_room same =
    let n = b.max_size in
    let report : InterruptReport = new_report h now_us b.next_seq b.endpoint bytes in
    let stored : length b.reports ≡ length given - (length given - n) =
      sym (length-payloads b.reports) ∙ (ap length same ∙ length-drop (length given - n) given) in
    elim (Bool-cases (leb n (length b.reports))) [
      | inl full ↦
          rw (full, payloads-append (tail b.reports) (report ∷ []), payloads-tail b.reports, same)
            (sym (last_of_full n given bytes some_room (ground arith)))
      | inr short ↦
          rw (short, payloads-append b.reports (report ∷ []), same)
            (sym (last_of_short n given bytes (ground arith)))
    ]

push_all-payloads :
    (h : Hasher) (polls : List (ℕ × List ℕ)) (given : List (List ℕ)) (b : EndpointBuffer)
    → 1 ≤ b.max_size
    → payloads b.reports ≡ last_of b.max_size given
    → payloads (push_all h polls b).reports ≡ last_of b.max_size (given ++ map (λ p. p.1) polls)
unfolding push_all push
push_all-payloads h [] given b some_room same = rw (append-nil given) same
push_all-payloads h ((now_us, bytes) ∷ polls) given b some_room same =
    rw (← append_assoc given (bytes ∷ []) (map (λ p. p.1) polls)) (
      push_all-payloads h polls (given ++ bytes ∷ []) (push h now_us bytes b).1 some_room
        (push-payloads h now_us bytes given b some_room same))

-- A new buffer of at least one place that was given reports, and is then emptied, hands out the
-- last of them in their order, as many as there are places.
pub pop_all-push_all :
    (h : Hasher) (polls : List (ℕ × List ℕ)) (endpoint capacity : ℕ)
    → 1 ≤ capacity
    → payloads (pop_all (push_all h polls (with_capacity endpoint capacity))).0
      ≡ last_of capacity (map (λ p. p.1) polls)
unfolding pop_all with_capacity
pop_all-push_all h polls endpoint capacity some_room =
    let none_before : 0 - capacity ≡ 0 = omega arith in
    push_all-payloads h polls [] (with_capacity endpoint capacity) some_room (rw none_before refl)
