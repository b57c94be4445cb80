-- ===== src/Policy/Choice.antt =====
-- Which policy is the one for a device: an independent description of `find_matching_policy` with
-- `find_default_policy` after it.
use rust_p2p_usb.Base.{
  ℕ, ◌≡◌, ◌↔◌, ◌⊎◌, refl, ap, sym, ◌∙◌, inl, inr, Bool, true, false, Bool-cases, Option-cases, none,
  some, List, [], ◌∷◌, arith, ==_iff, codes, same_text, to_lowercase,
}
use rust_p2p_usb.Protocol.Types.{DeviceInfo}
use rust_p2p_usb.Policy.{
  DevicePolicy, PolicyEngine, find, find_matching_policy, find_default_policy, policy_for,
  exact_filter, vid_wildcard, filter_matches_exact,
}

pub not_true : (b : Bool) → (b ≡ true → ⊥) → b ≡ false
not_true true h = absurd (h refl)
not_true false h = refl

-- The first policy of a list with a property, and that none has it.
abbrev pub First : (DevicePolicy → Type 0) → List DevicePolicy → DevicePolicy → Type 0
First P [] p = ⊥
First P (q ∷ qs) p = (P q × (q ≡ p)) ⊎ ((P q → ⊥) × First P qs p)

abbrev pub NoneOf : (DevicePolicy → Type 0) → List DevicePolicy → Type 0
NoneOf P [] = Unit
NoneOf P (q ∷ qs) = (P q → ⊥) × NoneOf P qs

-- A policy's filter: the device's two ids, in whatever case; its vendor's id with the wildcard; or
-- the wildcard alone.
abbrev pub NamesIds : DeviceInfo → DevicePolicy → Type 0
NamesIds info p = to_lowercase p.device_filter ≡ to_lowercase (exact_filter info)

abbrev pub NamesVendor : DeviceInfo → DevicePolicy → Type 0
NamesVendor info p = p.device_filter ≡ vid_wildcard info

abbrev pub NamesAll : DevicePolicy → Type 0
NamesAll p = p.device_filter ≡ codes "*"

-- The policy for a device, by the first rule that finds one.
pub data IsFor (info : DeviceInfo) (ps : List DevicePolicy) (p : DevicePolicy) : Type 0 where
  by_ids : First (NamesIds info) ps p → IsFor info ps p
  by_vendor : NoneOf (NamesIds info) ps → First (NamesVendor info) ps p → IsFor info ps p
  by_default :
      NoneOf (NamesIds info) ps
      → NoneOf (NamesVendor info) ps
      → First NamesAll ps p
      → IsFor info ps p

same_text-eq-true : (a b : List ℕ) → (same_text a b ≡ true) ↔ (a ≡ b)
unfolding same_text
same_text-eq-true [] [] = (λ h. refl, λ h. refl)
same_text-eq-true [] (d ∷ ds) = (λ h. cc, λ h. cc)
same_text-eq-true (c ∷ cs) [] = (λ h. cc, λ h. cc)
same_text-eq-true (c ∷ cs) (d ∷ ds) =
    let ih = same_text-eq-true cs ds in let this = ==_iff c d in ground (arith, ih, this)

exact-eq-true :
    (info : DeviceInfo) (p : DevicePolicy)
    → (filter_matches_exact p.device_filter (exact_filter info) ≡ true) ↔ NamesIds info p
exact-eq-true info p =
    let star = same_text-eq-true p.device_filter (codes "*") in
    let same =
      same_text-eq-true (to_lowercase p.device_filter) (to_lowercase (exact_filter info)) in
    elim (Bool-cases (same_text p.device_filter (codes "*"))) [
      | inr no_star ↦ rw no_star same
      | inl a_star ↦
          rw a_star (λ h. cc, λ h. absurd (not_star (ap to_lowercase (sym (star.0 a_star)) ∙ h)))
    ]
  where
    not_star : to_lowercase (codes "*") ≡ to_lowercase (exact_filter info) → ⊥
    not_star h = cc

module _ (f : DevicePolicy → Bool) (P : DevicePolicy → Type 0)
    (means : (p : DevicePolicy) → (f p ≡ true) ↔ P p) where
  find-First : (ps : List DevicePolicy) (p : DevicePolicy) → find f ps ≡ some p → First P ps p
  unfolding find
  find-First [] p h = cc
  find-First (q ∷ qs) p h = elim (Bool-cases (f q)) [
    | inl picked ↦ inl ((means q).0 picked, ground (arith, h))
    | inr skipped ↦
        inr (λ y. differ ((means q).1 y) skipped, find-First qs p (rw (skipped, find) at h))
  ]
    where
      differ : {b : Bool} → b ≡ true → b ≡ false → ⊥
      differ t n = cc

  find-NoneOf : (ps : List DevicePolicy) → find f ps ≡ none → NoneOf P ps
  unfolding find
  find-NoneOf [] h = tt
  find-NoneOf (q ∷ qs) h = elim (Bool-cases (f q)) [
    | inl picked ↦ absurd (differ (rw (picked, find) at h))
    | inr skipped ↦ (λ y. unequal ((means q).1 y) skipped, find-NoneOf qs (rw (skipped, find) at h))
  ]
    where
      differ : some q ≡ none → ⊥
      differ e = cc

      unequal : {b : Bool} → b ≡ true → b ≡ false → ⊥
      unequal t n = cc

  First-find : (ps : List DevicePolicy) (p : DevicePolicy) → First P ps p → find f ps ≡ some p
  unfolding find
  First-find [] p h = absurd h
  First-find (q ∷ qs) p (inl (picked, same)) = rw ((means q).1 picked, find) (ap some same)
  First-find (q ∷ qs) p (inr (skipped, rest)) =
      rw (not_true _ (λ y. skipped ((means q).0 y)), find) (First-find qs p rest)

  NoneOf-find : (ps : List DevicePolicy) → NoneOf P ps → find f ps ≡ none
  unfolding find
  NoneOf-find [] h = refl
  NoneOf-find (q ∷ qs) (skipped, rest) =
      rw (not_true _ (λ y. skipped ((means q).0 y)), find) (NoneOf-find qs rest)

-- The policy that the code finds is the one for the device.
pub policy_for-IsFor :
    (e : PolicyEngine) (info : DeviceInfo) (p : DevicePolicy)
    → policy_for e info ≡ some p
    → IsFor info e.policies p
unfolding find_matching_policy find_default_policy
policy_for-IsFor e info p h =
    let ids = exact-eq-true info in
    let vendor = λ (q : DevicePolicy). same_text-eq-true q.device_filter (vid_wildcard info) in
    let all = λ (q : DevicePolicy). same_text-eq-true q.device_filter (codes "*") in
    let by_id = find (λ q. filter_matches_exact q.device_filter (exact_filter info)) e.policies in
    let by_vid = find (λ q. same_text q.device_filter (vid_wildcard info)) e.policies in
    elim (Option-cases by_id) [
      | inr (q, found) ↦
          by_ids (find-First _ (NamesIds info) ids e.policies p (found ∙ (rw found at h)))
      | inl no_id ↦
          let none_id = find-NoneOf _ (NamesIds info) ids e.policies no_id in
          elim (Option-cases by_vid) [
            | inr (q, found) ↦ by_vendor none_id (
                find-First _ (NamesVendor info) vendor e.policies p
                  (found ∙ (rw (no_id, found) at h)))
            | inl no_vid ↦
                by_default none_id (find-NoneOf _ (NamesVendor info) vendor e.policies no_vid)
                  (find-First _ NamesAll all e.policies p (rw (no_id, no_vid) at h))
          ]
    ]

pub IsFor-policy_for :
    (e : PolicyEngine) (info : DeviceInfo) (p : DevicePolicy)
    → IsFor info e.policies p
    → policy_for e info ≡ some p
unfolding find_matching_policy find_default_policy
IsFor-policy_for e info p (by_ids f) =
    rw (First-find _ (NamesIds info) (exact-eq-true info) e.policies p f) refl
IsFor-policy_for e info p (by_vendor n f) =
    rw
      (
        NoneOf-find _ (NamesIds info) (exact-eq-true info) e.policies n,
        First-find _ (NamesVendor info) (λ q. same_text-eq-true q.device_filter (vid_wildcard info))
            e.policies p f,
      )
      refl
IsFor-policy_for e info p (by_default n m f) =
    rw
      (
        NoneOf-find _ (NamesIds info) (exact-eq-true info) e.policies n,
        NoneOf-find _ (NamesVendor info)
            (λ q. same_text-eq-true q.device_filter (vid_wildcard info)) e.policies m,
        First-find _ NamesAll (λ q. same_text-eq-true q.device_filter (codes "*")) e.policies p f,
      )
      refl
