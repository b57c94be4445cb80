-- ===== src/Policy/Access.antt =====
-- Who is let in: an independent description of `check_access`.
use rust_p2p_usb.Base.{
  ℕ, ◌+◌, ◌-◌, ◌%◌, ◌<◌, ◌≡◌, ◌↔◌, ◌⊎◌, refl, sym, ◌∙◌, inl, inr, Bool, true, false, not,
  Option-cases, Option, none, some, List, [], ◌∷◌, arith, ==_iff, if◌then◌else◌, ℤ, codes,
  same_text, to_lowercase, ◌*◌, ◌/◌, pos, negsuc,
}
use rust_p2p_usb.Protocol.Types.{DeviceInfo}
use rust_p2p_usb.Policy.Choice.{not_true, IsFor, policy_for-IsFor, IsFor-policy_for}
use rust_p2p_usb.Policy.Clock.{
  IsTime, clock-IsTime, parse_time_window-IsTime, time_in_range-eq-true,
}
use rust_p2p_usb.Policy.{
  minutes, find, DevicePolicy, PolicyEngine, PolicyDecision, allow, deny, any, find_matching_policy,
  find_default_policy, is_client_allowed, has_class, class_restricted, is_within_time_window,
  evaluate_windows, evaluate_policy, check_access, without_policy, in_some_window, in_parsed,
  get_current_time_with_offset, parse_time_window, policy_for, PolicyDenialReason,
  outside_time_window, time_text, client_not_allowed, device_class_restricted,
}

-- Some member of a list has a property.
abbrev pub SomeOf {ℓ} : {A : Type ℓ} → (A → Type 0) → List A → Type 0
SomeOf P [] = ⊥
SomeOf P (x ∷ xs) = P x ⊎ SomeOf P xs

any-eq-true {ℓ} :
    {A : Type ℓ} (p : A → Bool) (xs : List A) → (any p xs ≡ true) ↔ SomeOf (λ x. p x ≡ true) xs
unfolding any
any-eq-true p [] = (λ h. cc, λ h. absurd h)
any-eq-true p (x ∷ xs) = let ih = any-eq-true p xs in ground (arith, ih)

-- The list of clients has the wildcard, or the client in whatever case.
abbrev pub IsListed : List ℕ → List (List ℕ) → Type 0
IsListed client clients =
    SomeOf (λ c. same_text c (codes "*") ≡ true) clients
    ⊎ SomeOf (λ c. same_text (to_lowercase c) (to_lowercase client) ≡ true) clients

is_client_allowed-eq-true :
    (p : DevicePolicy) (client : List ℕ)
    → (is_client_allowed p client ≡ true) ↔ IsListed client p.allowed_clients
unfolding is_client_allowed
is_client_allowed-eq-true p client =
    let star = any-eq-true (λ c. same_text c (codes "*")) p.allowed_clients in
    let own =
      any-eq-true (λ c. same_text (to_lowercase c) (to_lowercase client)) p.allowed_clients in
    ground (arith, star, own)

-- The class is one of the restricted ones.
abbrev pub IsRestricted : ℕ → Option (List ℕ) → Type 0
IsRestricted class none = ⊥
IsRestricted class (some classes) = SomeOf (λ c. c ≡ class) classes

has_class-eq-true :
    (class : ℕ) (classes : List ℕ)
    → (has_class class classes ≡ true) ↔ SomeOf (λ c. c ≡ class) classes
unfolding has_class
has_class-eq-true class [] = (λ h. cc, λ h. absurd h)
has_class-eq-true class (c ∷ cs) =
    let ih = has_class-eq-true class cs in let this = ==_iff c class in ground (arith, ih, this)

-- A window contains a time of day: counted in minutes from the window's start around the clock, the
-- time comes before the window's end.
abbrev pub Contains : ℕ → Option ((ℕ × ℕ) × (ℕ × ℕ)) → Type 0
Contains minute none = ⊥
Contains minute (some (start, end)) =
    (minute + 1440 - minutes start) % 1440 < (minutes end + 1440 - minutes start) % 1440

if_true : (b c : Bool) → ((if b then true else c) ≡ true) ↔ ((b ≡ true) ⊎ (c ≡ true))
if_true true c = (λ h. inl refl, λ h. refl)
if_true false c = ground arith

two_ways : {P Q R S : Type 0} → P ⊎ Q → (P → R) → (Q → S) → R ⊎ S
two_ways (inl p) f g = inl (f p)
two_ways (inr q) f g = inr (g q)

allowed_if :
    (b : Bool) (r : PolicyDenialReason) → ((if b then allow else deny r) ≡ allow) ↔ (b ≡ true)
allowed_if true r = (λ h. refl, λ h. refl)
allowed_if false r = (λ h. cc, λ h. cc)

in_parsed-eq-true :
    (now : ℕ × ℕ) (w : List ℕ)
    → IsTime now
    → (in_parsed now (parse_time_window w) ≡ true) ↔ Contains (minutes now) (parse_time_window w)
in_parsed-eq-true now w t = elim (Option-cases (parse_time_window w)) [
  | inl unread ↦ rw unread (λ h. cc, λ h. absurd h)
  | inr ((start, end), parsed) ↦
      let is = parse_time_window-IsTime w start end parsed in
      rw parsed (time_in_range-eq-true now start end t is.0 is.1)
]

in_some_window-eq-true :
    (now : ℕ × ℕ) (ws : List (List ℕ))
    → IsTime now
    → (in_some_window now ws ≡ true) ↔ SomeOf (λ w. Contains (minutes now) (parse_time_window w)) ws
unfolding in_some_window
in_some_window-eq-true now [] t = (λ h. cc, λ h. absurd h)
in_some_window-eq-true now (w ∷ ws) t =
    let ih = in_some_window-eq-true now ws t in
    let this = in_parsed-eq-true now w t in
    let either = if_true (in_parsed now (parse_time_window w)) (in_some_window now ws) in
    (λ h. two_ways (either.0 h) this.0 ih.0, λ h. either.1 (two_ways h this.1 ih.1))

-- No window restricts the time, or one of them contains it.
abbrev pub IsOpen : ℕ → Option (List (List ℕ)) → Type 0
IsOpen minute none = Unit
IsOpen minute (some []) = Unit
IsOpen minute (some (w ∷ ws)) = SomeOf (λ v. Contains minute (parse_time_window v)) (w ∷ ws)

evaluate_windows-eq-allow :
    (secs : ℕ) (offset : ℤ) (o : Option (List (List ℕ)))
    → (evaluate_windows secs offset o ≡ allow)
      ↔ IsOpen (minutes (get_current_time_with_offset secs offset)) o
unfolding is_within_time_window
evaluate_windows-eq-allow secs offset none = (λ h. tt, λ h. refl)
evaluate_windows-eq-allow secs offset (some []) = (λ h. tt, λ h. refl)
evaluate_windows-eq-allow secs offset (some (w ∷ ws)) =
    let now = get_current_time_with_offset secs offset in
    let inside = in_some_window-eq-true now (w ∷ ws) (clock-IsTime secs offset) in
    let allowed =
      allowed_if (in_some_window now (w ∷ ws)) (outside_time_window (time_text now) (w ∷ ws)) in
    (λ h. inside.0 (allowed.0 h), λ h. allowed.1 (inside.1 h))

-- What a policy asks of a client, of a class of device and of the time of day.
pub record Permits (p : DevicePolicy) (client : List ℕ) (class minute : ℕ) : Type 0 where
  pub listed : IsListed client p.allowed_clients
  pub free_class : IsRestricted class p.restricted_device_classes → ⊥
  pub open_now : IsOpen minute p.time_windows

class_restricted-eq-true :
    (class : ℕ) (o : Option (List ℕ)) → (class_restricted class o ≡ true) ↔ IsRestricted class o
class_restricted-eq-true class none = (λ h. cc, λ h. absurd h)
class_restricted-eq-true class (some classes) = has_class-eq-true class classes

-- Three guards in turn.
guards-eq-allow :
    (a b : Bool) (r s : PolicyDenialReason) (d : PolicyDecision)
    → ((if not a then deny r else if b then deny s else d) ≡ allow)
      ↔ ((a ≡ true) × (b ≡ false) × (d ≡ allow))
guards-eq-allow false b r s d = (λ h. cc, λ h. cc)
guards-eq-allow true true r s d = (λ h. cc, λ h. cc)
guards-eq-allow true false r s d = (λ h. (refl, refl, h), λ h. h.2)

evaluate_policy-eq-allow :
    (secs : ℕ) (e : PolicyEngine) (p : DevicePolicy) (client : List ℕ) (info : DeviceInfo)
    → (evaluate_policy secs e p client info ≡ allow)
      ↔ Permits p client info.class
          (minutes (get_current_time_with_offset secs e.timezone_offset_hours))
unfolding evaluate_policy
evaluate_policy-eq-allow secs e p client info =
    let offset = e.timezone_offset_hours in
    let listed = is_client_allowed-eq-true p client in
    let classes = class_restricted-eq-true info.class p.restricted_device_classes in
    let times = evaluate_windows-eq-allow secs offset p.time_windows in
    let guards =
      guards-eq-allow (is_client_allowed p client)
        (class_restricted info.class p.restricted_device_classes) client_not_allowed
        (device_class_restricted info.class) (evaluate_windows secs offset p.time_windows) in
    (
      λ h.
          let g = guards.0 h in
          record {
            listed = listed.0 g.0;
            free_class = λ r. true_false (sym (classes.1 r) ∙ g.1);
            open_now = times.0 g.2;
          },
      λ v.
          guards.1
            (listed.1 v.listed, not_true _ (λ r. v.free_class (classes.0 r)), times.1 v.open_now),
    )
  where
    true_false : true ≡ false → ⊥
    true_false p = cc

without_policy-eq-allow : (ps : List DevicePolicy) → (without_policy ps ≡ allow) ↔ (ps ≡ [])
without_policy-eq-allow [] = (λ h. refl, λ h. refl)
without_policy-eq-allow (p ∷ ps) = (λ h. cc, λ h. cc)

-- The decision over the policy for the device.
abbrev decided : ℕ → PolicyEngine → List ℕ → DeviceInfo → Option DevicePolicy → PolicyDecision
decided secs e client info none = without_policy e.policies
decided secs e client info (some p) = evaluate_policy secs e p client info

check_access_lem :
    (secs : ℕ) (e : PolicyEngine) (client : List ℕ) (info : DeviceInfo)
    → check_access secs e client info ≡ decided secs e client info (policy_for e info)
unfolding check_access
check_access_lem secs e client info = elim (Option-cases (find_matching_policy e.policies info)) [
  | inr (p, found) ↦ rw (found, check_access) refl
  | inl none_matching ↦ elim (Option-cases (find_default_policy e.policies)) [
    | inr (p, found) ↦ rw (none_matching, found, check_access) refl
    | inl none_default ↦ rw (none_matching, none_default, check_access) refl
  ]
]

-- There are no policies, or the one for the device permits the access.
abbrev pub Admits : List DevicePolicy → DeviceInfo → List ℕ → ℕ → Type 0
Admits policies info client minute =
    (policies ≡ [])
    ⊎ ((p : DevicePolicy) × IsFor info policies p × Permits p client info.class minute)

-- The minute of the day, counted from midnight, some seconds after the epoch in a time zone.
abbrev pub minute_of_day : ℕ → ℤ → ℕ
minute_of_day secs (pos hours) = (secs / 60 + 60 * hours) % 1440
minute_of_day secs (negsuc hours) = (secs / 60 + (1440 - 60) * (hours + 1)) % 1440

minute_of_day_lem :
    (secs : ℕ) (offset : ℤ)
    → minutes (get_current_time_with_offset secs offset) ≡ minute_of_day secs offset
unfolding get_current_time_with_offset
minute_of_day_lem secs (pos hours) = omega arith
minute_of_day_lem secs (negsuc hours) = ground arith

no_policies : (e : PolicyEngine) (info : DeviceInfo) → e.policies ≡ [] → policy_for e info ≡ none
unfolding find_matching_policy find_default_policy find
no_policies e info empty = rw empty refl

-- Access is allowed exactly if there are no policies, or the policy for the device lists the
-- client (in whatever case) or the wildcard, does not restrict the class of the device, and
-- restricts no time or has a window that contains the minute of the day in the time zone, around
-- midnight too. The policy for a device is the first whose filter is its two ids (in whatever
-- case); if there is none, the first whose filter is its vendor's id (in lower case) with the
-- wildcard; if there is none, the first whose filter is the wildcard alone.
pub check_access-eq-allow :
    (secs : ℕ) (e : PolicyEngine) (client : List ℕ) (info : DeviceInfo)
    → (check_access secs e client info ≡ allow)
      ↔ Admits e.policies info client (minute_of_day secs e.timezone_offset_hours)
check_access-eq-allow secs e client info =
    let by_policy = check_access_lem secs e client info in
    let by_minute : (p : DevicePolicy)
        → (evaluate_policy secs e p client info ≡ allow)
          ↔ Permits p client info.class (minute_of_day secs e.timezone_offset_hours) =
      λ p.
        rw (minute_of_day_lem secs e.timezone_offset_hours) at
          (evaluate_policy-eq-allow secs e p client info) in
    (
      λ h. elim (Option-cases (policy_for e info)) [
        | inl missing ↦ inl ((without_policy-eq-allow e.policies).0 (rw (by_policy, missing) at h))
        | inr (p, found) ↦
            inr (p, policy_for-IsFor e info p found, (by_minute p).0 (rw (by_policy, found) at h))
      ],
      λ v. elim v [
        | inl empty ↦
            rw (by_policy, no_policies e info empty) ((without_policy-eq-allow e.policies).1 empty)
        | inr (p, is_for, permits) ↦
            rw (by_policy, IsFor-policy_for e info p is_for) ((by_minute p).1 permits)
      ],
    )

-- An empty list of clients lets no client in, although there is a policy for the device.
pub check_access_no_clients :
    (secs : ℕ) (e : PolicyEngine) (client : List ℕ) (info : DeviceInfo) (p : DevicePolicy)
    → policy_for e info ≡ some p
    → p.allowed_clients ≡ []
    → check_access secs e client info ≡ deny client_not_allowed
unfolding evaluate_policy is_client_allowed any
check_access_no_clients secs e client info p for_it empty =
    rw (check_access_lem secs e client info, for_it) (rw empty refl)
