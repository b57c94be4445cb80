-- ===== src/Policy/Clock.antt =====
-- The time of day, the windows on it, and their text.
use rust_p2p_usb.Base.{
  ℕ, ◌+◌, ◌*◌, ◌-◌, ◌%◌, ◌/◌, ◌≤◌, ◌<◌, ◌≡◌, ◌↔◌, refl, ap, inl, inr, Bool, true, false, ◌&&◌,
  Bool-cases, Option-cases, Option, none, some, List, [], ◌∷◌, arith, all_below, all_below-So, ◌==◌,
  ℤ, pos, negsuc, split, split_from, trim, trim_start, parse, digits_from,
}
use rust_p2p_usb.Policy.{
  get_current_time_with_offset, parse_time, parse_time_window, time_in_range, minutes,
  minutes_until, time_text, expiry_of, nanos_per_minute, in_parsed, calculate_window_expiry,
  checked_time, time_of_parts, window_of_times, window_of_parts, in_some_window,
}

-- A time of day.
abbrev pub IsTime : ℕ × ℕ → Type 0
IsTime (h, m) = (h < 24) × (m < 60)

-- At any clock and offset, the hour and the minute are those of a time of day.
pub clock-IsTime : (secs : ℕ) (offset : ℤ) → IsTime (get_current_time_with_offset secs offset)
unfolding get_current_time_with_offset
clock-IsTime secs (pos h) = omega arith
clock-IsTime secs (negsuc h) = ground arith

-- Between two times of day: a time is in a window exactly if, counted in minutes from the window's
-- start around the clock, it comes before the window's end.
pub time_in_range-eq-true :
    (t s e : ℕ × ℕ)
    → IsTime t
    → IsTime s
    → IsTime e
    → (time_in_range t s e ≡ true)
      ↔ ((minutes t + 1440 - minutes s) % 1440 < (minutes e + 1440 - minutes s) % 1440)
unfolding time_in_range
time_in_range-eq-true (th, tm) (sh, sm) (eh, em) ht hs he = ground arith

checked-IsTime : (h m : Option ℕ) (t : ℕ × ℕ) → checked_time h m ≡ some t → IsTime t
checked-IsTime none m t e = cc
checked-IsTime (some h) none t e = cc
checked-IsTime (some h) (some m) (a, b) e = ground arith

parts-IsTime : (parts : List (List ℕ)) (t : ℕ × ℕ) → time_of_parts parts ≡ some t → IsTime t
parts-IsTime [] t e = cc
parts-IsTime (a ∷ []) t e = cc
parts-IsTime (a ∷ b ∷ []) t e = checked-IsTime (parse 255 a) (parse 255 b) t e
parts-IsTime (a ∷ b ∷ c ∷ rest) t e = cc

parse_time-IsTime : (text : List ℕ) (t : ℕ × ℕ) → parse_time text ≡ some t → IsTime t
unfolding parse_time
parse_time-IsTime text t e = parts-IsTime (split 58 (trim text)) t e

times-IsTime :
    (o q : Option (ℕ × ℕ)) (s e : ℕ × ℕ)
    → ((t : ℕ × ℕ) → o ≡ some t → IsTime t)
    → ((t : ℕ × ℕ) → q ≡ some t → IsTime t)
    → window_of_times o q ≡ some (s, e)
    → IsTime s × IsTime e
times-IsTime none q s e ho hq same = ground (arith, same)
times-IsTime (some a) none s e ho hq same = ground (arith, same)
times-IsTime (some a) (some b) s e ho hq same =
    let pa : a ≡ s = cc in let pb : b ≡ e = cc in (ho s (ap some pa), hq e (ap some pb))

window-IsTime :
    (parts : List (List ℕ)) (s e : ℕ × ℕ)
    → window_of_parts parts ≡ some (s, e)
    → IsTime s × IsTime e
window-IsTime [] s e same = ground (arith, same)
window-IsTime (a ∷ []) s e same = ground (arith, same)
window-IsTime (a ∷ b ∷ []) s e same =
    times-IsTime (parse_time a) (parse_time b) s e (parse_time-IsTime a) (parse_time-IsTime b) same
window-IsTime (a ∷ b ∷ c ∷ rest) s e same = ground (arith, same)

pub parse_time_window-IsTime :
    (w : List ℕ) (s e : ℕ × ℕ) → parse_time_window w ≡ some (s, e) → IsTime s × IsTime e
unfolding parse_time_window
parse_time_window-IsTime w s e same = window-IsTime (split 45 w) s e same

-- The time of day some minutes later.
abbrev pub later : ℕ × ℕ → ℕ → ℕ × ℕ
later now j = let t = (minutes now + j) % 1440 in (t / 60, t % 60)

in_range_until :
    (t s e : ℕ × ℕ) (j : ℕ)
    → IsTime t
    → IsTime s
    → IsTime e
    → time_in_range t s e ≡ true
    → j < minutes_until t e
    → time_in_range (later t j) s e ≡ true
unfolding time_in_range
in_range_until (th, tm) (sh, sm) (eh, em) j ht hs he inside soon = ground arith

minutes_until-le :
    (t s e : ℕ × ℕ) → IsTime t → IsTime e → time_in_range t s e ≡ true → minutes_until t e ≤ 1440
unfolding time_in_range
minutes_until-le (th, tm) (sh, sm) (eh, em) ht he inside = ground arith

-- A window that is open stays open as a part of the list.
in_some_window-cons :
    (now : ℕ × ℕ) (w : List ℕ) (ws : List (List ℕ))
    → in_some_window now ws ≡ true
    → in_some_window now (w ∷ ws) ≡ true
unfolding in_some_window
in_some_window-cons now w ws h = elim (Bool-cases (in_parsed now (parse_time_window w))) [
  | inl yes_now ↦ rw yes_now refl
  | inr not_now ↦ rw not_now h
]

in_some_window-head :
    (now s e : ℕ × ℕ) (w : List ℕ) (ws : List (List ℕ))
    → parse_time_window w ≡ some (s, e)
    → time_in_range now s e ≡ true
    → in_some_window now (w ∷ ws) ≡ true
unfolding in_some_window
in_some_window-head now s e w ws parsed inside = rw (parsed, inside) refl

expiry_of-in_some_window :
    (now : ℕ × ℕ) (here x j : ℕ) (ws : List (List ℕ))
    → IsTime now
    → expiry_of now here ws ≡ some x
    → here + j * nanos_per_minute < x
    → (in_some_window (later now j) ws ≡ true) × (x ≤ here + 1440 * nanos_per_minute)
unfolding expiry_of
expiry_of-in_some_window now here x j [] t found soon = ground (arith, found)
expiry_of-in_some_window now here x j (w ∷ ws) t found soon =
    elim (Option-cases (parse_time_window w)) [
      | inl unread ↦
          let h : expiry_of now here ws ≡ some x = rw (unread, expiry_of) at found in
          let ih = expiry_of-in_some_window now here x j ws t h soon in
          (in_some_window-cons (later now j) w ws ih.0, ih.1)
      | inr ((s, e), parsed) ↦ elim (Bool-cases (time_in_range now s e)) [
        | inr outside ↦
            let h : expiry_of now here ws ≡ some x = rw (parsed, outside, expiry_of) at found in
            let ih = expiry_of-in_some_window now here x j ws t h soon in
            (in_some_window-cons (later now j) w ws ih.0, ih.1)
        | inl inside ↦
            let h : some (here + minutes_until now e * nanos_per_minute) ≡ some x =
              rw (parsed, inside, expiry_of) at found in
            let is : IsTime s × IsTime e = parse_time_window-IsTime w s e parsed in
            let x_is : here + minutes_until now e * nanos_per_minute ≡ x = cc in
            let short : minutes_until now e ≤ 1440 = minutes_until-le now s e t is.1 inside in
            let before : j < minutes_until now e = omega (arith, x_is, soon) in
            let open_then = in_range_until now s e j t is.0 is.1 inside before in
            (
              in_some_window-head (later now j) s e w ws parsed open_then,
              omega (arith, x_is, short),
            )
      ]
    ]

-- A session that starts in a window: until the expiry that is noted for it, which is within a day,
-- a window is open at each whole number of minutes after the start, by the clock's minute.
pub calculate_window_expiry-in_some_window :
    (secs : ℕ) (offset : ℤ) (here x j : ℕ) (ws : List (List ℕ))
    → calculate_window_expiry secs offset here ws ≡ some x
    → here + j * nanos_per_minute < x
    → (in_some_window (later (get_current_time_with_offset secs offset) j) ws ≡ true)
      × (x ≤ here + 1440 * nanos_per_minute)
unfolding calculate_window_expiry
calculate_window_expiry-in_some_window secs offset here x j ws found soon =
    expiry_of-in_some_window (get_current_time_with_offset secs offset) here x j ws
      (clock-IsTime secs offset) found soon

-- That `t` was read.
abbrev is_read : ℕ × ℕ → Option (ℕ × ℕ) → Bool
is_read t none = false
is_read t (some q) = q.0 == t.0 && q.1 == t.1

is_read-lem : (t : ℕ × ℕ) (o : Option (ℕ × ℕ)) → is_read t o ≡ true → o ≡ some t
is_read-lem t none e = absurd (false_true e)
  where
    false_true : false ≡ true → ⊥
    false_true p = cc
is_read-lem (h, m) (some (a, b)) e = ground arith

every_time :
    all_below 24 (λ h. all_below 60 (λ m. is_read (h, m) (parse_time (time_text (h, m))))) ≡ true
unfolding all_below parse_time split split_from trim trim_start parse digits_from
every_time = refl

-- A time of day that is printed is read back.
pub parse_time-time_text : (h m : ℕ) → h < 24 → m < 60 → parse_time (time_text (h, m)) ≡ some (h, m)
parse_time-time_text h m hh hm =
    let row = all_below-So 24 _ h every_time hh in
    is_read-lem (h, m) (parse_time (time_text (h, m))) (all_below-So 60 _ m row hm)
