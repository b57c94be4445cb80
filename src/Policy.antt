-- ===== src/Policy.antt =====
-- Who may use a device and when: `PolicyEngine` of crates/server/src/policy.rs. A text is the list
-- of its code points. The wall clock is a number of seconds since the epoch and an instant is a
-- number of nanoseconds, each an argument of the calls that read it.
pub mod Clock
pub mod Choice
pub mod Access
pub mod Sessions
mod Tests
use rust_p2p_usb.Base.{
  ℕ, ◌+◌, ◌*◌, ◌-◌, ◌/◌, ◌%◌, Bool, true, false, not, ◌&&◌, ◌||◌, Option, none, some, List, [], ◌∷◌,
  ◌++◌, Map, length, lookup, insert, remove, ltb, leb, ◌==◌, if◌then◌else◌, ℤ, pos, negsuc, codes,
  same_text, to_lowercase, trim, split, parse, two_digits, four_hex,
}
use rust_p2p_usb.Protocol.Types.{DeviceInfo, SharingMode}

pub record DevicePolicy : Type 0 where
  pub device_filter : List ℕ
  pub allowed_clients : List (List ℕ)
  pub description : Option (List ℕ)
  pub sharing_mode : SharingMode
  pub lock_timeout_secs : ℕ
  pub max_concurrent_clients : ℕ
  pub time_windows : Option (List (List ℕ))
  pub max_session_duration : Option ℕ
  pub restricted_device_classes : Option (List ℕ)

pub data PolicyDenialReason : Type 0 where
  client_not_allowed : PolicyDenialReason
  outside_time_window :
      (current_time : List ℕ) → (allowed_windows : List (List ℕ)) → PolicyDenialReason
  session_duration_exceeded : (max_duration : ℕ) → PolicyDenialReason
  device_class_restricted : (device_class : ℕ) → PolicyDenialReason
  no_matching_policy : PolicyDenialReason

pub data PolicyDecision : Type 0 where
  allow : PolicyDecision
  deny : PolicyDenialReason → PolicyDecision

pub record ActiveSession : Type 0 where
  pub handle : ℕ
  pub device_id : ℕ
  pub client_id : ℕ
  pub started_at : ℕ
  pub max_duration : Option ℕ
  pub window_expires_at : Option ℕ

pub data SessionExpiredReason : Type 0 where
  duration_limit_reached time_window_expired : SessionExpiredReason

pub record SessionExpiredEvent : Type 0 where
  pub handle : ℕ
  pub device_id : ℕ
  pub client_id : ℕ
  pub reason : SessionExpiredReason

-- `notifies`: a channel for expired sessions is there.
pub record PolicyEngine : Type 0 where
  pub policies : List DevicePolicy
  pub active_sessions : Map ActiveSession
  pub notifies : Bool
  pub timezone_offset_hours : ℤ

unfoldable pub new : List DevicePolicy → PolicyEngine
new policies = record {
  policies = policies;
  active_sessions = [];
  notifies = false;
  timezone_offset_hours = pos 0;
}

-- `iter().find(...)`
unfoldable pub find : (DevicePolicy → Bool) → List DevicePolicy → Option DevicePolicy
find p [] = none
find p (x ∷ xs) = if p x then some x else find p xs

abbrev pub first_of : Option DevicePolicy → Option DevicePolicy → Option DevicePolicy
first_of none o = o
first_of (some p) o = some p

abbrev pub filter_matches_exact : List ℕ → List ℕ → Bool
filter_matches_exact filter device =
    if same_text filter (codes "*")
    then false
    else same_text (to_lowercase filter) (to_lowercase device)

abbrev pub exact_filter : DeviceInfo → List ℕ
exact_filter info = four_hex info.vendor_id ++ 58 ∷ four_hex info.product_id

abbrev pub vid_wildcard : DeviceInfo → List ℕ
vid_wildcard info = four_hex info.vendor_id ++ codes ":*"

unfoldable pub find_matching_policy : List DevicePolicy → DeviceInfo → Option DevicePolicy
unfolding find
find_matching_policy policies info =
    first_of (find (λ p. filter_matches_exact p.device_filter (exact_filter info)) policies)
      (find (λ p. same_text p.device_filter (vid_wildcard info)) policies)

unfoldable pub find_default_policy : List DevicePolicy → Option DevicePolicy
unfolding find
find_default_policy policies = find (λ p. same_text p.device_filter (codes "*")) policies

-- `iter().any(...)`
unfoldable pub any {ℓ} : {A : Type ℓ} → (A → Bool) → List A → Bool
any p [] = false
any p (x ∷ xs) = p x || any p xs

unfoldable pub is_client_allowed : DevicePolicy → List ℕ → Bool
unfolding any
is_client_allowed policy client =
    if any (λ c. same_text c (codes "*")) policy.allowed_clients
    then true
    else any (λ c. same_text (to_lowercase c) (to_lowercase client)) policy.allowed_clients

-- Seconds, moved by hours.
abbrev pub moved : ℕ → ℤ → ℤ
moved secs (pos hours) = pos (secs + hours * 3600)
moved secs (negsuc hours) =
    let back = (hours + 1) * 3600 in
    if leb back secs then pos (secs - back) else negsuc (back - secs - 1)

abbrev pub rem_euclid : ℤ → ℕ → ℕ
rem_euclid (pos n) d = n % d
rem_euclid (negsuc n) d = d - 1 - n % d

unfoldable pub get_current_time_with_offset : ℕ → ℤ → ℕ × ℕ
get_current_time_with_offset secs offset_hours =
    let secs_today = rem_euclid (moved secs offset_hours) 86400 in
    (secs_today / 3600 % 256, secs_today % 3600 / 60 % 256)

-- An hour and a minute that have been read.
abbrev pub checked_time : Option ℕ → Option ℕ → Option (ℕ × ℕ)
checked_time none m = none
checked_time (some h) none = none
checked_time (some h) (some m) = if ltb 23 h || ltb 59 m then none else some (h, m)

abbrev pub time_of_parts : List (List ℕ) → Option (ℕ × ℕ)
time_of_parts (hours ∷ minutes ∷ []) = checked_time (parse 255 hours) (parse 255 minutes)
time_of_parts [] = none
time_of_parts (a ∷ []) = none
time_of_parts (a ∷ b ∷ c ∷ rest) = none

unfoldable pub parse_time : List ℕ → Option (ℕ × ℕ)
parse_time time = time_of_parts (split 58 (trim time))

abbrev pub window_of_times : Option (ℕ × ℕ) → Option (ℕ × ℕ) → Option ((ℕ × ℕ) × (ℕ × ℕ))
window_of_times none e = none
window_of_times (some s) none = none
window_of_times (some s) (some e) = some (s, e)

abbrev pub window_of_parts : List (List ℕ) → Option ((ℕ × ℕ) × (ℕ × ℕ))
window_of_parts (start ∷ end ∷ []) = window_of_times (parse_time start) (parse_time end)
window_of_parts [] = none
window_of_parts (a ∷ []) = none
window_of_parts (a ∷ b ∷ c ∷ rest) = none

unfoldable pub parse_time_window : List ℕ → Option ((ℕ × ℕ) × (ℕ × ℕ))
parse_time_window window = window_of_parts (split 45 window)

abbrev pub minutes : ℕ × ℕ → ℕ
minutes (h, m) = h * 60 + m

unfoldable pub time_in_range : ℕ × ℕ → ℕ × ℕ → ℕ × ℕ → Bool
time_in_range time start end =
    if leb (minutes start) (minutes end)
    then leb (minutes start) (minutes time) && ltb (minutes time) (minutes end)
    else leb (minutes start) (minutes time) || ltb (minutes time) (minutes end)

abbrev pub in_parsed : ℕ × ℕ → Option ((ℕ × ℕ) × (ℕ × ℕ)) → Bool
in_parsed now none = false
in_parsed now (some (start, end)) = time_in_range now start end

unfoldable pub in_some_window : ℕ × ℕ → List (List ℕ) → Bool
in_some_window now [] = false
in_some_window now (w ∷ ws) =
    if in_parsed now (parse_time_window w) then true else in_some_window now ws

abbrev pub time_text : ℕ × ℕ → List ℕ
time_text (h, m) = two_digits h ++ 58 ∷ two_digits m

unfoldable pub is_within_time_window : ℕ → ℤ → List (List ℕ) → Bool × List ℕ
unfolding in_some_window get_current_time_with_offset
is_within_time_window secs offset windows =
    let now = get_current_time_with_offset secs offset in
    (in_some_window now windows, time_text now)

-- `contains`, of the classes
unfoldable pub has_class : ℕ → List ℕ → Bool
has_class class [] = false
has_class class (c ∷ cs) = c == class || has_class class cs

abbrev pub class_restricted : ℕ → Option (List ℕ) → Bool
class_restricted class none = false
class_restricted class (some classes) = has_class class classes

abbrev pub evaluate_windows : ℕ → ℤ → Option (List (List ℕ)) → PolicyDecision
evaluate_windows secs offset none = allow
evaluate_windows secs offset (some []) = allow
evaluate_windows secs offset (some (w ∷ ws)) =
    let (in_window, current_time) = is_within_time_window secs offset (w ∷ ws) in
    if in_window then allow else deny (outside_time_window current_time (w ∷ ws))

unfoldable pub evaluate_policy :
    ℕ → PolicyEngine → DevicePolicy → List ℕ → DeviceInfo → PolicyDecision
evaluate_policy secs e policy client info =
    if not (is_client_allowed policy client)
    then deny client_not_allowed
    else if class_restricted info.class policy.restricted_device_classes
    then deny (device_class_restricted info.class)
    else evaluate_windows secs e.timezone_offset_hours policy.time_windows

abbrev pub without_policy : List DevicePolicy → PolicyDecision
without_policy [] = allow
without_policy (p ∷ ps) = deny no_matching_policy

-- The text of the client's id is that of `EndpointId`, from the network library.
unfoldable pub check_access : ℕ → PolicyEngine → List ℕ → DeviceInfo → PolicyDecision
unfolding evaluate_policy
check_access secs e client info = elim (find_matching_policy e.policies info) [
  | some policy ↦ evaluate_policy secs e policy client info
  | none ↦ elim (find_default_policy e.policies) [
    | some policy ↦ evaluate_policy secs e policy client info
    | none ↦ without_policy e.policies
  ]
]

-- Minutes until a window ends.
abbrev pub minutes_until : ℕ × ℕ → ℕ × ℕ → ℕ
minutes_until now end =
    if ltb (minutes now) (minutes end)
    then minutes end - minutes now
    else 24 * 60 - minutes now + minutes end

abbrev pub nanos_per_minute : ℕ
nanos_per_minute = 60 * 1000000000

-- The end of the first window that contains `now`, counted from the instant `here`.
unfoldable pub expiry_of : ℕ × ℕ → ℕ → List (List ℕ) → Option ℕ
expiry_of now here [] = none
expiry_of now here (w ∷ ws) =
    let rest = expiry_of now here ws in
    elim (parse_time_window w) [
      | none ↦ rest
      | some (start, end) ↦
          if time_in_range now start end
          then some (here + minutes_until now end * nanos_per_minute)
          else rest
    ]

unfoldable pub calculate_window_expiry : ℕ → ℤ → ℕ → List (List ℕ) → Option ℕ
unfolding expiry_of
calculate_window_expiry secs offset here windows =
    expiry_of (get_current_time_with_offset secs offset) here windows

abbrev pub policy_for : PolicyEngine → DeviceInfo → Option DevicePolicy
policy_for e info = first_of (find_matching_policy e.policies info) (find_default_policy e.policies)

abbrev pub duration_of : Option DevicePolicy → Option ℕ
duration_of none = none
duration_of (some p) = p.max_session_duration

unfoldable pub get_session_duration_limit : PolicyEngine → DeviceInfo → Option ℕ
get_session_duration_limit e info = duration_of (policy_for e info)

abbrev pub windows_of : Option DevicePolicy → Option (List (List ℕ))
windows_of none = none
windows_of (some p) = p.time_windows

abbrev pub expiry_for : ℕ → ℤ → ℕ → Option (List (List ℕ)) → Option ℕ
expiry_for secs offset here none = none
expiry_for secs offset here (some windows) = calculate_window_expiry secs offset here windows

-- The clock is read for the windows (`secs`, `here`) and for the start of the session.
unfoldable pub register_session : ℕ → ℕ → ℕ → ℕ → ℕ → DeviceInfo → ℕ → PolicyEngine → PolicyEngine
unfolding get_session_duration_limit
register_session secs here started handle device_id info client_id e =
    let session : ActiveSession = record {
      handle = handle;
      device_id = device_id;
      client_id = client_id;
      started_at = started;
      max_duration = get_session_duration_limit e info;
      window_expires_at =
          expiry_for secs e.timezone_offset_hours here (windows_of (policy_for e info));
    } in
    record e { active_sessions = insert handle session e.active_sessions }

unfoldable pub unregister_session : ℕ → PolicyEngine → PolicyEngine
unregister_session handle e = record e { active_sessions = remove handle e.active_sessions }

abbrev pub past_duration : ℕ → ℕ → Option ℕ → Bool
past_duration now started none = false
past_duration now started (some limit) = leb limit (now - started)

abbrev pub past_window : ℕ → Option ℕ → Bool
past_window now none = false
past_window now (some expiry) = leb expiry now

abbrev pub event_of : ℕ → ActiveSession → SessionExpiredReason → SessionExpiredEvent
event_of handle s reason = record {
  handle = handle;
  device_id = s.device_id;
  client_id = s.client_id;
  reason = reason;
}

-- The clock is read once for the windows (`now`), and for the length of each session once more:
-- `clock` tells the instant by the session's handle.
unfoldable pub expired_in : (ℕ → ℕ) → ℕ → Map ActiveSession → List SessionExpiredEvent
expired_in clock now [] = []
expired_in clock now ((handle, s) ∷ rest) =
    let later = expired_in clock now rest in
    if past_duration (clock handle) s.started_at s.max_duration
    then event_of handle s duration_limit_reached ∷ later
    else if past_window now s.window_expires_at
    then event_of handle s time_window_expired ∷ later
    else later

unfoldable pub check_expired_sessions : (ℕ → ℕ) → ℕ → PolicyEngine → List SessionExpiredEvent
unfolding expired_in
check_expired_sessions clock now e = expired_in clock now e.active_sessions

unfoldable pub remove_all : List SessionExpiredEvent → Map ActiveSession → Map ActiveSession
remove_all [] m = m
remove_all (event ∷ events) m = remove_all events (remove event.handle m)

-- One round of `spawn_expiration_monitor`: the events that are sent, and the engine after it.
unfoldable pub monitor_round : (ℕ → ℕ) → ℕ → PolicyEngine → List SessionExpiredEvent × PolicyEngine
unfolding check_expired_sessions remove_all
monitor_round clock now e =
    let expired = check_expired_sessions clock now e in
    (
      if e.notifies then expired else [],
      record e { active_sessions = remove_all expired e.active_sessions },
    )

abbrev pub remaining : ℕ → ℕ → Option ℕ → Option ℕ
remaining now started none = none
remaining now started (some limit) =
    if ltb (now - started) limit then some (limit - (now - started)) else none

unfoldable pub get_session_time_remaining : ℕ → ℕ → PolicyEngine → Option ℕ
get_session_time_remaining now handle e = elim (lookup handle e.active_sessions) [
  | none ↦ none
  | some s ↦ remaining now s.started_at s.max_duration
]

unfoldable pub with_timezone_offset : ℤ → PolicyEngine → PolicyEngine
with_timezone_offset hours e = record e { timezone_offset_hours = hours }

unfoldable pub with_expiration_channel : PolicyEngine → PolicyEngine
with_expiration_channel e = record e { notifies = true }

unfoldable pub active_session_count : PolicyEngine → ℕ
active_session_count e = length e.active_sessions
