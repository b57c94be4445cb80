-- ===== src/Policy/Tests.antt =====
-- A printer that may be used by night, for an hour, by one client.
use rust_p2p_usb.Base.{
  ℕ, ◌+◌, ◌*◌, ◌≤◌, ◌≡◌, ◌↔◌, refl, arith, true, ◌&&◌, none, some, List, [], ◌∷◌, lookup, pos,
  codes, same_text, trim, trim_start, split, split_from, parse, digits_from,
}
use rust_p2p_usb.Protocol.Types.{DeviceInfo, DeviceSpeed, SharingMode}
use rust_p2p_usb.Policy.{
  DevicePolicy, PolicyEngine, allow, new, check_access, find_matching_policy, find_default_policy,
  find, evaluate_policy, is_client_allowed, any, has_class, is_within_time_window, in_some_window,
  get_current_time_with_offset, parse_time_window, parse_time, time_in_range,
  calculate_window_expiry, expiry_of, nanos_per_minute, monitor_round,
}
use rust_p2p_usb.Policy.Clock.{later, calculate_window_expiry-in_some_window}
use rust_p2p_usb.Policy.Access.{Admits, minute_of_day, check_access-eq-allow}
use rust_p2p_usb.Policy.Sessions.{
  registered, run, still_running, over_at, ends, monitor_round-lookup,
}

abbrev by_night : List (List ℕ)
by_night = codes "22:00-06:00" ∷ []

abbrev night_policy : DevicePolicy
night_policy = record {
  device_filter = codes "04f9:*";
  allowed_clients = codes "AB12" ∷ [];
  description = none;
  sharing_mode = SharingMode.exclusive;
  lock_timeout_secs = 300;
  max_concurrent_clients = 4;
  time_windows = some by_night;
  max_session_duration = some 3600000000000;
  restricted_device_classes = some (8 ∷ []);
}

abbrev printer : DeviceInfo
printer = record {
  id = 5;
  vendor_id = 0x4f9;
  product_id = 0x42;
  bus_number = 1;
  device_address = 2;
  manufacturer = none;
  product = none;
  serial_number = none;
  class = 7;
  subclass = 1;
  protocol = 2;
  speed = DeviceSpeed.high;
  num_configurations = 1;
}

abbrev engine : PolicyEngine
engine = new (night_policy ∷ [])

-- At 23:30 the client is let in, at noon it is not.
let_in : check_access 84600 engine (codes "ab12") printer ≡ allow
unfolding check_access new find_matching_policy find_default_policy find evaluate_policy
    is_client_allowed any has_class is_within_time_window in_some_window
    get_current_time_with_offset parse_time_window parse_time time_in_range same_text trim
    trim_start split split_from parse digits_from
let_in = refl

check_access-eq-allow_example :
    (check_access 84600 engine (codes "ab12") printer ≡ allow)
    ↔ Admits engine.policies printer (codes "ab12") (minute_of_day 84600 (pos 0))
unfolding new
check_access-eq-allow_example = check_access-eq-allow 84600 engine (codes "ab12") printer

abbrev nobody : PolicyEngine
nobody = new (record night_policy { allowed_clients = [] } ∷ [])

until_six : calculate_window_expiry 84600 (pos 0) 7 by_night ≡ some (7 + 390 * nanos_per_minute)
unfolding calculate_window_expiry expiry_of get_current_time_with_offset parse_time_window
    parse_time time_in_range same_text trim trim_start split split_from parse digits_from
until_six = refl

calculate_window_expiry-in_some_window_example :
    (in_some_window (later (get_current_time_with_offset 84600 (pos 0)) 60) by_night ≡ true)
    × (7 + 390 * nanos_per_minute ≤ 7 + 1440 * nanos_per_minute)
calculate_window_expiry-in_some_window_example =
    calculate_window_expiry-in_some_window 84600 (pos 0) 7 (7 + 390 * nanos_per_minute) 60 by_night
      until_six (omega arith)

abbrev sessions : PolicyEngine
sessions =
    run (registered 84600 7 8 1 5 printer 9 ∷ registered 84600 7 1000 2 5 printer 9 ∷ []) engine

-- The instants read for the sessions.
abbrev read_at : ℕ → ℕ
read_at handle = 3600000000008 + handle

-- The first session is over after an hour, and the second one not yet.
monitor_round-lookup_example :
    let (sent, after) = monitor_round read_at 3600000000008 sessions in
    (lookup 1 after.active_sessions
      ≡ still_running (read_at 1) 3600000000008 (lookup 1 sessions.active_sessions))
    × (ends 1 sent ≡ (
        sessions.notifies && over_at (read_at 1) 3600000000008 (lookup 1 sessions.active_sessions)))
unfolding new
monitor_round-lookup_example =
    monitor_round-lookup
      (registered 84600 7 8 1 5 printer 9 ∷ registered 84600 7 1000 2 5 printer 9 ∷ []) engine
      read_at 3600000000008 1 refl
