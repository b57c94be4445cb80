-- ===== src/Policy/Sessions.antt =====
-- Which sessions a round of the monitor ends.
use rust_p2p_usb.Base.{
  KeysOnce, ==_iff, ap, lookup_same_key, insert-KeysOnce, remove-KeysOnce, ℕ, ◌≡◌, refl, ◌∙◌, Bool,
  true, false, ◌&&◌, ◌||◌, Option, none, some, List, [], ◌∷◌, arith, Map, lookup, remove,
  lookup-remove, ◌==◌, if◌then◌else◌,
}
use rust_p2p_usb.Protocol.Types.{DeviceInfo}
use rust_p2p_usb.Policy.{
  ActiveSession, SessionExpiredEvent, PolicyEngine, past_duration, past_window, expired_in,
  check_expired_sessions, remove_all, monitor_round, register_session, unregister_session,
}

-- Whether a session is over: by its duration at the instant that is read for it, or by its window
-- at the instant of the round.
abbrev pub is_over : ℕ → ℕ → ActiveSession → Bool
is_over read now s =
    past_duration read s.started_at s.max_duration || past_window now s.window_expires_at

abbrev pub still_running : ℕ → ℕ → Option ActiveSession → Option ActiveSession
still_running read now none = none
still_running read now (some s) = if is_over read now s then none else some s

-- Whether some event is of a handle.
abbrev pub ends : ℕ → List SessionExpiredEvent → Bool
ends handle [] = false
ends handle (event ∷ events) = (event.handle == handle) || ends handle events

lookup-remove_all :
    (h : ℕ) (events : List SessionExpiredEvent) (m : Map ActiveSession)
    → lookup h (remove_all events m) ≡ (if ends h events then none else lookup h m)
unfolding remove_all
lookup-remove_all h [] m = refl
lookup-remove_all h (event ∷ events) m =
    ground
      (arith, lookup-remove_all h events (remove event.handle m), lookup-remove event.handle h m)

abbrev pub over_at : ℕ → ℕ → Option ActiveSession → Bool
over_at read now none = false
over_at read now (some s) = is_over read now s

ends-expired_in :
    (clock : ℕ → ℕ) (now h : ℕ) (m : Map ActiveSession)
    → KeysOnce m
    → ends h (expired_in clock now m) ≡ over_at (clock h) now (lookup h m)
unfolding expired_in lookup
ends-expired_in clock now h [] once = refl
ends-expired_in clock now h ((k, s) ∷ rest) once =
    ground (arith, ends-expired_in clock now h rest once.1, lookup_same_key k h rest, same_clock)
  where
    same_clock : (k == h) ≡ true → clock k ≡ clock h
    same_clock same = ap clock ((==_iff k h).0 same)

-- A call on the engine, with its arguments.
pub data Call : Type 0 where
  registered : (secs here started handle device_id : ℕ) → DeviceInfo → (client_id : ℕ) → Call
  unregistered : (handle : ℕ) → Call
  monitored : (clock : ℕ → ℕ) → (now : ℕ) → Call

unfoldable pub call : Call → PolicyEngine → PolicyEngine
call (registered secs here started handle device_id info client_id) e =
    register_session secs here started handle device_id info client_id e
call (unregistered handle) e = unregister_session handle e
call (monitored clock now) e = (monitor_round clock now e).1

unfoldable pub run : List Call → PolicyEngine → PolicyEngine
run [] e = e
run (c ∷ cs) e = run cs (call c e)

remove_all-KeysOnce :
    (events : List SessionExpiredEvent) (m : Map ActiveSession)
    → KeysOnce m
    → KeysOnce (remove_all events m)
unfolding remove_all
remove_all-KeysOnce [] m once = once
remove_all-KeysOnce (event ∷ events) m once =
    remove_all-KeysOnce events (remove event.handle m) (remove-KeysOnce event.handle m once)

call-KeysOnce :
    (c : Call) (e : PolicyEngine) → KeysOnce e.active_sessions → KeysOnce (call c e).active_sessions
unfolding call register_session unregister_session monitor_round
call-KeysOnce (registered secs here started handle device_id info client_id) e once =
    insert-KeysOnce handle _ e.active_sessions once
call-KeysOnce (unregistered handle) e once = remove-KeysOnce handle e.active_sessions once
call-KeysOnce (monitored clock now) e once =
    remove_all-KeysOnce (check_expired_sessions clock now e) e.active_sessions once

run-KeysOnce :
    (cs : List Call) (e : PolicyEngine)
    → KeysOnce e.active_sessions
    → KeysOnce (run cs e).active_sessions
unfolding run
run-KeysOnce [] e once = once
run-KeysOnce (c ∷ cs) e once = run-KeysOnce cs (call c e) (call-KeysOnce c e once)

still_running_lem :
    (read now : ℕ) (o : Option ActiveSession)
    → (if over_at read now o then none else o) ≡ still_running read now o
still_running_lem read now none = ground arith
still_running_lem read now (some s) = refl

-- After any calls on an engine that had no sessions, a round of the monitor ends exactly the
-- sessions that are over, by their duration (at the instant read for the session) or their window, reports each of them if there is a
-- channel, and leaves the others as they are.
pub monitor_round-lookup :
    (cs : List Call) (e0 : PolicyEngine) (clock : ℕ → ℕ) (now h : ℕ)
    → e0.active_sessions ≡ []
    → let e = run cs e0 in
      let (sent, after) = monitor_round clock now e in
      (lookup h after.active_sessions ≡ still_running (clock h) now (lookup h e.active_sessions))
      × (ends h sent ≡ (e.notifies && over_at (clock h) now (lookup h e.active_sessions)))
unfolding monitor_round check_expired_sessions
monitor_round-lookup cs e0 clock now h empty =
    let e = run cs e0 in
    let once : KeysOnce e.active_sessions = run-KeysOnce cs e0 (rw empty tt) in
    let gone = ends-expired_in clock now h e.active_sessions once in
    (
      lookup-remove_all h (expired_in clock now e.active_sessions) e.active_sessions
          ∙ rw gone (still_running_lem (clock h) now (lookup h e.active_sessions)),
      sent_if e.notifies (expired_in clock now e.active_sessions) gone,
    )
  where
    sent_if :
        (b : Bool) (events : List SessionExpiredEvent) {o : Bool}
        → ends h events ≡ o
        → ends h (if b then events else []) ≡ (b && o)
    sent_if true events same = same
    sent_if false events same = refl
