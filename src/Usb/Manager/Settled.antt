-- ===== src/Usb/Manager/Settled.antt =====
-- What the debouncing makes of a device's plugs and unplugs.
use rust_p2p_usb.Base.{
  ℕ, ◌+◌, ◌≡◌, refl, sym, ap, ◌∙◌, Bool, true, false, ◌||◌, inl, inr, Option-cases, Option, none,
  some, List, [], ◌∷◌, arith, lookup, insert, remove, KeysOnce, insert-KeysOnce, lookup-insert,
  lookup-remove, lookup_same_key, leb, ◌==◌, if◌then◌else◌,
}
use rust_p2p_usb.Usb.Manager.{key_of}
use rust_p2p_usb.Usb.Manager.Debounce.{
  PendingHotplugEvent, DebouncedEvent, DebounceState, hotplug_debounce_duration,
  schedule_debounced_event, ready_keys, take_ready, collect_ready,
}

-- What libusb reports: when, where and what.
pub record Report : Type 0 where
  pub at : ℕ
  pub bus : ℕ
  pub address : ℕ
  pub event_type : PendingHotplugEvent

abbrev pub spot : Report → ℕ
spot r = key_of r.bus r.address

abbrev pub scheduled : Report → DebouncedEvent
scheduled r = record {
  event_type = r.event_type;
  fire_at = r.at + hotplug_debounce_duration;
  bus = r.bus;
  address = r.address;
}

unfoldable pub schedule_all : List Report → DebounceState → DebounceState
schedule_all [] state = state
schedule_all (r ∷ rs) state =
    schedule_all rs (schedule_debounced_event r.at r.bus r.address r.event_type state)

-- The last report of a place, after one that there may have been before.
unfoldable pub last_of : ℕ → Option DebouncedEvent → List Report → Option DebouncedEvent
last_of key before [] = before
last_of key before (r ∷ rs) = last_of key (if spot r == key then some (scheduled r) else before) rs

lookup-schedule_all :
    (key : ℕ) (rs : List Report) (state : DebounceState)
    → lookup key (schedule_all rs state) ≡ last_of key (lookup key state) rs
unfolding schedule_all last_of schedule_debounced_event
lookup-schedule_all key [] state = refl
lookup-schedule_all key (r ∷ rs) state =
    lookup-schedule_all key rs (insert (spot r) (scheduled r) state)
    ∙ ap (λ before. last_of key before rs) (lookup-insert (spot r) key (scheduled r) state)

schedule_all-KeysOnce :
    (rs : List Report) (state : DebounceState) → KeysOnce state → KeysOnce (schedule_all rs state)
unfolding schedule_all schedule_debounced_event
schedule_all-KeysOnce [] state once = once
schedule_all-KeysOnce (r ∷ rs) state once =
    schedule_all-KeysOnce rs _ (insert-KeysOnce (spot r) (scheduled r) state once)

abbrev pub due : ℕ → Option DebouncedEvent → Bool
due now none = false
due now (some e) = leb e.fire_at now

abbrev among_keys : ℕ → List ℕ → Bool
among_keys key [] = false
among_keys key (k ∷ ks) = k == key || among_keys key ks

among-ready_keys :
    (now key : ℕ) (state : DebounceState)
    → KeysOnce state
    → among_keys key (ready_keys now state) ≡ due now (lookup key state)
unfolding ready_keys lookup
among-ready_keys now key [] once = refl
among-ready_keys now key ((k, e) ∷ rest) once =
    ground (arith, among-ready_keys now key rest once.1, once.0, lookup_same_key k key rest)

-- The first event of a place.
unfoldable pub fired : ℕ → List DebouncedEvent → Option DebouncedEvent
fired key [] = none
fired key (e ∷ es) = if key_of e.bus e.address == key then some e else fired key es

abbrev placed : ℕ → Option DebouncedEvent → Bool
placed key none = true
placed key (some e) = key_of e.bus e.address == key

-- Each event stands at the key of its place.
abbrev Placed : DebounceState → Type 0
Placed state = (key : ℕ) → placed key (lookup key state) ≡ true

remove-Placed : (k : ℕ) (state : DebounceState) → Placed state → Placed (remove k state)
remove-Placed k state p key = ground (arith, lookup-remove k key state, p key)

schedule_all-Placed :
    (rs : List Report) (state : DebounceState) → Placed state → Placed (schedule_all rs state)
unfolding schedule_all schedule_debounced_event
schedule_all-Placed [] state p = p
schedule_all-Placed (r ∷ rs) state p =
    schedule_all-Placed rs (insert (spot r) (scheduled r) state)
      (λ key. ground (arith, lookup-insert (spot r) key (scheduled r) state, p key))

lookup-take_ready :
    (key : ℕ) (keys : List ℕ) (state : DebounceState)
    → lookup key (take_ready keys state).1
      ≡ (if among_keys key keys then none else lookup key state)
unfolding take_ready
lookup-take_ready key [] state = refl
lookup-take_ready key (k ∷ ks) state =
    let rest = lookup-take_ready key ks (remove k state) in
    let without = lookup-remove k key state in
    elim (Option-cases (lookup k state)) [
      | inl missing ↦ rw (missing, take_ready) (ground (arith, rest, without))
      | inr (e, there) ↦ rw (there, take_ready) (ground (arith, rest, without))
    ]

fired-take_ready :
    (key : ℕ) (keys : List ℕ) (state : DebounceState)
    → Placed state
    → fired key (take_ready keys state).0 ≡ (if among_keys key keys then lookup key state else none)
unfolding take_ready fired
fired-take_ready key [] state p = refl
fired-take_ready key (k ∷ ks) state p =
    let rest = fired-take_ready key ks (remove k state) (remove-Placed k state p) in
    let without = lookup-remove k key state in
    let same_place = lookup_same_key k key state in
    elim (Option-cases (lookup k state)) [
      | inl missing ↦ rw (missing, take_ready) (ground (arith, rest, without, same_place, missing))
      | inr (e, there) ↦
          let at_k : (key_of e.bus e.address == k) ≡ true = ap (placed k) (sym there) ∙ p k in
          rw (there, take_ready) (ground (arith, rest, without, same_place, there, at_k))
    ]

-- The reports of any devices, from a state in which nothing waits: what fires for a place at a
-- time is the last report of that place, if it is half a second old, and it waits no longer; else
-- nothing fires for it, and its last report still waits.
pub collect_ready-schedule_all :
    (rs : List Report) (now key : ℕ)
    → let (events, waiting) = collect_ready now (schedule_all rs []) in
      let final = last_of key none rs in
      (fired key events ≡ (if due now final then final else none))
      × (lookup key waiting ≡ (if due now final then none else final))
unfolding collect_ready lookup
collect_ready-schedule_all rs now key =
    let state = schedule_all rs [] in
    let found = lookup-schedule_all key rs [] in
    let ready = among-ready_keys now key state (schedule_all-KeysOnce rs [] tt) in
    let p : Placed state = schedule_all-Placed rs [] (λ k. refl) in
    (
      fired-take_ready key (ready_keys now state) state p ∙ rw (ready, found) refl,
      lookup-take_ready key (ready_keys now state) state ∙ rw (ready, found) refl,
    )
