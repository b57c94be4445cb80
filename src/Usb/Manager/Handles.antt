-- ===== src/Usb/Manager/Handles.antt =====
-- What a client may rely on for the handle that it was given.
use mathlib.Core.Option
use rust_p2p_usb.Usb.Manager.Hotplug.{held-left}
use rust_p2p_usb.Base.{
  KeysOnce, ◌||◌, ℕ, ◌<◌, ◌≤◌, ◌^◌, ◌≡◌, refl, sym, ap, ◌∙◌, subst, String, Bool, true, false, inl,
  inr, Bool-cases, Option-cases, none, some, List, [], ◌∷◌, arith, Map, lookup, contains_key,
  length, lookup_same_key, ◌==◌, ==_iff, if◌then◌else◌, is_some_of,
}
use rust_p2p_usb.Protocol.Types.{SharingMode, exclusive}
use rust_p2p_usb.Sharing.{DeviceSharingState}
use rust_p2p_usb.Sharing.Invariant
use rust_p2p_usb.Sharing.Invariant.{IsValid, capacity}
use rust_p2p_usb.Sharing.Tracker.{get_mode, DeviceAccessTracker}
use rust_p2p_usb.Usb.Manager.{
  key_of, DeviceManager, SharingConfig, with_sharing_config, get_device_by_handle, get_device_by_id,
  get_device_id_for_handle, id_of,
}
use rust_p2p_usb.Usb.Manager.Registry.{handles_of, remove_device, remove_known, clients_of, Removed}
use rust_p2p_usb.Usb.Manager.Coherent.{lists, opened_of, held}
use rust_p2p_usb.Usb.Manager.Reach.{Reach, new-Reach-Coherent}

-- After any calls on a new manager whose limit of clients is a `u32`, none of which brings a
-- counter to its end: the device of a handle that is attached is found, and it is open.
pub get_device_by_handle-opened :
    (filters : List (List ℕ)) (config : SharingConfig) {m : DeviceManager} (h : ℕ)
    → config.default_max_clients < 2 ^ 32
    → Reach (with_sharing_config filters config) m
    → contains_key h m.attached ≡ true
    → opened_of (get_device_by_handle h m) ≡ true
unfolding get_device_by_handle get_device_by_id get_device_id_for_handle
get_device_by_handle-opened filters config {m} h small r there =
    let v = new-Reach-Coherent filters config small r in
    elim (Option-cases (lookup h m.attached)) [
      | inl missing ↦ absurd (ground (arith, there, missing))
      | inr ((id, client), found) ↦
          rw (found, get_device_by_handle) (v.opened h id (ground (arith, found)))
    ]

one_key :
    {V : Type 0} → (h : ℕ) (entries : Map V) → contains_key h entries ≡ true → 1 ≤ length entries
unfolding lookup
one_key h [] there = cc
one_key h (e ∷ rest) there = omega arith

-- Two keys of a map make it two entries long.
two_keys :
    {V : Type 0}
    → (h k : ℕ) (entries : Map V) → contains_key h entries ≡ true
    → contains_key k entries ≡ true
    → (h == k) ≡ false
    → 2 ≤ length entries
unfolding lookup
two_keys h k [] at_h at_k other = cc
two_keys h k (e ∷ rest) at_h at_k other =
    ground (arith, one_key h rest, one_key k rest, two_keys h k rest)

mode_of :
    (id : ℕ) (mode : SharingMode) (tracker : DeviceAccessTracker)
    → get_mode id tracker ≡ some mode
    → (s : DeviceSharingState) × ((lookup id tracker ≡ some s) × (s.mode ≡ mode))
unfolding get_mode
mode_of id mode tracker found = elim (Option-cases (lookup id tracker)) [
  | inl missing ↦
      let no_mode : none ≡ some mode = ap (Option.map (λ s. s.mode)) (sym missing) ∙ found in cc
  | inr (s, state) ↦
      let its_mode : some s.mode ≡ some mode = ap (Option.map (λ s. s.mode)) (sym state) ∙ found in
      (s, (state, cc))
]

-- After any calls on a new manager whose limit of clients is a `u32`, none of which brings a
-- counter to its end: a device that is shared in exclusive mode has at most one handle.
pub one_handle :
    (filters : List (List ℕ)) (config : SharingConfig) {m : DeviceManager} (h k id : ℕ)
    → config.default_max_clients < 2 ^ 32
    → Reach (with_sharing_config filters config) m
    → get_mode id m.access_tracker ≡ some exclusive
    → held h id m ≡ true
    → held k id m ≡ true
    → h ≡ k
one_handle filters config {m} h k id small r mode at_h at_k =
    let v = new-Reach-Coherent filters config small r in
    let (s, (state, its_mode)) = mode_of id exclusive m.access_tracker mode in
    let lists_h : Invariant.attached s h ≡ true =
      ap (λ o. lists o h) (sym state) ∙ v.listed h id at_h in
    let lists_k : Invariant.attached s k ≡ true =
      ap (λ o. lists o k) (sym state) ∙ v.listed k id at_k in
    let short : length s.attached_clients ≤ capacity exclusive s.max_clients =
      subst (λ n. length s.attached_clients ≤ capacity n s.max_clients) its_mode
        (v.valid id s state).within in
    elim (Bool-cases (h == k)) [
      | inl same ↦ (==_iff h k).0 same
      | inr other ↦
          let long = two_keys h k s.attached_clients lists_h lists_k other in absurd (omega arith)
    ]

abbrev pub among : ℕ → List ℕ → Bool
among h [] = false
among h (k ∷ ks) = k == h || among h ks

among-handles_of :
    (h id : ℕ) (attached : Map (ℕ × String))
    → KeysOnce attached
    → among h (handles_of id attached) ≡ is_some_of (id_of (lookup h attached)) id
unfolding handles_of lookup
among-handles_of h id [] once = refl
among-handles_of h id ((k, (i, c)) ∷ rest) once =
    ground (arith, among-handles_of h id rest once.1, once.0, lookup_same_key k h rest)

-- After any calls on a new manager whose limit of clients is a `u32`, none of which brings a
-- counter to its end: a device that is removed invalidates exactly the handles that are attached
-- to it, and every other attachment stays.
pub remove_device-held :
    (filters : List (List ℕ)) (config : SharingConfig) {m : DeviceManager} (bus address h id : ℕ)
    (gone : Removed)
    → config.default_max_clients < 2 ^ 32
    → Reach (with_sharing_config filters config) m
    → (remove_device bus address m).0 ≡ some gone
    → (among h gone.invalidated_handles ≡ held h gone.device_id m)
      × (held h id (remove_device bus address m).1
          ≡ (if gone.device_id == id then false else held h id m))
unfolding remove_device remove_known
remove_device-held filters config {m} bus address h id gone small r removed =
    let v = new-Reach-Coherent filters config small r in
    elim (Option-cases (lookup (key_of bus address) m.devices)) [
      | inl unknown ↦
          let nothing : none ≡ some gone = sym (rw (unknown, remove_device) refl) ∙ removed in cc
      | inr (d, at_key) ↦
          let it : Removed = record {
            device_id = d.id;
            invalidated_handles = handles_of d.id m.attached;
            affected_clients = clients_of [] d.id m.attached;
          } in
          let both : some it ≡ some gone = sym (rw (at_key, remove_device) refl) ∙ removed in
          let same : it ≡ gone = cc in
          let done =
            subst
              (λ g.
                (among h g.invalidated_handles ≡ held h g.device_id m)
                × (held h id (remove_known (key_of bus address) d m)
                    ≡ (if g.device_id == id then false else held h id m)))
              same
              (among-handles_of h d.id m.attached v.once, held-left d.id h id m.attached v.once) in
          rw (at_key, remove_device) done
    ]
