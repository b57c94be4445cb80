-- ===== src/Notify/Batch.antt =====
-- What a batch holds of the notifications that were added.
use rust_p2p_usb.Base.{
  ℕ, ◌≡◌, refl, sym, ap, ◌∙◌, inl, inr, ◌⊎◌, ◌↔◌, ◌≤◌, ◌-◌, length, Bool, true, false, ◌||◌, Option,
  none, some, List, [], ◌∷◌, ◌++◌, arith, Map, lookup, contains_key, lookup-insert, is_some, ◌==◌,
  if◌then◌else◌, map, Bool-cases, Option-cases,
}
use rust_p2p_usb.Notify.{
  PendingNotification, device_id, NotificationAggregator, new, add, aggregated, collect, flush,
  should_flush, aggregation_window, is_empty,
}

-- Notifications with the times of their calls, the first one first.
unfoldable pub add_all :
    List (ℕ × PendingNotification) → NotificationAggregator → NotificationAggregator
add_all [] a = a
add_all ((now, n) ∷ ns) a = add_all ns (add now n a)

-- The last notification of a device.
unfoldable pub latest : ℕ → List (ℕ × PendingNotification) → Option PendingNotification
latest id [] = none
latest id ((now, n) ∷ ns) = elim (latest id ns) [
  | some m ↦ some m
  | none ↦ if device_id n == id then some n else none
]

-- What a batch says of a device, at its first place.
unfoldable pub said : ℕ → List PendingNotification → Option PendingNotification
said id [] = none
said id (n ∷ ns) = if device_id n == id then some n else said id ns

abbrev pub listed : ℕ → List ℕ → Bool
listed id [] = false
listed id (k ∷ ks) = (k == id) || listed id ks

listed-append : (id n : ℕ) (ks : List ℕ) → listed id (ks ++ n ∷ []) ≡ (listed id ks || (n == id))
listed-append id n [] = ground arith
listed-append id n (k ∷ ks) = ground (arith, listed-append id n ks)

-- Each entry is of its device, and the order lists the devices with an entry, each once.
record IsValid (a : NotificationAggregator) : Type 0 where
  keyed : (id : ℕ) (n : PendingNotification) → lookup id a.pending ≡ some n → device_id n ≡ id
  ordered : (id : ℕ) → listed id a.pending_order ≡ contains_key id a.pending

add-IsValid :
    (now : ℕ) (n : PendingNotification) (a : NotificationAggregator)
    → IsValid a
    → IsValid (add now n a)
unfolding add
add-IsValid now n a v = record {
  keyed = λ id m e. ground (arith, v.keyed id m, lookup-insert (device_id n) id n a.pending);
  ordered = λ id. ground (
    arith,
    v.ordered id,
    v.ordered (device_id n),
    lookup-insert (device_id n) id n a.pending,
    listed-append id (device_id n) a.pending_order,
    ap (λ k. lookup k a.pending) {x = device_id n} {y = id},
  );
}

add_all-IsValid :
    (ns : List (ℕ × PendingNotification)) (a : NotificationAggregator)
    → IsValid a
    → IsValid (add_all ns a)
unfolding add_all
add_all-IsValid [] a v = v
add_all-IsValid ((now, n) ∷ ns) a v = add_all-IsValid ns (add now n a) (add-IsValid now n a v)

-- Every device once.
abbrev pub Once : List ℕ → Type 0
Once [] = Unit
Once (k ∷ ks) = (listed k ks ≡ false) × Once ks

Once-snoc : (ks : List ℕ) (n : ℕ) → listed n ks ≡ false → Once ks → Once (ks ++ n ∷ [])
Once-snoc [] n new_one once = (refl, tt)
Once-snoc (k ∷ ks) n new_one once =
    (ground (arith, listed-append k n ks, once.0), Once-snoc ks n (ground arith) once.1)

add-Once :
    (now : ℕ) (n : PendingNotification) (a : NotificationAggregator)
    → IsValid a
    → Once a.pending_order
    → Once (add now n a).pending_order
unfolding add
add-Once now n a v once = elim (Bool-cases (contains_key (device_id n) a.pending)) [
  | inl old ↦ rw old once
  | inr fresh ↦
      rw fresh (Once-snoc a.pending_order (device_id n) (v.ordered (device_id n) ∙ fresh) once)
]

add_all-Once :
    (ns : List (ℕ × PendingNotification)) (a : NotificationAggregator)
    → IsValid a
    → Once a.pending_order
    → Once (add_all ns a).pending_order
unfolding add_all
add_all-Once [] a v once = once
add_all-Once ((now, n) ∷ ns) a v once =
    add_all-Once ns (add now n a) (add-IsValid now n a v) (add-Once now n a v once)

lookup-add :
    (id now : ℕ) (n : PendingNotification) (a : NotificationAggregator)
    → lookup id (add now n a).pending ≡ (if device_id n == id then some n else lookup id a.pending)
unfolding add
lookup-add id now n a = lookup-insert (device_id n) id n a.pending

or_else : Option PendingNotification → Option PendingNotification → Option PendingNotification
or_else none o = o
or_else (some n) o = some n

lookup-add_all :
    (id : ℕ) (ns : List (ℕ × PendingNotification)) (a : NotificationAggregator)
    → lookup id (add_all ns a).pending ≡ or_else (latest id ns) (lookup id a.pending)
unfolding add_all latest or_else
lookup-add_all id [] a = refl
lookup-add_all id ((now, n) ∷ ns) a =
    ground (arith, lookup-add_all id ns (add now n a), lookup-add id now n a)

same_lookup :
    (k id : ℕ) (pending : Map PendingNotification) → k ≡ id → lookup k pending ≡ lookup id pending
same_lookup k id pending e = ap (λ x. lookup x pending) e

said-collect :
    (id : ℕ) (pending : Map PendingNotification) (ids : List ℕ)
    → ((k : ℕ) (n : PendingNotification) → lookup k pending ≡ some n → device_id n ≡ k)
    → said id (collect pending ids) ≡ (if listed id ids then lookup id pending else none)
unfolding said collect
said-collect id pending [] keyed = refl
said-collect id pending (k ∷ ids) keyed = elim (Option-cases (lookup k pending)) [
  | inl absent ↦
      rw (absent, collect, said)
        (ground (arith, said-collect id pending ids keyed, same_lookup k id pending))
  | inr (n, e) ↦
      rw (e, collect, said)
        (ground
          (arith, e, keyed k n e, said-collect id pending ids keyed, same_lookup k id pending))
]

collect-ids :
    (pending : Map PendingNotification) (ids : List ℕ)
    → ((k : ℕ) (n : PendingNotification) → lookup k pending ≡ some n → device_id n ≡ k)
    → ((k : ℕ) → listed k ids ≡ true → contains_key k pending ≡ true)
    → map device_id (collect pending ids) ≡ ids
unfolding collect
collect-ids pending [] keyed present = refl
collect-ids pending (k ∷ ids) keyed present = elim (Option-cases (lookup k pending)) [
  | inl absent ↦ absurd (ground (arith, absent, present k))
  | inr (n, e) ↦
      rw (e, collect)
        (let rest = collect-ids pending ids keyed (λ j h. present j (ground arith)) in
          rw (keyed k n e, rest) refl)
]

present-is_empty :
    (id : ℕ) (pending : Map PendingNotification)
    → contains_key id pending ≡ true
    → is_empty pending ≡ false
unfolding lookup
present-is_empty id [] there = ground arith
present-is_empty id (entry ∷ rest) there = refl

new-IsValid : IsValid new
unfolding lookup
new-IsValid = record { keyed = λ id m e. absurd (none_some m e); ordered = λ id. refl }
  where
    none_some : (m : PendingNotification) → none ≡ some m → ⊥
    none_some m e = ground arith

-- A batch that has the last notification of each device.
abbrev pub Latest : List (ℕ × PendingNotification) → List PendingNotification → Type 0
Latest ns batch = (id : ℕ) → said id batch ≡ latest id ns

if_some : (o : Option PendingNotification) → (if is_some o then o else none) ≡ o
if_some none = refl
if_some (some n) = refl

or_none : (o : Option PendingNotification) → or_else o none ≡ o
unfolding or_else
or_none none = refl
or_none (some n) = refl

said-latest :
    (id : ℕ) (ns : List (ℕ × PendingNotification))
    → let a = add_all ns new in said id (collect a.pending a.pending_order) ≡ latest id ns
unfolding lookup
said-latest id ns =
    let a = add_all ns new in
    let v = add_all-IsValid ns new new-IsValid in
    let kept : lookup id a.pending ≡ latest id ns =
      lookup-add_all id ns new ∙ or_none (latest id ns) in
    let found : (if listed id a.pending_order then lookup id a.pending else none)
        ≡ lookup id a.pending =
      rw (v.ordered id) (if_some (lookup id a.pending)) in
    said-collect id a.pending a.pending_order v.keyed ∙ (found ∙ kept)

pending_left :
    (now : ℕ) (n : PendingNotification) (ns : List (ℕ × PendingNotification))
    → is_empty (add_all ((now, n) ∷ ns) new).pending ≡ false
unfolding latest or_else
pending_left now n ns =
    let calls : List (ℕ × PendingNotification) = (now, n) ∷ ns in
    present-is_empty (device_id n) (add_all calls new).pending
      (ground (arith, lookup-add_all (device_id n) calls new))

-- After notifications, the first one of them `n`, a new aggregator flushes a batch, and is as new:
-- the batch has each device once, with the last notification of the device.
pub flush-add_all :
    (now : ℕ) (n : PendingNotification) (ns : List (ℕ × PendingNotification))
    → (batch : List PendingNotification) × (flush (add_all ((now, n) ∷ ns) new)
        ≡ (some (map aggregated batch), new))
      × Once (map device_id batch)
      × Latest ((now, n) ∷ ns) batch
unfolding flush
flush-add_all now n ns =
    let calls : List (ℕ × PendingNotification) = (now, n) ∷ ns in
    let a = add_all calls new in
    let v = add_all-IsValid calls new new-IsValid in
    let batch = collect a.pending a.pending_order in
    let ids = collect-ids a.pending a.pending_order v.keyed (λ k h. sym (v.ordered k) ∙ h) in
    (
      batch,
      rw (pending_left now n ns) refl,
      rw ids (add_all-Once calls new new-IsValid tt),
      λ id. said-latest id calls,
    )

add_all-window_start :
    (start : ℕ) (ns : List (ℕ × PendingNotification)) (a : NotificationAggregator)
    → a.window_start ≡ some start
    → (add_all ns a).window_start ≡ some start
unfolding add_all add
add_all-window_start start [] a h = h
add_all-window_start start ((now, n) ∷ ns) a h =
    add_all-window_start start ns (add now n a) (rw h refl)

-- After notifications, the first one of them at `first`, a new aggregator is to be flushed exactly
-- if at least fifty devices are pending or the first notification is at least 100 ms old.
pub should_flush-add_all :
    (first now : ℕ) (n : PendingNotification) (ns : List (ℕ × PendingNotification))
    → let a = add_all ((first, n) ∷ ns) new in
      (should_flush now a ≡ true) ↔ ((50 ≤ length a.pending) ⊎ (aggregation_window ≤ now - first))
unfolding should_flush add_all add
should_flush-add_all first now n ns =
    let a = add_all ((first, n) ∷ ns) new in
    let window : a.window_start ≡ some first =
      add_all-window_start first ns (add first n new) refl in
    ground (arith, window, pending_left first n ns)
