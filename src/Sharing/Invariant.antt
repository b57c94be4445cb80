-- ===== src/Sharing/Invariant.antt =====
-- The invariant of a device's sharing state, and that each operation keeps it.
use rust_p2p_usb.Protocol.Types.{SharingMode, exclusive, shared, read_only}
use rust_p2p_usb.Base.{
  ℕ, suc, ◌≤◌, ◌<◌, ◌^◌, ◌≡◌, ◌≢◌, refl, inl, inr, Bool, true, false, not, Option, none, some, List,
  String, [], ◌∷◌, arith, length, retain, All, All-mono, contains_key, lookup, insert, remove, ◌==◌,
  if◌then◌else◌, is_some_of, Bool-cases, Option-cases, lookup-insert, lookup-remove, length-insert,
  length-insert_old, length-remove,
}
use rust_p2p_usb.Sharing.{
  AttachedClient, QueueEntry, DeviceSharingState, new, new_client, room, can_attach, attach_client,
  detach_client,
}
use rust_p2p_usb.Sharing.Queue.{Distinct, Distinct-retain, All-retain}

-- The flags of the client with a handle.
abbrev pub writes : ℕ → DeviceSharingState → Bool
writes h s = elim (lookup h s.attached_clients) [ none ↦ false | some c ↦ c.has_write_lock ]

abbrev pub accesses : ℕ → DeviceSharingState → Bool
accesses h s = elim (lookup h s.attached_clients) [ none ↦ false | some c ↦ c.has_access ]

abbrev pub attached : DeviceSharingState → ℕ → Bool
attached s h = contains_key h s.attached_clients

abbrev pub capacity : SharingMode → ℕ → ℕ
capacity exclusive max_clients = 1
capacity shared max_clients = max_clients
capacity read_only max_clients = max_clients

pub record IsValid (s : DeviceSharingState) : Type 0 where
  -- The write flag is that of the write lock's holder, and of no other client.
  pub writer : (h : ℕ) → writes h s ≡ is_some_of s.write_lock_holder h
  -- The holder of the exclusive lock is attached and has access.
  pub holder : (h : ℕ) → is_some_of s.exclusive_lock_holder h ≡ true → accesses h s ≡ true
  -- Who waits is attached, and waits once.
  pub waiting : All (λ e. attached s e.handle ≡ true) s.access_queue
  -- Who waits on a read-only device wants to write.
  pub writers : s.mode ≡ read_only → All (λ e. e.wants_write ≡ true) s.access_queue
  pub distinct : Distinct s.access_queue
  -- A mode uses its own lock only.
  pub no_exclusive : s.mode ≢ shared → s.exclusive_lock_holder ≡ none
  pub no_write : s.mode ≢ read_only → s.write_lock_holder ≡ none
  pub within : length s.attached_clients ≤ capacity s.mode s.max_clients
  pub in_u32 : s.max_clients < 2 ^ 32

pub new-IsValid : (id : ℕ) (mode : SharingMode) (m t : ℕ) → m < 2 ^ 32 → IsValid (new id mode m t)
unfolding new lookup
new-IsValid id mode m t h = record {
  writer = λ k. refl;
  holder = λ k e. cc;
  waiting = tt;
  writers = λ m. tt;
  distinct = tt;
  no_exclusive = λ n. refl;
  no_write = λ n. refl;
  within = omega arith;
  in_u32 = h;
}

room_within :
    (s : DeviceSharingState)
    → room s.mode s ≡ true
    → length s.attached_clients ≤ capacity s.mode s.max_clients
    → s.max_clients < 2 ^ 32
    → suc (length s.attached_clients) ≤ capacity s.mode s.max_clients
unfolding room
room_within s r w u = ground arith

-- The client of an attached handle is replaced, and the locks' holders with it.
pub update-IsValid :
    (k : ℕ) (c : AttachedClient) (w x : Option ℕ) (s : DeviceSharingState)
    → IsValid s
    → attached s k ≡ true
    → ((h : ℕ) → (if k == h then c.has_write_lock else writes h s) ≡ is_some_of w h)
    → ((h : ℕ) → is_some_of x h ≡ true → (if k == h then c.has_access else accesses h s) ≡ true)
    → (s.mode ≢ shared → x ≡ none)
    → (s.mode ≢ read_only → w ≡ none)
    → IsValid (record s {
      attached_clients = insert k c s.attached_clients;
      write_lock_holder = w;
      exclusive_lock_holder = x;
    })
update-IsValid k c w x s v old flag access no_x no_w = record {
  writer = λ h. ground (arith, lookup-insert k h c s.attached_clients, flag h);
  holder = λ h e. ground (arith, lookup-insert k h c s.attached_clients, access h e);
  waiting =
      All-mono _ (λ e a. ground (arith, lookup-insert k e.handle c s.attached_clients))
        s.access_queue v.waiting;
  writers = v.writers;
  distinct = v.distinct;
  no_exclusive = no_x;
  no_write = no_w;
  within = rw (length-insert_old k c s.attached_clients old) v.within;
  in_u32 = v.in_u32;
}

pub queue-IsValid :
    (q : List QueueEntry) (s : DeviceSharingState)
    → IsValid s
    → All (λ e. attached s e.handle ≡ true) q
    → (s.mode ≡ read_only → All (λ e. e.wants_write ≡ true) q)
    → Distinct q
    → IsValid (record s { access_queue = q })
queue-IsValid q s v a w d = record {
  writer = v.writer;
  holder = v.holder;
  waiting = a;
  writers = w;
  distinct = d;
  no_exclusive = v.no_exclusive;
  no_write = v.no_write;
  within = v.within;
  in_u32 = v.in_u32;
}

pub attach_client-IsValid :
    (now locked_at : ℕ) (id : String) (handle : ℕ) (s : DeviceSharingState)
    → IsValid s
    → can_attach s ≡ true
    → attached s handle ≡ false
    → IsValid (attach_client now locked_at id handle s)
unfolding attach_client can_attach
attach_client-IsValid now locked_at id handle s v free fresh = record {
  writer = λ h. ground (arith, lookup-insert handle h c s.attached_clients, v.writer h);
  holder = λ h e. ground (arith, lookup-insert handle h c s.attached_clients, v.holder h);
  waiting =
      All-mono _ (λ e a. ground (arith, lookup-insert handle e.handle c s.attached_clients))
        s.access_queue v.waiting;
  writers = v.writers;
  distinct = v.distinct;
  no_exclusive = v.no_exclusive;
  no_write = v.no_write;
  within =
      omega
        (arith, length-insert handle c s.attached_clients, room_within s free v.within v.in_u32);
  in_u32 = v.in_u32;
}
  where
    c : AttachedClient
    c = new_client now locked_at id handle s

waiting-detach :
    (h : ℕ) (s : DeviceSharingState) (q : List QueueEntry)
    → All (λ e. attached s e.handle ≡ true) q
    → All
        (λ e. contains_key e.handle (remove h s.attached_clients) ≡ true)
        (retain (λ e. not (e.handle == h)) q)
waiting-detach h s [] a = tt
waiting-detach h s (e ∷ q) a = elim (Bool-cases (e.handle == h)) [
  | inl same ↦ rw same (waiting-detach h s q a.1)
  | inr other ↦
      rw other
        (ground (arith, lookup-remove h e.handle s.attached_clients), waiting-detach h s q a.1)
]

pub detach_client-IsValid :
    (h : ℕ) (s : DeviceSharingState) → IsValid s → IsValid (detach_client h s).1
unfolding detach_client
detach_client-IsValid h s v = elim (Option-cases (lookup h s.attached_clients)) [
  | inl missing ↦ rw (missing, detach_client) v
  | inr (c, found) ↦
      rw (found, detach_client)
        (record {
          writer =
              λ k. ground (arith, lookup-remove h k s.attached_clients, v.writer k, v.writer h);
          holder = λ k e. ground (arith, lookup-remove h k s.attached_clients, v.holder k);
          waiting = waiting-detach h s s.access_queue v.waiting;
          writers = λ m. All-retain _ _ s.access_queue (v.writers m);
          distinct = Distinct-retain _ s.access_queue v.distinct;
          no_exclusive = λ n. ground (arith, v.no_exclusive n);
          no_write = λ n. ground (arith, v.no_write n);
          within = omega (arith, length-remove h s.attached_clients, v.within);
          in_u32 = v.in_u32;
        })
]
