-- ===== src/Sharing/Fifo.antt =====
-- What a shared device promises its clients: one lock, and a queue of handles for it.
use rust_p2p_usb.Base.{
  ℕ, suc, ◌+◌, Bool, true, false, not, Option, none, some, List, [], ◌∷◌, ◌++◌, length, drop,
  retain, ◌==◌, if◌then◌else◌, is_some, is_some_of,
}
use mathlib.Core.Option

pub record Lock : Type 0 where
  pub holder : Option ℕ
  pub waiters : List ℕ

-- `wait` tells the place in the queue, from 1.
pub data Answer : Type 0 where
  got had : Answer
  wait : ℕ → Answer

unfoldable pub index_of : ℕ → List ℕ → Option ℕ
index_of h [] = none
index_of h (k ∷ ks) = if k == h then some 0 else Option.map suc (index_of h ks)

-- Who waits already keeps its place; anyone else goes to the end.
unfoldable pub enqueue : ℕ → Lock → Answer × Lock
enqueue h l = elim (index_of h l.waiters) [
  | some i ↦ (wait (i + 1), l)
  | none ↦ (wait (length l.waiters + 1), record l { waiters = l.waiters ++ h ∷ [] })
]

unfoldable pub acquire : ℕ → Lock → Answer × Lock
unfolding enqueue
acquire h l =
    if is_some_of l.holder h
    then (had, l)
    else if is_some l.holder
    then enqueue h l
    else (got, record l { holder = some h })

-- A client that asks for the lock, or for what needs none.
unfoldable pub ask : Bool → ℕ → Lock → Answer × Lock
unfolding acquire
ask true h l = acquire h l
ask false h l = (got, l)

unfoldable pub release : ℕ → Lock → Bool × Lock
release h l = if is_some_of l.holder h then (true, record l { holder = none }) else (false, l)

unfoldable pub leave : ℕ → Lock → Lock
leave h l = record {
  holder = if is_some_of l.holder h then none else l.holder;
  waiters = retain (λ k. not (k == h)) l.waiters;
}

unfoldable pub serve : List ℕ → Lock → Option ℕ × Lock
serve [] l = (none, record l { waiters = [] })
serve (k ∷ ks) l = (some k, record l { holder = some k; waiters = ks })

-- A free lock goes to the first of the queue after `gave_up` of its front have given up.
unfoldable pub grant : ℕ → Lock → Option ℕ × Lock
grant gave_up l = if is_some l.holder then (none, l) else serve (drop gave_up l.waiters) l
