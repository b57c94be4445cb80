-- ===== src/Notify/Tests.antt =====
-- A device that is plugged in, pulled out and plugged in again while another is reset.
use rust_p2p_usb.Base.{ℕ, ◌≡◌, refl, none, some, List, [], ◌∷◌, map, lookup, insert}
use rust_p2p_usb.Protocol.Types.{device_reset, unplugged}
use rust_p2p_usb.Notify.{
  PendingNotification, removed, status_changed, device_id, aggregated, add, collect, flush, new,
}
use rust_p2p_usb.Notify.Batch.{add_all, Once, Latest, flush-add_all}

abbrev unplug : ℕ → PendingNotification
unplug id = removed id (7 ∷ []) unplugged

abbrev reset_of : ℕ → PendingNotification
reset_of id = status_changed id none device_reset

abbrev more : List (ℕ × PendingNotification)
more = (2, reset_of 4) ∷ (3, unplug 3) ∷ []

batched :
    (flush (add_all ((1, reset_of 3) ∷ more) new)).0
    ≡ some (map aggregated (unplug 3 ∷ reset_of 4 ∷ []))
unfolding add_all add flush collect lookup insert
batched = refl

flush-add_all_example :
    (batch : List PendingNotification) × (flush (add_all ((1, reset_of 3) ∷ more) new)
      ≡ (some (map aggregated batch), new))
    × Once (map device_id batch)
    × Latest ((1, reset_of 3) ∷ more) batch
flush-add_all_example = flush-add_all 1 (reset_of 3) more
