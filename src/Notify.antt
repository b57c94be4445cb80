-- ===== src/Notify.antt =====
-- The batches of device notifications: crates/server/src/network/notification_aggregator.rs. An
-- instant is a number of nanoseconds, an argument of the calls that read the clock.
pub mod Batch
mod Tests
use rust_p2p_usb.Base.{
  ℕ, ◌-◌, ◌*◌, Bool, true, false, not, Option, none, some, List, [], ◌∷◌, ◌++◌, Map, lookup, insert,
  contains_key, length, leb, if◌then◌else◌, map,
}
use mathlib.Core.Option
use rust_p2p_usb.Protocol.Types.{
  DeviceInfo, DeviceRemovalReason, DeviceStatusChangeReason, AggregatedNotification,
}

abbrev pub aggregation_window : ℕ
aggregation_window = 100 * 1000000

abbrev pub max_pending_notifications : ℕ
max_pending_notifications = 50

pub data PendingNotification : Type 0 where
  arrived : DeviceInfo → PendingNotification
  removed :
      (device_id : ℕ)
      → (invalidated_handles : List ℕ) → (reason : DeviceRemovalReason) → PendingNotification
  status_changed :
      (device_id : ℕ)
      → (device_info : Option DeviceInfo) → (reason : DeviceStatusChangeReason)
      → PendingNotification

abbrev pub device_id : PendingNotification → ℕ
device_id (arrived info) = info.id
device_id (removed id handles reason) = id
device_id (status_changed id info reason) = id

pub record NotificationAggregator : Type 0 where
  pub pending : Map PendingNotification
  pub pending_order : List ℕ
  pub window_start : Option ℕ

abbrev pub new : NotificationAggregator
new = record { pending = []; pending_order = []; window_start = none }

abbrev pub started : ℕ → Option ℕ → Option ℕ
started now none = some now
started now (some start) = some start

unfoldable pub add : ℕ → PendingNotification → NotificationAggregator → NotificationAggregator
add now notification a = record {
  pending = insert (device_id notification) notification a.pending;
  pending_order =
      if not (contains_key (device_id notification) a.pending)
      then a.pending_order ++ device_id notification ∷ []
      else a.pending_order;
  window_start = started now a.window_start;
}

abbrev pub is_empty : Map PendingNotification → Bool
is_empty [] = true
is_empty (entry ∷ rest) = false

abbrev pub window_over : ℕ → Option ℕ → Bool
window_over now none = false
window_over now (some start) = leb aggregation_window (now - start)

unfoldable pub should_flush : ℕ → NotificationAggregator → Bool
should_flush now a =
    if is_empty a.pending
    then false
    else if leb max_pending_notifications (length a.pending)
    then true
    else window_over now a.window_start

unfoldable pub has_pending : NotificationAggregator → Bool
has_pending a = not (is_empty a.pending)

abbrev pub aggregated : PendingNotification → AggregatedNotification
aggregated (arrived info) = AggregatedNotification.arrived info
aggregated (removed id handles reason) = AggregatedNotification.removed id handles reason
aggregated (status_changed id info reason) = AggregatedNotification.status_changed id info reason

-- `filter_map(|id| self.pending.get(id))`
unfoldable pub collect : Map PendingNotification → List ℕ → List PendingNotification
collect pending [] = []
collect pending (id ∷ ids) = elim (lookup id pending) [
  | none ↦ collect pending ids
  | some n ↦ n ∷ collect pending ids
]

unfoldable pub flush :
    NotificationAggregator → Option (List AggregatedNotification) × NotificationAggregator
unfolding collect
flush a =
    if is_empty a.pending
    then (none, a)
    else (some (map aggregated (collect a.pending a.pending_order)), new)

abbrev pub left_of : ℕ → ℕ
left_of elapsed = if leb aggregation_window elapsed then 0 else aggregation_window - elapsed

unfoldable pub time_until_flush : ℕ → NotificationAggregator → Option ℕ
time_until_flush now a = Option.map (λ start. left_of (now - start)) a.window_start
