-- ===== src/Rate/Metrics.antt =====
-- The counters of the rate limiter: `BandwidthMetrics` and `MetricsTracker`. A counter is a `u64`
-- that wraps, as it does in a release build; instants are in nanoseconds.
use rust_p2p_usb.Base.{
  ℕ, ◌+◌, ◌-◌, ◌%◌, ◌^◌, Option, none, some, Map, [], lookup, insert, leb, if◌then◌else◌,
}

pub record BandwidthMetrics : Type 0 where
  pub total_bytes : ℕ
  pub bytes_per_second : ℕ
  pub rate_limited_count : ℕ
  pub last_update : Option ℕ

abbrev pub no_metrics : BandwidthMetrics
no_metrics = record {
  total_bytes = 0;
  bytes_per_second = 0;
  rate_limited_count = 0;
  last_update = none;
}

abbrev pub one_second : ℕ
one_second = 1000000000

abbrev pub u64 : ℕ → ℕ
u64 n = n % 2 ^ 64

-- The count of the present second, which starts again when the last start is a second ago.
unfoldable pub count_second : ℕ → ℕ → Option ℕ → BandwidthMetrics → BandwidthMetrics
count_second now bytes none m = record m { bytes_per_second = bytes; last_update = some now }
count_second now bytes (some last) m =
    if leb one_second (now - last)
    then record m { bytes_per_second = bytes; last_update = some now }
    else record m { bytes_per_second = u64 (m.bytes_per_second + bytes) }

unfoldable pub record_metrics : ℕ → ℕ → BandwidthMetrics → BandwidthMetrics
unfolding count_second
record_metrics now bytes m =
    count_second now bytes m.last_update (record m { total_bytes = u64 (m.total_bytes + bytes) })

unfoldable pub record_limited : BandwidthMetrics → BandwidthMetrics
record_limited m = record m { rate_limited_count = u64 (m.rate_limited_count + 1) }

pub record MetricsTracker : Type 0 where
  pub global : BandwidthMetrics
  pub clients : Map BandwidthMetrics
  pub devices : Map BandwidthMetrics

unfoldable pub new_tracker : MetricsTracker
new_tracker = record { global = no_metrics; clients = []; devices = [] }

abbrev pub or_default : Option BandwidthMetrics → BandwidthMetrics
or_default none = no_metrics
or_default (some m) = m

unfoldable pub record_at_key : ℕ → ℕ → Option ℕ → Map BandwidthMetrics → Map BandwidthMetrics
unfolding record_metrics
record_at_key now bytes none metrics = metrics
record_at_key now bytes (some key) metrics =
    insert key (record_metrics now bytes (or_default (lookup key metrics))) metrics

-- The instants of the three counts.
unfoldable pub record_all :
    (at_global at_client at_device : ℕ) → Option ℕ → Option ℕ → ℕ → MetricsTracker → MetricsTracker
unfolding record_metrics record_at_key
record_all at_global at_client at_device client_id device_id bytes t = record {
  global = record_metrics at_global bytes t.global;
  clients = record_at_key at_client bytes client_id t.clients;
  devices = record_at_key at_device bytes device_id t.devices;
}

unfoldable pub client_metrics : ℕ → MetricsTracker → Option BandwidthMetrics
client_metrics client_id t = lookup client_id t.clients

unfoldable pub device_metrics : ℕ → MetricsTracker → Option BandwidthMetrics
device_metrics device_id t = lookup device_id t.devices
