-- ===== src/Protocol/Types.antt =====
-- The types that the protocol's messages carry: crates/protocol/src/types.rs.
-- `DeviceId`, `DeviceHandle` and `RequestId` wrap a number and are that number; the sizes of the
-- numbers are stated where they matter. `F` stands for `f64`, which the model does not look into.
use rust_p2p_usb.Base.{ℕ, ℤ, String, Bool, Option, List}

pub data DeviceSpeed : Type 0 where
  low : DeviceSpeed
  full : DeviceSpeed
  high : DeviceSpeed
  super : DeviceSpeed
  super_plus : DeviceSpeed

pub record DeviceInfo : Type 0 where
  pub id : ℕ
  pub vendor_id : ℕ
  pub product_id : ℕ
  pub bus_number : ℕ
  pub device_address : ℕ
  pub manufacturer : Option String
  pub product : Option String
  pub serial_number : Option String
  pub class : ℕ
  pub subclass : ℕ
  pub protocol : ℕ
  pub speed : DeviceSpeed
  pub num_configurations : ℕ

pub record IsoPacketDescriptor : Type 0 where
  pub offset : ℕ
  pub length : ℕ
  pub actual_length : ℕ
  pub status : ℤ

pub data TransferType : Type 0 where
  control :
      (request_type : ℕ)
      → (request : ℕ) → (value : ℕ) → (index : ℕ) → (bytes : List ℕ) → TransferType
  interrupt : (endpoint : ℕ) → (bytes : List ℕ) → (timeout_ms : ℕ) → TransferType
  bulk : (endpoint : ℕ) → (bytes : List ℕ) → (timeout_ms : ℕ) → (checksum : Option ℕ) → TransferType
  isochronous :
      (endpoint : ℕ)
      → (bytes : List ℕ) → (iso_packet_descriptors : List IsoPacketDescriptor) → (start_frame : ℕ)
      → (interval : ℕ) → (timeout_ms : ℕ) → TransferType

pub record UsbRequest : Type 0 where
  pub id : ℕ
  pub handle : ℕ
  pub transfer : TransferType

pub data UsbError : Type 0 where
  timeout : UsbError
  pipe : UsbError
  no_device : UsbError
  not_found : UsbError
  busy : UsbError
  overflow : UsbError
  io : UsbError
  invalid_param : UsbError
  access : UsbError
  other : (message : String) → UsbError

pub data TransferResult : Type 0 where
  success : (bytes : List ℕ) → (checksum : Option ℕ) → TransferResult
  error : (error : UsbError) → TransferResult
  isochronous_success :
      (iso_packet_descriptors : List IsoPacketDescriptor)
      → (start_frame : ℕ) → (error_count : ℕ) → (bytes : List ℕ) → TransferResult

pub record UsbResponse : Type 0 where
  pub id : ℕ
  pub result : TransferResult

pub data AttachError : Type 0 where
  device_not_found : AttachError
  already_attached : AttachError
  permission_denied : AttachError
  policy_denied : (reason : String) → AttachError
  outside_time_window : (current_time : String) → (allowed_windows : List String) → AttachError
  device_class_restricted : (device_class : ℕ) → AttachError
  other : (message : String) → AttachError

pub data DetachError : Type 0 where
  handle_not_found : DetachError
  other : (message : String) → DetachError

pub data DeviceRemovalReason : Type 0 where
  unplugged : DeviceRemovalReason
  server_shutdown : DeviceRemovalReason
  device_error : (message : String) → DeviceRemovalReason
  admin_action : DeviceRemovalReason

pub data SharingMode : Type 0 where
  exclusive : SharingMode
  shared : SharingMode
  read_only : SharingMode

pub data ForceDetachReason : Type 0 where
  session_duration_limit_reached : (duration_secs : ℕ) → (max_duration_secs : ℕ) → ForceDetachReason
  time_window_expired : (current_time : String) → (next_window : Option String) → ForceDetachReason
  admin_action : (reason : Option String) → ForceDetachReason
  server_shutdown : ForceDetachReason
  device_disconnected : ForceDetachReason

pub record ProtocolLatencyStats : Type 0 where
  pub min_us : ℕ
  pub max_us : ℕ
  pub avg_us : ℕ
  pub sample_count : ℕ

pub record ProtocolMetrics (F : Type 0) : Type 0 where
  pub bytes_sent : ℕ
  pub bytes_received : ℕ
  pub transfers_completed : ℕ
  pub transfers_failed : ℕ
  pub retries : ℕ
  pub active_transfers : ℕ
  pub latency : ProtocolLatencyStats
  pub throughput_tx_bps : F
  pub throughput_rx_bps : F
  pub loss_rate : F
  pub retry_rate : F
  pub uptime_secs : Option ℕ

pub record DeviceMetrics (F : Type 0) : Type 0 where
  pub device_id : ℕ
  pub metrics : ProtocolMetrics F

pub record ClientMetrics (F : Type 0) : Type 0 where
  pub client_id : String
  pub metrics : ProtocolMetrics F

pub record ServerMetricsSummary (F : Type 0) : Type 0 where
  pub total : ProtocolMetrics F
  pub devices : List (DeviceMetrics F)
  pub clients : List (ClientMetrics F)

pub data DeviceStatusChangeReason : Type 0 where
  device_reset : DeviceStatusChangeReason
  sharing_status_changed : (shared : Bool) → DeviceStatusChangeReason
  configuration_changed : DeviceStatusChangeReason
  capabilities_updated : DeviceStatusChangeReason
  interface_change : DeviceStatusChangeReason
  power_state_change : DeviceStatusChangeReason
  other : (description : String) → DeviceStatusChangeReason

pub data AggregatedNotification : Type 0 where
  arrived : DeviceInfo → AggregatedNotification
  removed :
      (device_id : ℕ)
      → (invalidated_handles : List ℕ) → (reason : DeviceRemovalReason) → AggregatedNotification
  status_changed :
      (device_id : ℕ)
      → (device_info : Option DeviceInfo) → (reason : DeviceStatusChangeReason)
      → AggregatedNotification

pub record QueuePositionUpdate : Type 0 where
  pub device_id : ℕ
  pub position : ℕ
  pub queue_length : ℕ

pub record DeviceSharingStatus : Type 0 where
  pub device_id : ℕ
  pub sharing_mode : SharingMode
  pub attached_clients : ℕ
  pub has_write_lock : Bool
  pub queue_position : ℕ
  pub queue_length : ℕ

pub data LockResult : Type 0 where
  acquired : LockResult
  already_held : LockResult
  queued : (position : ℕ) → LockResult
  not_available : (reason : String) → LockResult

pub data UnlockResult : Type 0 where
  released : UnlockResult
  not_held : UnlockResult
  error : (message : String) → UnlockResult

pub record InterruptStreamInfo : Type 0 where
  pub endpoint : ℕ
  pub buffer_size : ℕ
  pub max_report_size : ℕ
  pub poll_interval_ms : ℕ
  pub start_sequence : ℕ

pub record InterruptStreamStats : Type 0 where
  pub total_reports : ℕ
  pub reports_sent : ℕ
  pub reports_dropped : ℕ
  pub reports_acked : ℕ
  pub last_sequence : ℕ
  pub avg_latency_us : ℕ
  pub duration_ms : ℕ
