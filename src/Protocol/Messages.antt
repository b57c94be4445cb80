-- ===== src/Protocol/Messages.antt =====
-- The messages of the protocol: crates/protocol/src/messages.rs and version.rs.
use rust_p2p_usb.Base.{ℕ, String, Bool, Option, List, Result}
use rust_p2p_usb.Protocol.Types.{
  DeviceInfo, UsbRequest, UsbResponse, AttachError, DetachError, DeviceRemovalReason, SharingMode,
  ForceDetachReason, ProtocolMetrics, ServerMetricsSummary, DeviceStatusChangeReason,
  AggregatedNotification, QueuePositionUpdate, DeviceSharingStatus, LockResult, UnlockResult,
  InterruptStreamInfo, InterruptStreamStats,
}

pub record ProtocolVersion : Type 0 where
  pub major : ℕ
  pub minor : ℕ
  pub patch : ℕ

pub data MessagePayload (F : Type 0) : Type 0 where
  list_devices_request : MessagePayload F
  list_devices_response : (devices : List DeviceInfo) → MessagePayload F
  attach_device_request : (device_id : ℕ) → MessagePayload F
  attach_device_response : (result : Result ℕ AttachError) → MessagePayload F
  detach_device_request : (handle : ℕ) → MessagePayload F
  detach_device_response : (result : Result (Unit {0}) DetachError) → MessagePayload F
  submit_transfer : (request : UsbRequest) → MessagePayload F
  transfer_complete : (response : UsbResponse) → MessagePayload F
  ping : MessagePayload F
  pong : MessagePayload F
  heartbeat : (sequence : ℕ) → (timestamp_ms : ℕ) → MessagePayload F
  heartbeat_ack :
      (sequence : ℕ) → (client_timestamp_ms : ℕ) → (server_timestamp_ms : ℕ) → MessagePayload F
  error : (message : String) → MessagePayload F
  device_arrived_notification : (device : DeviceInfo) → MessagePayload F
  device_removed_notification :
      (device_id : ℕ)
      → (invalidated_handles : List ℕ) → (reason : DeviceRemovalReason) → MessagePayload F
  client_capabilities : (supports_push_notifications : Bool) → MessagePayload F
  server_capabilities : (will_send_notifications : Bool) → MessagePayload F
  force_detach_warning :
      (handle : ℕ)
      → (device_id : ℕ) → (reason : ForceDetachReason) → (seconds_until_detach : ℕ)
      → MessagePayload F
  forced_detach_notification :
      (handle : ℕ) → (device_id : ℕ) → (reason : ForceDetachReason) → MessagePayload F
  device_status_changed_notification :
      (device_id : ℕ)
      → (device_info : Option DeviceInfo) → (reason : DeviceStatusChangeReason) → MessagePayload F
  aggregated_notifications : (notifications : List AggregatedNotification) → MessagePayload F
  get_metrics_request : MessagePayload F
  get_metrics_response : (metrics : ServerMetricsSummary F) → MessagePayload F
  client_metrics_update : (metrics : ProtocolMetrics F) → MessagePayload F
  get_sharing_status_request : (device_id : ℕ) → MessagePayload F
  get_sharing_status_response : (result : Result DeviceSharingStatus AttachError) → MessagePayload F
  lock_device_request : (handle : ℕ) → (write_access : Bool) → (timeout_secs : ℕ) → MessagePayload F
  lock_device_response : (result : LockResult) → MessagePayload F
  unlock_device_request : (handle : ℕ) → MessagePayload F
  unlock_device_response : (result : UnlockResult) → MessagePayload F
  queue_position_notification : (update : QueuePositionUpdate) → MessagePayload F
  device_available_notification :
      (device_id : ℕ) → (handle : ℕ) → (sharing_mode : SharingMode) → MessagePayload F
  interrupt_data :
      (handle : ℕ)
      → (endpoint : ℕ) → (sequence : ℕ) → (bytes : List ℕ) → (timestamp_us : ℕ) → (checksum : ℕ)
      → MessagePayload F
  interrupt_nack :
      (handle : ℕ)
      → (endpoint : ℕ) → (missing_sequences : List ℕ) → (last_contiguous_seq : ℕ) → MessagePayload F
  interrupt_ack :
      (handle : ℕ) → (endpoint : ℕ) → (last_seq : ℕ) → (reports_received : ℕ) → MessagePayload F
  start_interrupt_stream_request :
      (handle : ℕ) → (endpoint : ℕ) → (buffer_hint : ℕ) → MessagePayload F
  start_interrupt_stream_response :
      (handle : ℕ)
      → (endpoint : ℕ) → (result : Result InterruptStreamInfo String) → MessagePayload F
  stop_interrupt_stream_request : (handle : ℕ) → (endpoint : ℕ) → MessagePayload F
  stop_interrupt_stream_response :
      (handle : ℕ) → (endpoint : ℕ) → (stats : Option InterruptStreamStats) → MessagePayload F

pub record Message (F : Type 0) : Type 0 where
  pub version : ProtocolVersion
  pub payload : MessagePayload F
