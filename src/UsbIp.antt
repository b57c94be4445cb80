-- ===== src/UsbIp.antt =====
-- The USB/IP wire protocol of the virtual host controller:
-- crates/client/src/virtual_usb/usbip_protocol.rs.
pub mod Wire
pub mod Header
pub mod IsoPacket
pub mod CmdSubmit
pub mod Reply
pub mod Request
pub mod Response
pub mod Directions
mod Tests
