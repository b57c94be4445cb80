-- ===== src/Usb.antt =====
-- The server's side of the devices: crates/server/src/usb, with libusb as a parameter.
pub mod Transfers
pub mod Manager
pub mod Worker
pub mod Answers
mod Tests
