-- ===== src/Protocol/Version.antt =====
-- Which versions are accepted: crates/protocol/src/version.rs and `validate_version` of codec.rs.
use rust_p2p_usb.Base.{◌<◌, ◌≡◌, ◌↔◌, false, ok, arith}
use rust_p2p_usb.Protocol.Messages.{ProtocolVersion}
use rust_p2p_usb.Protocol.Codec.{current_version, is_compatible_with, validate_version}

-- Of the versions that `validate_version` accepts, `is_compatible_with` refuses (for the current
-- version) exactly those of a newer minor version.
pub validate_version-is_compatible_with :
    {E : Type 0} (v : ProtocolVersion)
    → validate_version {E = E} v ≡ ok tt
    → (is_compatible_with current_version v ≡ false) ↔ (current_version.minor < v.minor)
unfolding validate_version is_compatible_with
validate_version-is_compatible_with v accepted = ground arith
