-- ===== src/Examples.antt =====
-- Runs of the code at concrete inputs.
pub mod Codec
pub mod Images
pub mod Instances
pub mod Services
pub mod Sessions
pub mod Streaming
pub mod Usb
pub mod Tracking
pub mod Settings
pub mod Inputs
