-- ===== src/Tests.antt =====
-- The theorems at concrete inputs: a phone and a tablet on one endpoint.
pub mod Data
pub mod Fractions
pub mod Wire
pub mod Control
pub mod Input
pub mod Devices
pub mod FullScreen
pub mod Shell
pub mod Panel
pub mod Dialog
pub mod Stream
pub mod Files
pub mod Transfer
