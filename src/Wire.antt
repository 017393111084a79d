-- ===== src/Wire.antt =====
-- The binary control protocol (assets/web/static/js/control.js): how numbers and texts become
-- bytes, and the messages that are built from them.
pub mod Bytes
pub mod Text
pub mod VarInt
pub mod Fields
pub mod Codes
pub mod Message
