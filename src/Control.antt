-- ===== src/Control.antt =====
-- Control messages on their way to the devices (assets/web/static/js/app.js).
pub mod Event
pub mod Device
pub mod Send
pub mod Actions
