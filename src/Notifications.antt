-- ===== src/Notifications.antt =====
-- app/notifications: the notification center and its e-mail copies.
pub mod Types
pub mod Email
pub mod Notify
pub mod Retry
pub mod Dispatch
pub mod Reading
pub mod Cursor
pub mod Listing
