-- ===== src/Mng.antt =====
-- src/server/mng.c: the management protocol, in parts.
pub mod Text
pub mod Numbers
pub mod Access
pub mod Replies
pub mod Commands
pub mod Session
pub mod Stream
pub mod LongLines
mod Sending
pub mod Talk
pub mod Delivery
