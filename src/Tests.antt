-- ===== src/Tests.antt =====
-- Runs of the models on small inputs, and each result of the library applied to one.
mod Io
mod Wire
mod Tables
mod Machine
mod Arguments
pub mod Session
pub mod Gate
pub mod Relay
mod Answers
mod Live
mod Serving
mod Events
mod Manage
