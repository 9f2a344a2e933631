-- ===== src/Socks5.antt =====
-- src/shared/socks5.c: a session of the SOCKS5 proxy, in parts.
pub mod States
pub mod Types
pub mod System
pub mod Hello
pub mod Auth
pub mod Log
pub mod Request
pub mod Release
pub mod Connecting
pub mod Copy
pub mod Engine
pub mod Active
pub mod Lifecycle
pub mod Wiring
pub mod Rules
pub mod Frame
pub mod Gate
pub mod Answers
pub mod Pumping
pub mod Flow
pub mod Relay
