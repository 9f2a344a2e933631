-- ===== src/Parsers.antt =====
-- The three incremental parsers of the SOCKS5 negotiation, and the loop that they share.
pub mod Consume
pub mod Draining
pub mod Pieces
pub mod Hello
pub mod Auth
pub mod Request
