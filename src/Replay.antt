-- ===== src/Replay.antt =====
-- internal/replay: the spool that keeps the raw payloads of a match until it has been parsed.
pub mod Spool
pub mod Header
pub mod RoundTrip
pub mod Cut
pub mod Listing
