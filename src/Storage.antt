-- ===== src/Storage.antt =====
-- internal/storage/sqlite: the durable record of recommendations.
pub mod Claim
pub mod Shared
