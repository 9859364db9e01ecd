-- ===== src/Enforce.antt =====
-- internal/enforce: what is recommended against a player, and when.
pub mod Action
pub mod Evidence
pub mod Engine
pub mod Config
pub mod Gates
pub mod Cooldown
pub mod Policy
