-- ===== src/Antievasion.antt =====
-- internal/antievasion: protections against the evasion of detection, which nothing else uses yet.
pub mod Window
pub mod Schedule
pub mod Delay
pub mod Release
