-- ===== src/Scoring.antt =====
-- internal/scoring: the suspicion scorer.
pub mod Category
pub mod Scorer
pub mod Gates
pub mod Ingest
pub mod Bonus
pub mod Total
pub mod History
pub mod Once
pub mod Silent
pub mod Cap
pub mod Keys
pub mod Idempotent
pub mod Flags
