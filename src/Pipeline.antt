-- ===== src/Pipeline.antt =====
-- internal/pipeline: the validation of frames, the deduplication of emissions into incidents, and their cap.
pub mod RateLimit
pub mod Dedup
pub mod Conserve
pub mod Merge
pub mod Validator
pub mod Repairs
pub mod Settled
pub mod Sound
pub mod Faults
pub mod Health
pub mod Emission
pub mod Emit
pub mod Through
pub mod Gated
pub mod Run
pub mod Ledger
pub mod Quarantine
pub mod Weaken
