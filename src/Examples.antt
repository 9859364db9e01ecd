-- ===== src/Examples.antt =====
-- Concrete inputs on which the theorems are evaluated, with decimal scores.
pub mod Samples
mod Scoring
mod Enforce
mod Review
mod Pipeline
mod Bridge
pub mod Frames
mod Desktop
mod Ingest
mod Antievasion
mod Replay
mod Sender
mod Emission
mod Live
