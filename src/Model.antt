-- ===== src/Model.antt =====
-- internal/model: the vocabulary that the packages share.
pub mod Level
pub mod Event
pub mod Score
pub mod Phase
pub mod Vector
pub mod Observation
