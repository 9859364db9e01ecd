-- ===== src/Review.antt =====
-- internal/review: the case queue, with internal/model/review.go and its store.
pub mod Status
pub mod Queue
pub mod Reanalysis
pub mod Untouched
pub mod Laws
pub mod Once
pub mod Cases
