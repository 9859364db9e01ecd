-- ===== src/Ingest.antt =====
-- internal/ingest/source_auth.go and internal/config/source_grants.go: who may submit what.
pub mod Policy
pub mod Auth
pub mod Owner
pub mod Live
pub mod Batch
