-- ===== src/Cleanup.antt =====
-- The removal of a project's runtime: cmd/brain/cleanup.go.
pub mod Retry
pub mod Pauses
pub mod Listing
pub mod Removal
pub mod Clearing
pub mod Steps
pub mod Outcome
