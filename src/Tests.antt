-- ===== src/Tests.antt =====
-- Sample data, and each theorem with hypotheses at an input where they hold.
pub mod Samples
pub mod StoreSamples
pub mod DocumentSamples
mod Types
mod Graph
mod Numbering
mod Revision
mod Upkeep
mod Upsert
mod Retention
mod Isolation
mod Window
mod Counting
mod Claim
mod Commit
mod Served
mod Pages
mod Complete
mod Purge
mod Staging
mod Failure
mod Begin
mod Settled
mod Privacy
mod Verdict
mod Passages
mod Serving
