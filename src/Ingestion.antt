-- ===== src/Ingestion.antt =====
-- cogno_engram/ingest.py: from the bytes of an upload to the version that is served.
pub mod Outcome
pub mod Decode
pub mod Extract
pub mod Failing
pub mod Settling
pub mod Prepare
pub mod Commit
pub mod Settled
pub mod Committed
pub mod Prepared
pub mod Pace
pub mod Whole
pub mod Ending
pub mod Staged
pub mod Claimed
pub mod Serving
