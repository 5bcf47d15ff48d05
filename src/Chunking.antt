-- ===== src/Chunking.antt =====
-- cogno_engram/chunking.py: the passage of a chunk behind its heading path.
pub mod Passage
pub mod Config
pub mod Split
pub mod Pack
pub mod Join
pub mod Lines
pub mod Emit
pub mod Markdown
pub mod Paged
pub mod Content
