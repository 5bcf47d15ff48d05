-- ===== src/Graph.antt =====
-- cogno_engram/adapters/in_memory.py, `InMemoryGraph`: nodes, edges, audience, curation and walk.
pub mod State
pub mod Write
pub mod Read
pub mod Remove
pub mod Walk
pub mod Valid
pub mod Curation
pub mod Privacy
