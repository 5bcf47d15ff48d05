-- ===== src/Store.antt =====
-- cogno_engram/adapters/in_memory.py, `InMemoryStore`: sessions, turns, traces and memories.
pub mod State
pub mod Sessions
pub mod Turns
pub mod Traces
pub mod Memories
pub mod Purge
