-- ===== src/Documents.antt =====
-- cogno_engram/documents.py and `InMemoryDocumentStore` of cogno_engram/adapters/in_memory.py: the
-- documents of an owner, their versions, drafts and originals.
pub mod Rules
pub mod State
pub mod Manage
pub mod Ingest
pub mod Drafts
pub mod Removal
pub mod Reading
