-- ===== src/Ingestion/Ending.antt =====
-- ingest.py, `ingest`: what it leaves of the version that its outcome names.
use cogno_engram.Documents.State.{Documents}
