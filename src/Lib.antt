-- ===== src/Lib.antt =====
-- A verification library for cogno-engram, the memory of an assistant: its in-memory adapters, which
-- are the executable statement of the rules that every adapter has to follow, and the pure rules that
-- they apply.
--
-- The parts, and how they interact. A host keeps the turns of a conversation in a store and, for the
-- running session, in a buffer; it distils them to memories in the store and to nodes and edges in a
-- graph; and it serves documents, whose versions are ingested in two steps: prepare extracts the text
-- of an upload, cuts it into chunks and parks them as a draft, and commit embeds the chunks, stages
-- them in the document store and serves them. Store, buffer and graph are isolated by scope, documents
-- by owner and profile, edges further by audience. A prompt shows the graph as a block of text, and
-- the maintenance prunes and classifies what store and graph keep. A write that the store does not
-- perform is counted and announced by the write-loss channel.
--
-- Which file models which code:
--   Prelude     lists, tests, sorting and integers over the native numbers; no code of the repository
--   Text        Python's str as code points: equality, strip, startswith, split
--   Errors      what the adapters raise, and results that may be an exception
--   Types       cogno_engram/types.py: sanitize_edge_status, require_edge_status, audience_for,
--               sanitize_audience, audience_can_read (Types/Status, Types/Audience), the records
--               (Types/Records)
--   Folding     cogno_engram/folding.py: fold_label, has_diacritics
--   WriteLoss   cogno_engram/write_loss.py: record, subscribe, reset and the counters
--   Graph       cogno_engram/adapters/in_memory.py, InMemoryGraph: State (the nodes and the edges),
--               Write (upsert_node, upsert_edge, set_edge_status, set_edge_audience), Read (find_node to
--               scan_nodes), Walk (walk), Remove (has_edges to purge_scope)
--   Store       the same file, InMemoryStore: State, Sessions (create_session to get_active_session),
--               Turns (save_turn to admin_scopes), Traces (save_turn_trace to admin_traces, with the
--               window of cogno_engram/trace_policy.py), Memories (save_memory to delete_memories), Purge
--   Buffer      the same file, InMemoryBuffer: push, window, clear
--   Chunking    cogno_engram/chunking.py: Config, Split (_split_long, _tail), Pack (_pack), Join
--               (join_passages), Lines (_normalise, _FENCE, _paragraphs, _HEADING), Emit (_Emitter),
--               Markdown (chunk_markdown), Paged (_outline_paths, chunk_pages), Passage and Content
--               (chunk_text, _content, _path)
--   Ingestion   cogno_engram/ingest.py: Outcome (IngestOutcome, estimate_tokens), Decode (the codec
--               utf-8-sig), Extract (_extract, with read_extracted of cogno_engram/documents.py), Failing
--               (_fail), Prepare (prepare), Commit (_embed, commit), Pace (TokensPerMinute), Whole (ingest,
--               reindex, discard_draft and the sweeps)
--   Documents   cogno_engram/documents.py (Rules) and InMemoryDocumentStore of the same adapter: State
--               (_DocRow, _VersionRow and the tables), Manage (create_document to get_original), Ingest
--               (begin_version to get_version), Drafts (save_draft to interrupt_stale), Removal
--               (delete_document to stored_original_bytes), Reading (_served, read_served, version_text,
--               stale_documents)
--   GraphContext
--               cogno_engram/graph_context.py: ingest_entities, _detail, format_graph_context
--   Maintenance cogno_engram/maintenance.py: prune_memories, prune_orphan_nodes,
--               classify_edge_audience
--   Tests       sample data, and the theorems applied to it
-- A module below one of these is named for what it proves of it.
--
-- How code is written here. An object is a record of its attributes, a method is a function from the
-- object's state to a result that holds the new state, and an exception is an error in that result. No
-- method of these adapters awaits, so a call is one step. The ingestion awaits its host: what the host
-- answers, an exception or a cancellation too, is an argument, and what others do to the store
-- meanwhile is a function of the store; a step of it that ends in an exception hands over the store
-- as it is left. The maintenance and the ingestion of entities are modelled with nobody else at work. A dict is the list
-- of its entries in the order of insertion. A str is the list of its code points. A datetime is a
-- number of microseconds, and so is a duration that is added to one (the code converts its seconds
-- there). A confidence or a score that Python holds in a float is a number of fixed steps, and a
-- vector is a list of such numbers. The clock, a fresh id, the digest of a scope and Python's Unicode
-- database are arguments. Numbers of versions, ordinals and pages are natural, where the code takes
-- any int and refuses, or does not find, a negative one; limits are natural, since no caller passes a
-- negative one; the size of a window of the buffer is any int. An object that a caller could change
-- afterwards through an alias is copied by the code, or kept and never changed here.
--
-- Fuel. The loop of walk runs on fuel, two more than twice the number of edges: a label enters the
-- frontier once, and every label but the first is the end of an edge. Reading on from next_after is a
-- client's loop on fuel: every slice but the last shows a chunk that none before it showed, so that
-- one slice for each chunk and one more are enough. The loop of _split_long runs on the length of its
-- text and one more, since every cut lies behind at least one character; the staging of batches runs
-- on the number of the chunks; and the digits of a number on the number and one more. All other loops
-- are structural.
--
-- Not modelled: searches and rankings by floating-point scores (load_memories, search and
-- find_nodes_by_embedding), readable_documents and graph_stats, locks, logs, and what a callback does.
-- Of ingest.py documents_probe is left out, which fills in a health report, and of maintenance.py the
-- re-embedding. The files hypnos and lexical are left out; ports.py declares signatures only, and the
-- adapters for Postgres and Redis, the reranker, the migration script, the benchmark and the examples
-- are I/O to external services or run over them.
pub mod Prelude
pub mod Text
pub mod Errors
pub mod Folding
pub mod Types
pub mod Graph
pub mod GraphContext
pub mod Tests
pub mod WriteLoss
pub mod Store
pub mod Buffer
pub mod Chunking
pub mod Documents
pub mod Ingestion
pub mod Maintenance
