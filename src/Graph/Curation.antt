-- ===== src/Graph/Curation.antt =====
-- in_memory.py: what a write may do to a human verdict and to an edge's audience.
use cogno_engram.Graph.State.{Graph}
