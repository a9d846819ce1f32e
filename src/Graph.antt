-- ===== src/Graph.antt =====
-- causal_continuity_engine/graph.py: the versioned, bi-temporal graph.
pub mod Table
pub mod Rows
pub mod Nodes
pub mod Reads
pub mod Edges
pub mod Adjacent
pub mod Traverse
