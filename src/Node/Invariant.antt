-- ===== src/Node/Invariant.antt =====
-- PICA_node.c: the invariant of the node between two messages.
pub mod Defs
pub mod Stores
pub mod Prims
pub mod Added
