-- ===== src/Node.antt =====
-- PICA_node.c: the node.
pub mod Wbuf
pub mod State
pub mod Ids
pub mod Tree
pub mod CcLinks
pub mod LinkStates
pub mod Newconns
pub mod Invariant
pub mod ClientMsgs
pub mod NodeMsgs
pub mod Nodelist
pub mod Tables
