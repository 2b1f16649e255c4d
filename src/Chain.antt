-- ===== src/Chain.antt =====
-- src/chain.rs: the node's replies, and the inputs of one scan step.
pub mod Digest
pub mod TxOrder
pub mod Node
pub mod Queries
pub mod Fetch
pub mod Blocks
