-- ===== src/Follower.antt =====
-- src/chain_follower.rs: the follower, which reads blocks from a node and pokes the kernel.
pub mod Monad
pub mod Keeps
pub mod Claims
pub mod Block
pub mod Apply
pub mod Scan
pub mod Tick
pub mod Previews
