-- ===== src/Kernel.antt =====
-- src/kernel.rs: the pokes and peeks that the hull sends to the Hoon kernel, and the decoders of
-- what comes back. The kernel itself is another program: here it is only nouns in and nouns out.
pub mod Types
pub mod Pokes
pub mod Effects
pub mod Peeks
pub mod Verify
pub mod Debug
pub mod Failure
