-- ===== src/Samples.antt =====
-- Concrete functions in the place of the libraries that the program calls: with them the records
-- of laws have instances, and every definition runs. They are used by the tests only.
pub mod Nouns
pub mod Belts
pub mod Ledger
pub mod Kernels
pub mod Scanning
pub mod Sets
