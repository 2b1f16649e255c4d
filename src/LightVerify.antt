-- ===== src/LightVerify.antt =====
-- src/bin/light_verify.rs: the offline checker of a lookup bundle, with what it prints on the standard
-- output and its exit code. Code 101 is a panic.
pub mod Flow
pub mod Args
pub mod Report
pub mod Main
