-- ===== src/Tests.antt =====
-- Runs of the definitions on small inputs, and instances of the theorems.
mod Codecs
mod Wallets
mod Payments
mod Blocks
mod Follow
mod Kernels
mod Settings
mod Rounds
mod Progress
mod Phase
mod Advances
mod Api
