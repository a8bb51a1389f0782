-- ===== src/Tests.antt =====
-- Small inputs that the code is run on, and the theorems at inputs that meet their hypotheses.
mod Samples
mod Stores
mod Decisions
mod Transactions
mod Directories
mod Commands
mod Updates
mod Nonces
mod Drivers
mod Configs
mod Sequences
mod Tokens
mod Fragments
mod Applies
mod Rollbacks
