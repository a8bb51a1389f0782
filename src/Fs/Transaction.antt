-- ===== src/Fs/Transaction.antt =====
-- `run` of packages/gkos-gatekeeper-fs/src/apply.ts. The names are the target and the stage beside it.
-- The host says how each call of the platform ends and what other writers do to the names at the
-- boundaries where the source has a hook; at any call the process can die, before or after its effect.
-- `lost` collects the files whose last name the transaction takes away.
pub mod Machine
pub mod Run
pub mod Ends
pub mod Keeps
pub mod Guards
pub mod Consistent
pub mod Stages
pub mod Settled
pub mod NoLostEdit
pub mod Losses
