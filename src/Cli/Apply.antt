-- ===== src/Cli/Apply.antt =====
-- packages/gkos-cli/src/commands/config-apply.ts and what it uses of util/openclaw.ts, runtime.ts and
-- lockfile.ts. The files and the other programs are a host that answers each call as it likes, knowing
-- the calls so far, so other writers may change the files between two calls. A log has the calls,
-- latest first.
pub mod Machine
pub mod Owned
pub mod Fragments
pub mod Commit
pub mod Found
pub mod Reconcile
pub mod Sound
pub mod Calm
pub mod Surveying
pub mod Guarded
pub mod Surveyed
pub mod Settled
pub mod Committed
pub mod Recorded
