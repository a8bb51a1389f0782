-- ===== src/Cli/Upgrade.antt =====
-- packages/gkos-cli/src/commands/update.ts: the commands `gkos update` and `gkos rollback`.
pub mod Versions
pub mod Machine
pub mod Runtime
pub mod Options
pub mod Compatibility
pub mod Restore
pub mod Command
pub mod Effects
pub mod Rollback
pub mod Outcome
