-- ===== src/Cli.antt =====
-- packages/gkos-cli/src: the helpers of util, and the commands.
pub mod Json
pub mod Json5
pub mod Update
pub mod Merge
pub mod Script
pub mod Policy
pub mod Apply
pub mod Upgrade
