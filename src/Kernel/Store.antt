-- ===== src/Kernel/Store.antt =====
-- packages/gkos-kernel/src/store.ts: the tables of the kernel's database and its prepared statements.
pub mod State
pub mod Grants
pub mod Actions
pub mod Requests
pub mod Audience
pub mod Commands
pub mod WellFormed
pub mod Authority
pub mod Claims
pub mod Lockdown
pub mod SingleUse
