-- ===== src/Kernel.antt =====
-- packages/gkos-kernel/src
pub mod Store
pub mod Audit
pub mod Queue
pub mod Coordinator
pub mod Commands
