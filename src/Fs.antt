-- ===== src/Fs.antt =====
-- packages/gkos-gatekeeper-fs: the gatekeeper for directories.
pub mod Paths
pub mod Files
pub mod Journal
pub mod Transaction
pub mod Directory
