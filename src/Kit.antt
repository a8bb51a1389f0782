-- ===== src/Kit.antt =====
-- packages/gatekeeper-kit/src
pub mod OauthNonce
pub mod Driver
pub mod Sequencer
pub mod TokenStore
