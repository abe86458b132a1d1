-- ===== src/Client.antt =====
-- internal/core/clientcfg: the deep link that carries a client's credentials.
pub mod Varint
pub mod DeepLink
pub mod Wire
pub mod Termination
pub mod Extract
pub mod Sharing
