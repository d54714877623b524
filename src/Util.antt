-- ===== src/Util.antt =====
-- pkg/util: what is neither a cache nor an API.
pub mod Trie
pub mod Retry
pub mod Resource
pub mod NatPrefix
