-- ===== src/Convert.antt =====
-- src/convert/proto: what is stored of wallets, keys, seeds and bookmarks, as protobuf messages.
pub mod Messages
pub mod Crates
pub mod Secrets
pub mod Addresses
pub mod Paths
pub mod Wallets
pub mod Keys
pub mod Seeds
pub mod Books
pub mod Json
