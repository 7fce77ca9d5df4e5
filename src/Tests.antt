-- ===== src/Tests.antt =====
-- The parameters of the model at concrete functions, and the theorems at concrete inputs.
mod Instances
mod Memory
mod Bytes
mod Phrases
mod Keys
mod Vault
mod Codecs
mod Messages
mod Stored
mod Disk
mod Files
mod Signed
mod Books
mod Bookmarks
mod Sentences
mod Json
mod Addresses
mod Migrated
