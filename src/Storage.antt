-- ===== src/Storage.antt =====
-- The vault on disk: src/storage.
pub mod Access
pub mod AddEntry
pub mod VaultStorage
pub mod Disk
pub mod Archive
pub mod Files
pub mod Items
pub mod Recovery
pub mod Standard
pub mod Csv
pub mod Bookmarks
pub mod AddressBook
