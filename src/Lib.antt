-- ===== src/Lib.antt =====
-- The core of the Emerald Vault: wallets whose entries refer to private keys and seeds, each stored
-- under its identifier and encrypted with a password.
--
-- Parts, and the code that they model (paths from the root of the repository):
--   Util        src/util.rs: byte strings and numbers.
--   Chains      src/blockchain/chains.rs: blockchains, their numbers and networks.
--   Structs     src/structs/*.rs, src/storage/error.rs, src/convert/error.rs: wallets, entries, keys,
--               seeds, errors; `Wallet::get_entry` and `next_entry_id`; the order by date.
--   Mnemonic    src/mnemonic.rs and src/mnemonic/language.rs: BIP-39 phrases from entropy; `Sentence` has
--               their texts, the word list of a text and seeds.
--   Crypto      src/crypto/encrypted.rs, kdf.rs and pk.rs: encrypted secrets and stored keys.
--   Bitcoin     src/blockchain/bitcoin.rs, `validate` of src/sign/bitcoin.rs and `get_address` of
--               src/storage/vault_bitcoin.rs: extended keys, paths and amounts. `Addresses` is
--               src/blockchain/addresses.rs, `find_path` and `get_addresses` of
--               src/structs/wallet.rs.
--   Ethereum    src/blockchain/ethereum/address.rs, transaction.rs and signature.rs: addresses and their
--               texts, the fields of a transaction that are hashed, signed and sent. `Sign` is
--               src/sign/ethereum.rs with the private keys of src/sign/key_source.rs.
--   Convert     src/convert/proto/*.rs: wallets, keys, seeds and bookmarks as messages and bytes.
--               `Messages` has the fields of src/proto/*.rs that are set or read, `Crates` the other
--               libraries; each part has its reading and writing, and what is read back in RoundTrip.
--               `Json` is src/convert/json/*.rs, the key files of version 3.
--   Storage     src/storage/vault.rs, vault_ethereum.rs, vault_bitcoin.rs, entry.rs, archive.rs and
--               addressbook.rs.
--               `Access` is the trait `VaultAccess` with what its clients rely on, `AddEntry` puts
--               entries into wallets, `VaultStorage` changes and removes them and creates wallets.
--               `Disk` is the file system, `Archive` takes what is replaced or removed, `Files` is
--               `StandardVaultFiles` with `safe_update`, `Recovery` is `revert_backups`, `Standard`
--               is `VaultStorage::create` and `remove_wallet`, and `Items` joins the files with the
--               bytes of Convert. `Csv` are the files of the address book, `Bookmarks` its rows,
--               and `AddressBook` its operations.
--   Migration   src/migration/types.rs, source/json_data.rs, source/common.rs and
--               source/v1.rs: key files of old vaults and the wallets that they become.
--   Tests       concrete parameters and runs.
--
-- How code is written here. A function is one of the same name; a struct is a record, an enum a data
-- type. `Result` and `?` are the type `Result` with do blocks. An operation on a storage takes a state
-- and returns its result with the state that it leaves, after an error too. Bytes and machine
-- integers are natural numbers, with `% 2 ^ w` where the code can leave the width. An identifier is
-- the number of its 16 bytes, a date the number of nanoseconds since 1970. What the code takes from
-- the random generator, the clock or a hardware key is an argument; a random generator that fails is
-- `none`.
--
-- Parameters stand for other crates, as records of functions with laws that they document: `BigEndian`
-- (byteorder), `Crates` of Mnemonic (num, sha2), `CryptoLib` (scrypt, pbkdf2, aes-ctr, sha3,
-- secp256k1), `KeyLib` (bitcoin, hdpath) and `TextLib` (the Base58 of bitcoin, byteorder). The word
-- list of a language is a parameter too. The operations of `VaultAccess` are a parameter of Storage:
-- `IsVault` says what reads back of what was written when an operation succeeds, which is nothing if
-- it cannot be read, and promises nothing of one that fails; `Keeps` says that two storages do not
-- disturb each other, and `IsVaultStorage` has both for the storages of a vault. The storage of
-- Tests/Memory.antt has these laws; Storage/Files and Storage/Standard are about the files of a
-- directory.
--
-- A disk is a state with the operations of `FileSystem`, each of which can fail. `IsFileSystem` says
-- what a successful operation does to the paths that it names, that a failed rename changes nothing,
-- and that other paths are left alone; what a failed write or move leaves at its own path is open.
-- `IsReliable`, where it is assumed, says that reads, renames to a free name and writes succeed.
-- Paths are values of a type of their own: `Paths` has the operations of std::path and the matches of
-- the regular expressions, `IsVaultPaths` and `IsBackupPaths` what the names of items, backups and
-- archives promise. `ConvertLib` stands for uuid, chrono, hdpath, hex and the keys of bitcoin, `Wire`
-- for the bytes of a message of protobuf, `Hex` for hex, `EthereumLib` for rlp, sha3 and
-- secp256k1, `SecretLib` for secp256k1, hdpath and the derivation of private keys. Tests/Disk.antt is
-- a disk, which can be full, and Tests/Messages.antt has a format for the messages.
--
-- The address book is over `CsvFiles`, the steps of the csv crate on a file, each of which can fail:
-- `IsCsvFiles` says what rows a file holds after a step that succeeds, `IsReliableCsv`, where it is
-- assumed, that the steps do succeed. `BookTexts` stands for uuid and base64. Tests/Books.antt has such
-- files. `HdLib` stands for the child keys of the bitcoin crate, `Addresses` for the traits of an
-- address type. `KeyFileLib` and `MigrationLib` stand for serde, hex, hdpath and sha2, `OldVault` for
-- what glob, std::fs and serde read of an old vault. A panic is `none` in the reading of key files and
-- in `find_path`, and an error of its own elsewhere.
--
-- Loops are structural: that of `get_indexes` counts the rounds left, that of `checksum_bits` its
-- shifts, and the recursion of `bytes_count` is on the accessibility of its argument. None has fuel.
--
-- Not modelled: the migration of V2 vaults, whose RocksDB files another crate reads, and
-- `auto_migrate`; the signing of Bitcoin transactions, which is that of the bitcoin crate and a device.
-- Messages of the log crate, and the panics of `unwrap` on a path that is no UTF-8, are left out.
mod Prelude
pub mod Util
pub mod Chains
pub mod Mnemonic
pub mod Structs
pub mod Crypto
pub mod Bitcoin
pub mod Ethereum
pub mod Convert
pub mod Storage
pub mod Migration
mod Tests
