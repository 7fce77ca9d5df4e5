-- ===== src/Ethereum.antt =====
-- src/blockchain/ethereum: addresses, keys and transactions.
pub mod Address
pub mod Transaction
pub mod Sign
