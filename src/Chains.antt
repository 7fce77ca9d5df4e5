-- ===== src/Chains.antt =====
-- src/blockchain/chains.rs: the supported blockchains and their numbers.
pub mod Ids
use emerald_rs.Prelude.{
  ℕ, Bool, true, false, ◌==◌, if◌then◌else◌, Option, none, some, Result, ok, err,
}

pub data EthereumChainId : Type 0 where
  ethereum ethereum_classic kovan : EthereumChainId

pub data BlockchainType : Type 0 where
  bitcoin ethereum : BlockchainType

pub data Blockchain : Type 0 where
  bitcoin bitcoin_testnet ethereum ethereum_classic kovan_testnet : Blockchain

-- The variants of `bitcoin::Network` that the code matches on.
pub data Network : Type 0 where
  bitcoin testnet regtest : Network

-- `blockchain as u32`
unfoldable pub as_u32 : Blockchain → ℕ
as_u32 Blockchain.bitcoin = 1
as_u32 Blockchain.bitcoin_testnet = 10003
as_u32 Blockchain.ethereum = 100
as_u32 Blockchain.ethereum_classic = 101
as_u32 Blockchain.kovan_testnet = 10002

unfoldable pub get_type : Blockchain → BlockchainType
get_type Blockchain.bitcoin_testnet = BlockchainType.bitcoin
get_type Blockchain.bitcoin = BlockchainType.bitcoin
get_type Blockchain.ethereum = BlockchainType.ethereum
get_type Blockchain.ethereum_classic = BlockchainType.ethereum
get_type Blockchain.kovan_testnet = BlockchainType.ethereum

unfoldable pub as_bitcoin_network : Blockchain → Network
as_bitcoin_network Blockchain.bitcoin = Network.bitcoin
as_bitcoin_network Blockchain.bitcoin_testnet = Network.testnet
as_bitcoin_network _ = Network.testnet

unfoldable pub is_mainnet : Blockchain → Bool
is_mainnet Blockchain.bitcoin = true
is_mainnet Blockchain.ethereum = true
is_mainnet Blockchain.ethereum_classic = true
is_mainnet _ = false

-- `EthereumChainId::from(blockchain)`; `none` is the panic on a blockchain that is not Ethereum.
unfoldable pub chain_id_of : Blockchain → Option EthereumChainId
chain_id_of Blockchain.ethereum = some EthereumChainId.ethereum
chain_id_of Blockchain.ethereum_classic = some EthereumChainId.ethereum_classic
chain_id_of Blockchain.kovan_testnet = some EthereumChainId.kovan
chain_id_of _ = none

-- `Blockchain::try_from(chain_id)`
unfoldable pub blockchain_of_chain : EthereumChainId → Result (Unit {0}) Blockchain
blockchain_of_chain EthereumChainId.ethereum = ok Blockchain.ethereum
blockchain_of_chain EthereumChainId.ethereum_classic = ok Blockchain.ethereum_classic
blockchain_of_chain EthereumChainId.kovan = ok Blockchain.kovan_testnet

-- `Blockchain::try_from(value: u32)`
unfoldable pub blockchain_of_u32 : ℕ → Result (Unit {0}) Blockchain
blockchain_of_u32 value =
    if value == 1
    then ok Blockchain.bitcoin
    else if value == 10003
    then ok Blockchain.bitcoin_testnet
    else if value == 100
    then ok Blockchain.ethereum
    else if value == 101
    then ok Blockchain.ethereum_classic
    else if value == 10002
    then ok Blockchain.kovan_testnet
    else err tt

unfoldable pub as_chainid : EthereumChainId → ℕ
as_chainid EthereumChainId.ethereum = 1
as_chainid EthereumChainId.kovan = 42
as_chainid EthereumChainId.ethereum_classic = 61
