-- ===== src/Chains/Ids.antt =====
-- The numbers that stand for a blockchain in stored data determine it.
use emerald_rs.Prelude.{ℕ, ◌≡◌, refl, ◌↔◌, arith, some, ok}
use emerald_rs.Chains.{
  Blockchain, EthereumChainId, BlockchainType, as_u32, blockchain_of_u32, chain_id_of,
  blockchain_of_chain, get_type,
}

-- A number is read as a blockchain exactly when it is the number that this blockchain is stored by.
pub blockchain_of_u32-as_u32 :
    (n : ℕ) (b : Blockchain) → (blockchain_of_u32 n ≡ ok b) ↔ (as_u32 b ≡ n)
unfolding blockchain_of_u32 as_u32
blockchain_of_u32-as_u32 n b = (λ h. ground arith, λ h. ground arith)

-- The chain id of an Ethereum blockchain reads back as the same blockchain.
pub chain_id_lem :
    (b : Blockchain)
    → (get_type b ≡ BlockchainType.ethereum)
      ↔ ((c : EthereumChainId) × (chain_id_of b ≡ some c) × (blockchain_of_chain c ≡ ok b))
unfolding chain_id_of blockchain_of_chain get_type
chain_id_lem Blockchain.bitcoin = (λ h. cc, λ h. cc (h.1))
chain_id_lem Blockchain.bitcoin_testnet = (λ h. cc, λ h. cc (h.1))
chain_id_lem Blockchain.ethereum = (λ h. (EthereumChainId.ethereum, refl, refl), λ h. refl)
chain_id_lem Blockchain.ethereum_classic =
    (λ h. (EthereumChainId.ethereum_classic, refl, refl), λ h. refl)
chain_id_lem Blockchain.kovan_testnet = (λ h. (EthereumChainId.kovan, refl, refl), λ h. refl)
