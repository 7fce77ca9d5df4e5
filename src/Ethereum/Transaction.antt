-- ===== src/Ethereum/Transaction.antt =====
-- src/blockchain/ethereum/transaction.rs and the signatures of signature.rs: what is hashed and signed, and
-- what is sent.
pub mod Replay
use emerald_rs.Prelude.{
  ℕ, ◌+◌, ◌-◌, ◌*◌, ◌^◌, ◌%◌, ◌≡◌, leb, if◌then◌else◌, is_empty, Option, none, some, List, [], ◌∷◌,
  ◌++◌, take, drop, get_elem?, Result, ok, err, ok_or, ◌>>=◌, ◌>>◌,
}
use emerald_rs.Util.{trim_bytes, to_arr}
use emerald_rs.Chains.{EthereumChainId, as_chainid}
use emerald_rs.Structs.{EthereumAddress}
use emerald_rs.Ethereum.Address.{EthereumError, ecdsa_crypto}

pub record EthereumTransaction : Type 0 where
  pub nonce : ℕ
  pub gas_price : List ℕ
  pub gas_limit : ℕ
  pub to : Option EthereumAddress
  pub value : List ℕ
  pub data_bytes : List ℕ

pub record EthereumSignature : Type 0 where
  pub v : ℕ
  pub r : List ℕ
  pub s : List ℕ

-- What is appended to an `RlpStream`.
pub data Field : Type 0 where
  number : ℕ → Field
  octets : List ℕ → Field
  empty_data : Field

-- The `rlp` crate, Keccak-256 of `sha3`, and `secp256k1`: the recovery identifier and the 64 bytes of a
-- signature of a hash by a key.
pub record EthereumLib : Type 0 where
  pub out : List Field → List ℕ
  pub keccak256 : List ℕ → List ℕ
  pub sign_recoverable : List ℕ → List ℕ → Option (ℕ × List ℕ)

abbrev to_field : Option EthereumAddress → Field
to_field (some addr) = octets addr
to_field none = empty_data

abbrev data_field : List ℕ → Field
data_field bs = if is_empty bs then empty_data else octets bs

abbrev chain_fields : Option ℕ → List Field
chain_fields (some id) = number id ∷ empty_data ∷ empty_data ∷ []
chain_fields none = []

-- `to_rlp_raw`
unfoldable pub to_rlp_raw : EthereumTransaction → Option ℕ → List Field
unfolding trim_bytes
to_rlp_raw tx chain_id =
    (number tx.nonce
      ∷ octets (trim_bytes tx.gas_price)
      ∷ number tx.gas_limit
      ∷ to_field tx.to
      ∷ octets (trim_bytes tx.value)
      ∷ data_field tx.data_bytes
      ∷ [])
    ++ chain_fields chain_id

-- The sum is of 16 bits, the stamp of 8.
abbrev pub stamped : ℕ → Option ℕ → ℕ
stamped v none = v
stamped v (some chain_id) =
    let stamp = (chain_id * 2 + 35 - 27) % 2 ^ 8 in if leb (v + stamp) 0xff then v + stamp else v

abbrev byte_at : ℕ → List ℕ → ℕ
byte_at i bs = elim (get_elem? bs i) [ some b ↦ b | none ↦ 0 ]

-- `From<[u8; 65]> for EthereumSignature`
unfoldable pub signature_of : List ℕ → EthereumSignature
signature_of bs = record { v = byte_at 0 bs; r = take 32 (drop 1 bs); s = take 32 (drop 33 bs) }

module _ (lib : EthereumLib) where
  unfoldable pub to_rlp : EthereumTransaction → Option ℕ → List ℕ
  unfolding to_rlp_raw
  to_rlp tx chain_id = lib.out (to_rlp_raw tx chain_id)

  unfoldable pub hash : EthereumTransaction → ℕ → List ℕ
  unfolding to_rlp_raw
  hash tx chain = lib.keccak256 (lib.out (to_rlp_raw tx (some chain)))

  -- `raw_from_sig`
  unfoldable pub raw_from_sig : EthereumTransaction → Option ℕ → EthereumSignature → List ℕ
  unfolding to_rlp_raw trim_bytes
  raw_from_sig tx chain sig = lib.out (
      to_rlp_raw tx none
      ++ number (stamped sig.v chain % 2 ^ 8)
        ∷ octets (trim_bytes sig.r)
        ∷ octets (trim_bytes sig.s)
        ∷ [])

  -- `EthereumPrivateKey::sign_hash`
  unfoldable pub sign_hash : List ℕ → List ℕ → Result EthereumError EthereumSignature
  unfolding signature_of
  sign_hash pk hash' = do
    signed ← ok_or ecdsa_crypto (lib.sign_recoverable hash' pk)
    ok (signature_of ((signed.0 + 27) % 2 ^ 8 ∷ take 64 signed.1))

  unfoldable pub to_signed_raw :
      EthereumTransaction → List ℕ → EthereumChainId → Result EthereumError (List ℕ)
  unfolding sign_hash hash raw_from_sig
  to_signed_raw tx pk chain = do
    sig ← sign_hash pk (hash tx (as_chainid chain))
    ok (raw_from_sig tx (some (as_chainid chain)) sig)
