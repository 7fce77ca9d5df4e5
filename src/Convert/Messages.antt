-- ===== src/Convert/Messages.antt =====
-- The messages of src/proto/*.rs, generated from proto/*.proto, as far as the code sets or reads them.
-- Text that the code cuts is its UTF-8 bytes, a label is a native string.
use emerald_rs.Prelude.{ℕ, String, Bool, Option, List}

-- src/proto/common.rs
pub data FileType : Type 0 where
  file_unknown file_wallet file_pk file_seed file_book : FileType

pub data BlockchainId : Type 0 where
  chain_unspecified chain_bitcoin chain_grin chain_ethereum chain_ethereum_classic : BlockchainId
  chain_lightning chain_kovan chain_testnet_bitcoin chain_floonet : BlockchainId

-- `ProtobufEnum::value`
unfoldable pub blockchain_id_value : BlockchainId → ℕ
blockchain_id_value BlockchainId.chain_unspecified = 0
blockchain_id_value BlockchainId.chain_bitcoin = 1
blockchain_id_value BlockchainId.chain_grin = 2
blockchain_id_value BlockchainId.chain_ethereum = 100
blockchain_id_value BlockchainId.chain_ethereum_classic = 101
blockchain_id_value BlockchainId.chain_lightning = 1001
blockchain_id_value BlockchainId.chain_kovan = 10002
blockchain_id_value BlockchainId.chain_testnet_bitcoin = 10003
blockchain_id_value BlockchainId.chain_floonet = 10004

-- src/proto/address.rs
pub data ProtoAddressType : Type 0 where
  unspecified bitcoin_p2wpkh bitcoin_p2wsh bitcoin_p2pkh bitcoin_p2sh : ProtoAddressType
  bitcoin_p2wpkh_p2sh bitcoin_p2wsh_p2sh ethereum : ProtoAddressType

pub record ProtoBip32Public : Type 0 where
  pub level : ℕ
  pub parent_fingerprint : ℕ
  pub child_number : ℕ
  pub chaincode : List ℕ
  pub point : List ℕ
  pub address_type : ProtoAddressType
  pub network : BlockchainId

pub data ProtoAddressRefType : Type 0 where
  xpub : ProtoBip32Public → ProtoAddressRefType
  plain_address : List ℕ → ProtoAddressRefType

pub record ProtoAddress : Type 0 where
  pub address_type : Option ProtoAddressRefType

-- src/proto/crypto.rs
pub record ProtoScryptKdf : Type 0 where
  pub dklen : ℕ
  pub salt : List ℕ
  pub n : ℕ
  pub r : ℕ
  pub p : ℕ

pub data ProtoPrfType : Type 0 where
  prf_unknown prf_hmac_sha256 : ProtoPrfType

pub record ProtoPbkdf2 : Type 0 where
  pub dklen : ℕ
  pub c : ℕ
  pub prf : ProtoPrfType
  pub salt : List ℕ

pub data ProtoMacType : Type 0 where
  mac_unknown mac_web3 : ProtoMacType

pub record ProtoMac : Type 0 where
  pub field_type : ProtoMacType
  pub value : List ℕ

pub data ProtoCipherType : Type 0 where
  cipher_unknown cipher_aes128_ctr : ProtoCipherType

pub data ProtoKdfType : Type 0 where
  kdf_scrypt : ProtoScryptKdf → ProtoKdfType
  kdf_pbkdf : ProtoPbkdf2 → ProtoKdfType

pub record ProtoEncrypted : Type 0 where
  pub field_type : ProtoCipherType
  pub secret : List ℕ
  pub iv : List ℕ
  pub mac : Option ProtoMac
  pub kdf_type : Option ProtoKdfType

-- src/proto/seed.rs
pub record ProtoHdPath : Type 0 where
  pub purpose : ℕ
  pub coin : ℕ
  pub account : ℕ
  pub change : ℕ
  pub index : ℕ

pub record ProtoSeedHd : Type 0 where
  pub seed_id : List ℕ
  -- `get_path`: the default message where the field is not set
  pub path : ProtoHdPath

pub record ProtoHdFingerprint : Type 0 where
  pub path : ProtoHdPath
  pub fingerprint : List ℕ

pub record ProtoLedgerSeed : Type 0 where
  pub fingerprints : List ProtoHdFingerprint

pub data ProtoSeedType : Type 0 where
  bytes : ProtoEncrypted → ProtoSeedType
  ledger : ProtoLedgerSeed → ProtoSeedType

pub record ProtoSeed : Type 0 where
  pub file_type : FileType
  pub id : List ℕ
  pub label : String
  pub created_at : ℕ
  pub seed_source : Option ProtoSeedType

-- src/proto/pk.rs. Of the kinds of key only `ethereum` is written or read; another one is `other`.
pub record ProtoEthereumPk3 : Type 0 where
  pub address : List ℕ
  pub value : Option ProtoEncrypted

pub record ProtoEthereumPrivateKey : Type 0 where
  pub pk : Option ProtoEthereumPk3

pub data ProtoPkType : Type 0 where
  ethereum : ProtoEthereumPrivateKey → ProtoPkType
  other : ProtoPkType

pub record ProtoPrivateKey : Type 0 where
  pub file_type : FileType
  pub id : List ℕ
  pub created_at : ℕ
  pub pk : Option ProtoPkType

-- src/proto/wallet.rs
pub record ProtoReserved : Type 0 where
  pub seed_id : List ℕ
  pub account_id : ℕ

pub data ProtoWalletEntryPkType : Type 0 where
  hd_path : ProtoSeedHd → ProtoWalletEntryPkType
  pk_id : List ℕ → ProtoWalletEntryPkType

pub record ProtoWalletEntry : Type 0 where
  pub id : ℕ
  pub blockchain_id : ℕ
  pub receive_disabled : Bool
  pub address : Option ProtoAddress
  pub label : String
  pub created_at : ℕ
  pub pk_type : Option ProtoWalletEntryPkType

pub record ProtoWallet : Type 0 where
  pub file_type : FileType
  pub id : List ℕ
  pub label : String
  pub hd_accounts : List ProtoReserved
  pub entries : List ProtoWalletEntry
  pub entry_seq : ℕ
  pub created_at : ℕ

-- src/proto/book.rs
pub record ProtoBookItem : Type 0 where
  pub file_type : FileType
  pub label : String
  pub description : String
  pub blockchain : ℕ
  pub address : Option ProtoAddress
  pub created_at : ℕ
