-- ===== src/Structs.antt =====
-- The data of the vault: src/structs/*.rs, src/blockchain/bitcoin.rs, src/storage/error.rs and
-- src/convert/error.rs. A `Uuid` is the number that its 16 bytes stand for, a `DateTime<Utc>` the
-- nanoseconds since 1970, a label a native string.
pub mod Wallets
pub mod Order
pub mod Roles
pub mod Secrets
use emerald_rs.Prelude.{
  ℕ, suc, ◌+◌, ◌%◌, ◌^◌, ◌==◌, ltb, max, if◌then◌else◌, String, Bool, true, false, not, ◌&&◌,
  Option, none, some, List, [], ◌∷◌, map, Result, ok, err, Ordering, compare,
}
use mathlib.Core.Option
use emerald_rs.Chains.{Blockchain, Network}

abbrev pub Uuid : Type 0
Uuid = ℕ

abbrev pub Instant : Type 0
Instant = ℕ

-- src/convert/error.rs
pub data ConversionError : Type 0 where
  invalid_argument invalid_length invalid_json : ConversionError
  invalid_field_value : String → ConversionError
  field_is_empty : String → ConversionError
  unsupported_value : String → ConversionError
  unsupported_version invalid_hex invalid_base58 csv_error invalid_protobuf io_error other_error :
      ConversionError

-- src/crypto/error.rs
pub data CryptoError : Type 0 where
  invalid_params invalid_key wrong_key : CryptoError
  unsupported_source : String → CryptoError
  no_entropy : CryptoError
  -- the panic of `GenericArray::from_slice` on a slice of another length
  slice_panic : CryptoError

-- src/storage/error.rs. The hardware key's error is a number here.
pub data VaultError : Type 0 where
  filesystem_error : String → VaultError
  unsupported_data_error : String → VaultError
  invalid_data_error : String → VaultError
  incorrect_id_error incorrect_blockchain_error : VaultError
  conversion_error : ConversionError → VaultError
  unrecognized_error password_required data_not_found invalid_private_key : VaultError
  private_key_unavailable public_key_unavailable : VaultError
  crypto_failed : CryptoError → VaultError
  hw_key_failed : ℕ → VaultError
  -- the panic of `EthereumChainId::from` on a blockchain of Bitcoin
  chain_panic : VaultError

-- src/structs/crypto.rs
pub record ScryptKdf : Type 0 where
  pub dklen : ℕ
  pub salt : List ℕ
  pub n : ℕ
  pub r : ℕ
  pub p : ℕ

pub data PrfType : Type 0 where
  hmac_sha256 hmac_sha512 : PrfType

pub record Pbkdf2 : Type 0 where
  pub dklen : ℕ
  pub c : ℕ
  pub salt : List ℕ
  pub prf : PrfType

pub data Kdf : Type 0 where
  scrypt : ScryptKdf → Kdf
  pbkdf2 : Pbkdf2 → Kdf

-- `MacType` has one variant, and so has `Cipher`.
pub data MacType : Type 0 where
  web3 : List ℕ → MacType

pub record Aes128CtrCipher : Type 0 where
  pub encrypted : List ℕ
  pub iv : List ℕ
  pub mac : MacType

pub data Cipher : Type 0 where
  aes128_ctr : Aes128CtrCipher → Cipher

pub record Encrypted : Type 0 where
  pub cipher : Cipher
  pub kdf : Kdf

-- The 20 bytes of an Ethereum address.
abbrev pub EthereumAddress : Type 0
EthereumAddress = List ℕ

-- The paths of the `hdpath` crate.
pub data Purpose : Type 0 where
  pubkey script_hash witness : Purpose
  custom : ℕ → Purpose

pub record StandardHdPath : Type 0 where
  pub purpose : Purpose
  pub coin_type : ℕ
  pub account : ℕ
  pub change : ℕ
  pub index : ℕ

pub record AccountHdPath : Type 0 where
  pub purpose : Purpose
  pub coin_type : ℕ
  pub account : ℕ

-- src/blockchain/bitcoin.rs
pub data AddressType : Type 0 where
  p2pkh p2sh p2wpkh_in_p2sh p2wsh_in_p2sh p2wpkh p2wsh : AddressType

-- `ExtendedPubKey` of the `bitcoin` crate.
pub record ExtendedPubKey : Type 0 where
  pub network : Network
  pub depth : ℕ
  pub parent_fingerprint : List ℕ
  pub child_number : ℕ
  pub chain_code : List ℕ
  pub public_key : List ℕ

pub record XPub : Type 0 where
  pub value : ExtendedPubKey
  pub address_type : AddressType

-- src/structs/book.rs. A Bitcoin address is the UTF-8 bytes of its text.
pub data AddressRef : Type 0 where
  ethereum_address : EthereumAddress → AddressRef
  extended_pub : XPub → AddressRef
  bitcoin_address : List ℕ → AddressRef

-- src/structs/pk.rs
pub record EthereumPk3 : Type 0 where
  pub address : Option EthereumAddress
  pub key : Encrypted

pub data PrivateKeyType : Type 0 where
  ethereum_pk : EthereumPk3 → PrivateKeyType

pub record PrivateKeyHolder : Type 0 where
  pub id : Uuid
  pub pk : PrivateKeyType
  pub created_at : Instant

-- src/structs/seed.rs. `FingerprintType` has one variant, a SHA-256 of an address.
pub record HdPathFingerprint : Type 0 where
  pub hd_path : StandardHdPath
  pub value : List ℕ

pub record LedgerSource : Type 0 where
  pub fingerprints : List HdPathFingerprint

pub data SeedSource : Type 0 where
  bytes : Encrypted → SeedSource
  ledger : LedgerSource → SeedSource

pub record Seed : Type 0 where
  pub id : Uuid
  pub source : SeedSource
  pub label : Option String
  pub created_at : Instant

pub record SeedRef : Type 0 where
  pub seed_id : Uuid
  pub hd_path : StandardHdPath

-- src/structs/wallet.rs
pub data PkType : Type 0 where
  private_key_ref : Uuid → PkType
  seed_hd : SeedRef → PkType

pub record WalletEntry : Type 0 where
  pub id : ℕ
  pub label : Option String
  pub blockchain : Blockchain
  pub address : Option AddressRef
  pub key : PkType
  pub receive_disabled : Bool
  pub created_at : Instant

pub record ReservedPath : Type 0 where
  pub seed_id : Uuid
  pub account_id : ℕ

pub record Wallet : Type 0 where
  pub id : Uuid
  pub label : Option String
  pub entries : List WalletEntry
  pub entry_seq : ℕ
  pub reserved : List ReservedPath
  pub created_at : Instant

-- `self.entries.iter().find(|a| a.id == id)`
find_entry : ℕ → List WalletEntry → Option WalletEntry
find_entry id [] = none
find_entry id (e ∷ es) = if e.id == id then some e else find_entry id es

unfoldable pub get_entry : Wallet → ℕ → Result VaultError WalletEntry
unfolding find_entry
get_entry w id = elim (find_entry id w.entries) [ none ↦ err data_not_found | some e ↦ ok e ]

-- `self.entries.iter().map(|a| a.id).max()`
unfoldable pub max_id : List WalletEntry → Option ℕ
max_id [] = none
max_id (e ∷ es) = elim (max_id es) [ none ↦ some e.id | some m ↦ some (max e.id m) ]

-- `match current { Some(id) => id + 1, None => 0 }` in `usize`
abbrev pub seq_after : Option ℕ → ℕ
seq_after (some id) = (id + 1) % 2 ^ 64
seq_after none = 0

unfoldable pub next_entry_id : Wallet → ℕ
next_entry_id w =
    let value = seq_after (max_id w.entries) in if ltb value w.entry_seq then w.entry_seq else value

-- `SeedRef::get_account_id`, which never fails.
unfoldable pub get_account_id : SeedRef → Result (Unit {0}) ℕ
get_account_id s = ok s.hd_path.account

-- `WalletEntry::account_hd`; `AccountHDPath::from` drops the last two parts of a path.
unfoldable pub account_hd : WalletEntry → Option AccountHdPath
account_hd e = elim e.key [
  | seed_hd s ↦ some (record {
    purpose = s.hd_path.purpose;
    coin_type = s.hd_path.coin_type;
    account = s.hd_path.account;
  })
  | private_key_ref _ ↦ none
]

-- `*ZERO_TS`, 100 milliseconds after 1970, the time of what was stored with no date.
abbrev pub zero_ts : Instant
zero_ts = 100_000_000

-- `cmp` of the macro `ord_by_date_id`, on the two fields that it reads.
unfoldable pub cmp_by_date_id : Uuid × Instant → Uuid × Instant → Ordering
cmp_by_date_id (id, at) (other_id, other_at) =
    if at == zero_ts && not (other_at == zero_ts)
    then Ordering.lt
    else if not (at == zero_ts) && other_at == zero_ts
    then Ordering.gt
    else if at == other_at
    then compare id other_id
    else compare at other_at
