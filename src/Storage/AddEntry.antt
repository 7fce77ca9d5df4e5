-- ===== src/Storage/AddEntry.antt =====
-- src/storage/vault_ethereum.rs and src/storage/vault_bitcoin.rs: new entries of a wallet. What the
-- code takes from the random generator, the clock and a Ledger comes in as arguments.
pub mod Ids
pub mod Ethereum
use mathlib.Core.Option
use native.Mathlib.Decide.{ℕ_discrete}
use emerald_rs.Prelude.{
  ℕ, ◌+◌, ◌%◌, ◌^◌, ◌==◌, ltb, if◌then◌else◌, not, ◌&&◌, ◌||◌, String, Bool, true, false, Option,
  none, some, List, [], ◌∷◌, ◌++◌, Result, ok, err, map_err, ok_or, List_beq, ℕ_eq, Eq,
}
use emerald_rs.Chains.{Blockchain, BlockchainType, Network, get_type, as_bitcoin_network}
use emerald_rs.Structs.{
  Uuid, Instant, VaultError, ConversionError, CryptoError, conversion_error, crypto_failed,
  invalid_data_error, incorrect_blockchain_error, password_required, private_key_unavailable,
  public_key_unavailable, unsupported_data_error, invalid_field_value, EthereumAddress, AddressRef,
  ethereum_address, extended_pub, XPub, ExtendedPubKey, AddressType, p2wpkh, Purpose, pubkey,
  script_hash, witness, p2pkh, p2sh, p2wpkh_in_p2sh, p2wsh_in_p2sh, p2wsh, custom, StandardHdPath,
  AccountHdPath, Encrypted, PrivateKeyHolder, Seed, SeedSource, bytes, ledger, SeedRef, PkType,
  private_key_ref, seed_hd, Wallet, WalletEntry, next_entry_id, invalid_private_key,
}
use mathlib.Core.Logic.{ite}
use emerald_rs.Bitcoin.{KeyLib, get_hd_path, account_xpub}
use emerald_rs.Crypto.{CryptoLib, decrypt, create_ethereum_raw, get_ethereum_address}
use emerald_rs.Storage.Access.{Io, VaultAccess, pure, fail, lift, ◌>>=◌, ◌>>◌}

-- `WalletEntry::default()` at the time `now`, with the fields that the callers set.
abbrev pub default_entry : ℕ → Blockchain → Option AddressRef → PkType → Instant → WalletEntry
default_entry id blockchain address key now = record {
  id = id;
  label = none;
  blockchain = blockchain;
  address = address;
  key = key;
  receive_disabled = false;
  created_at = now;
}

abbrev pub is_ethereum : BlockchainType → Bool
is_ethereum BlockchainType.ethereum = true
is_ethereum BlockchainType.bitcoin = false

-- `a.or(b)`
abbrev pub or_else {ℓ} : {A : Type ℓ} → Option A → Option A → Option A
or_else (some a) b = some a
or_else none b = b

-- `wallet.entries.push(entry); wallet.entry_seq = id + 1` in `usize`
abbrev pub push_entry : Wallet → WalletEntry → Wallet
push_entry w e = record w { entries = w.entries ++ e ∷ []; entry_seq = (e.id + 1) % 2 ^ 64 }

pub record AddEthereumEntry (S : Type 0) : Type 0 where
  pub keys : VaultAccess S PrivateKeyHolder
  pub seeds : VaultAccess S Seed
  pub wallets : VaultAccess S Wallet
  pub wallet_id : Uuid

-- The fields of `EthereumJsonV3File` that are read here, and the key that it converts to.
pub record EthereumJson : Type 0 where
  pub name : Option String
  pub address : Option EthereumAddress
  pub holder : Result ConversionError PrivateKeyHolder

-- What a Ledger answers. `manager` is `LedgerKey::new_connected()`.
pub record Ledger : Type 0 where
  pub manager : Result ℕ (Unit {0})
  -- `ethereum_app.is_open().is_some()`
  pub ethereum_is_open : Bool
  -- `get_address`, parsed by `EthereumAddress::from_str`
  pub ethereum_address_at : StandardHdPath → Option EthereumAddress
  -- the application that `bitcoin_app.is_open()` finds, by its network
  pub bitcoin_is_open : Option Network
  pub bitcoin_xpub_at : AccountHdPath → Network → Result VaultError ExtendedPubKey

module _ {S : Type 0} (self : AddEthereumEntry S) where
  -- `AddEthereumEntry::json`
  unfoldable pub json : EthereumJson → Blockchain → Uuid → Instant → Io S ℕ
  json file blockchain new_id now = do
    wallet ← self.wallets.get self.wallet_id
    pk ← lift (map_err conversion_error file.holder)
    self.keys.add (record pk { id = new_id })
    let id = next_entry_id wallet
    let entry : WalletEntry = record {
      id = id;
      label = file.name;
      blockchain = blockchain;
      address = Option.map ethereum_address file.address;
      key = private_key_ref new_id;
      receive_disabled = false;
      created_at = now;
    }
    self.wallets.update (push_entry wallet entry)
    pure id

  -- `AddEthereumEntry::raw_pk`
  unfoldable pub raw_pk :
      CryptoLib
      → List ℕ
      → String
      → Blockchain
      → Option (List ℕ)
      → Option (List ℕ)
      → Uuid
      → Instant
      → Io S ℕ
  raw_pk lib pk password blockchain salt? iv? new_id now = do
    wallet ← self.wallets.get self.wallet_id
    pk ← lift (
        map_err (λ _. invalid_data_error "Invalid PrivateKey")
          (create_ethereum_raw lib pk password salt? iv? new_id now))
    let address = Option.map ethereum_address (get_ethereum_address pk)
    let id = next_entry_id wallet
    self.keys.add pk
    self.wallets.update
        (push_entry wallet (default_entry id blockchain address (private_key_ref pk.id) now))
    pure id

  -- The address of a seed, or what a connected Ledger says of it.
  seed_address :
      CryptoLib
      → KeyLib
      → Ledger
      → SeedSource
      → StandardHdPath
      → Option String
      → Io S (Option EthereumAddress)
  seed_address lib keylib device (bytes seed) hd_path none = fail password_required
  seed_address lib keylib device (bytes seed) hd_path (some password) = do
    plain ← lift (map_err crypto_failed (decrypt lib seed password))
    key ← lift (keylib.ethereum_key hd_path plain)
    pure (some (lib.address_of_key key))
  seed_address lib keylib device (ledger _) hd_path password = do
    lift (map_err (λ _. private_key_unavailable) device.manager)
    pure (if not device.ethereum_is_open then none else device.ethereum_address_at hd_path)

  -- `a.is_some() && b.is_some() && a != b`
  differ : Option EthereumAddress → Option EthereumAddress → Bool
  differ (some a) (some b) = not (List_beq a b)
  differ _ _ = false

  -- `AddEthereumEntry::seed_hd`
  unfoldable pub seed_hd_entry :
      CryptoLib
      → KeyLib
      → Ledger
      → Uuid
      → StandardHdPath
      → Blockchain
      → Option String
      → Option EthereumAddress
      → Instant
      → Io S ℕ
  unfolding seed_address differ
  seed_hd_entry lib keylib device seed_id hd_path blockchain password expected now =
      if is_ethereum (get_type blockchain)
      then (do
        seed ← self.seeds.get seed_id
        address ← seed_address lib keylib device seed.source hd_path password
        if differ expected address then fail (invalid_data_error "Different address") else do
          wallet ← self.wallets.get self.wallet_id
          let id = next_entry_id wallet
          path ←
              lift
                (ok_or (conversion_error (invalid_field_value "hd_path")) (keylib.reparse hd_path))
          let entry =
              default_entry id blockchain (Option.map ethereum_address (or_else address expected))
                (seed_hd (record { seed_id = seed_id; hd_path = path })) now
          self.wallets.update (push_entry wallet entry)
          pure id)
      else fail incorrect_blockchain_error

pub record AddBitcoinEntry (S : Type 0) : Type 0 where
  pub seeds : VaultAccess S Seed
  pub wallets : VaultAccess S Wallet
  pub wallet_id : Uuid

-- src/storage/entry.rs
pub record AddEntryOptions : Type 0 where
  pub seed_password : Option String
  pub xpub : Option XPub

pub XPub-discrete : Discrete XPub
XPub-discrete = hlevel ℕ_discrete

pub Purpose-discrete : Discrete Purpose
Purpose-discrete = hlevel ℕ_discrete

pub Network-discrete : Discrete Network
Network-discrete = hlevel

-- `account.address_at(0, 0)` of the `hdpath` crate
abbrev pub first_address : AccountHdPath → StandardHdPath
first_address a = record {
  purpose = a.purpose;
  coin_type = a.coin_type;
  account = a.account;
  change = 0;
  index = 0;
}

-- The application that a blockchain needs, by its network.
abbrev expected_app : Blockchain → Option Network
expected_app Blockchain.bitcoin = some Network.bitcoin
expected_app Blockchain.bitcoin_testnet = some Network.testnet
expected_app _ = none

-- `exp_app.is_none() || bitcoin_app.is_open() != exp_app`
abbrev is_wrong_app : Option Network → Option Network → Bool
is_wrong_app none open_app = true
is_wrong_app (some n) none = true
is_wrong_app (some n) (some m) = ite (Network-discrete n m) false true

-- `XPub::standard`
abbrev pub standard_xpub : ExtendedPubKey → XPub
standard_xpub value = record { value = value; address_type = p2wpkh }

abbrev xpubs_differ : Option XPub → Option XPub → Bool
xpubs_differ (some a) (some b) = ite (XPub-discrete a b) false true
xpubs_differ _ _ = false

module _ {S : Type 0} (self : AddBitcoinEntry S) where
  -- The extended key of a seed's account, or of a connected Ledger with the right application.
  seed_xpub :
      CryptoLib
      → KeyLib
      → Ledger
      → SeedSource
      → AccountHdPath
      → Blockchain
      → Option String
      → Io S (Option XPub)
  seed_xpub lib keylib device (bytes seed) account blockchain none = fail password_required
  seed_xpub lib keylib device (bytes seed) account blockchain (some password) = do
    plain ← lift (map_err crypto_failed (decrypt lib seed password))
    xpub ← lift (account_xpub keylib blockchain p2wpkh account.account plain)
    pure (some xpub)
  seed_xpub lib keylib device (ledger _) account blockchain password = elim device.manager [
    | ok _ ↦ if is_wrong_app (expected_app blockchain) device.bitcoin_is_open then pure none else do
      value ← lift (device.bitcoin_xpub_at account (as_bitcoin_network blockchain))
      pure (some (standard_xpub value))
    | err _ ↦ pure none
  ]

  -- The end of `AddBitcoinEntry::seed_hd`, from the key that was found.
  store_xpub : Uuid → AccountHdPath → Blockchain → Option XPub → Instant → Io S ℕ
  store_xpub seed_id account blockchain none now = fail public_key_unavailable
  store_xpub seed_id account blockchain (some xpub) now =
      ite (Network-discrete xpub.value.network (as_bitcoin_network blockchain))
        (do
          wallet ← self.wallets.get self.wallet_id
          let id = next_entry_id wallet
          let entry =
              default_entry id blockchain (some (extended_pub xpub))
                (seed_hd (record { seed_id = seed_id; hd_path = first_address account })) now
          self.wallets.update (push_entry wallet entry)
          pure id)
        (fail incorrect_blockchain_error)

  -- `AddBitcoinEntry::seed_hd`
  unfoldable pub seed_hd_account :
      CryptoLib
      → KeyLib
      → Ledger
      → Uuid
      → AccountHdPath
      → Blockchain
      → AddEntryOptions
      → Instant
      → Io S ℕ
  unfolding seed_xpub store_xpub
  seed_hd_account lib keylib device seed_id hd_path blockchain opts now =
      if is_ethereum (get_type blockchain) then fail incorrect_blockchain_error else do
        seed ← self.seeds.get seed_id
        let account = get_hd_path p2wpkh hd_path.account (as_bitcoin_network blockchain)
        ite (Purpose-discrete account.purpose hd_path.purpose)
            (do
              xpub ← seed_xpub lib keylib device seed.source account blockchain opts.seed_password
              if xpubs_differ opts.xpub xpub
                  then fail (invalid_data_error "Different xpub")
                  else store_xpub seed_id account blockchain (or_else xpub opts.xpub) now)
            (fail (unsupported_data_error "Invalid HD PathBuf purpose for address"))
