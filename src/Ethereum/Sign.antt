-- ===== src/Ethereum/Sign.antt =====
-- src/sign/ethereum.rs and the private keys of src/sign/key_source.rs: an entry signs with the key that it
-- refers to.
use emerald_rs.Prelude.{
  ℕ, ◌≡◌, refl, if◌then◌else◌, Bool, String, Option, none, some, List, Result, ok, err, ok_or,
  map_err,
}
use emerald_rs.Chains.{EthereumChainId, as_chainid, chain_id_of}
use emerald_rs.Structs.{
  Uuid, Instant, VaultError, password_required, invalid_private_key, private_key_unavailable,
  unsupported_data_error, invalid_data_error, crypto_failed, chain_panic, StandardHdPath,
  PrivateKeyHolder, SeedSource, PkType, private_key_ref, seed_hd, WalletEntry,
}
use emerald_rs.Crypto.{CryptoLib, decrypt, decrypt_holder, create_ethereum_raw}
use emerald_rs.Crypto.RoundTrip.{decrypt_holder-create_ethereum_raw}
use emerald_rs.Storage.Access.{Io, pure, fail, lift, ◌>>=◌}
use emerald_rs.Storage.VaultStorage.{VaultStorage, is_hardware}
use emerald_rs.Ethereum.Transaction.{
  EthereumTransaction, EthereumLib, signature_of, to_rlp, raw_from_sig, to_signed_raw,
}

-- What the code uses of `secp256k1`, of `bitcoin` through `generate_key`, which gives the secret of the
-- derived key, and of `hdpath`.
pub record SecretLib : Type 0 where
  pub secret_from_slice : List ℕ → Option (List ℕ)
  pub generate_key : StandardHdPath → List ℕ → Result VaultError (List ℕ)
  -- `StandardHDPath::try_from(hd_path.to_string())`
  pub reparse : StandardHdPath → Option StandardHdPath

-- A Ledger: whether it is connected, whether the application is open, and its signatures.
pub record EthereumDevice : Type 0 where
  pub connected : Bool
  pub is_open : Bool
  pub sign_transaction : List ℕ → StandardHdPath → Option (List ℕ)

pub data PrivateKeySource : Type 0 where
  base extended : List ℕ → PrivateKeySource

-- `PrivateKeySource::into_secret`
abbrev pub into_secret : PrivateKeySource → List ℕ
into_secret (base sk) = sk
into_secret (extended ext) = ext

module _ (crypto : CryptoLib) (secrets : SecretLib) where
  -- `SeedSource::get_pk`
  unfoldable pub get_seed_pk :
      SeedSource → Option String → StandardHdPath → Result VaultError PrivateKeySource
  unfolding decrypt
  get_seed_pk (SeedSource.ledger _) password path = err private_key_unavailable
  get_seed_pk (SeedSource.bytes bytes) none path = err password_required
  get_seed_pk (SeedSource.bytes bytes) (some password) path =
      elim (map_err crypto_failed (decrypt crypto bytes password)) [
        | err e ↦ err e
        | ok seed_key ↦ elim (secrets.generate_key path seed_key) [
          | err e ↦ err e
          | ok key ↦ ok (extended key)
        ]
      ]

  abbrev base_key : Option (List ℕ) → Result VaultError PrivateKeySource
  base_key (some key) = ok (base key)
  base_key none = err invalid_private_key

  module _ {S PathBuf : Type 0} (vault : VaultStorage S PathBuf) where
    decrypt_key : PrivateKeyHolder → Option String → Io S PrivateKeySource
    unfolding decrypt_holder
    decrypt_key key none = fail password_required
    decrypt_key key (some password) = do
      plain ← lift (map_err crypto_failed (decrypt_holder crypto key password))
      lift (base_key (secrets.secret_from_slice plain))

    -- `PKType::get_pk`
    unfoldable pub get_pk : PkType → Option String → Io S PrivateKeySource
    unfolding decrypt_key get_seed_pk
    get_pk (private_key_ref pk) password = vault.keys.get pk >>= λ key. decrypt_key key password
    get_pk (seed_hd seed) password = do
      details ← vault.seeds.get seed.seed_id
      path ← lift (ok_or (unsupported_data_error "Invalid HDPath") (secrets.reparse seed.hd_path))
      lift (get_seed_pk details.source password path)

    -- `PKType::get_ethereum_pk`
    unfoldable pub get_ethereum_pk : PkType → Option String → Io S (List ℕ)
    unfolding get_pk
    get_ethereum_pk key password = do source ← get_pk key password; pure (into_secret source)

    module _ (lib : EthereumLib) where
      -- `EthereumChainId::from(self.blockchain)`
      abbrev pub chain_of : WalletEntry → Result VaultError EthereumChainId
      chain_of e = ok_or chain_panic (chain_id_of e.blockchain)

      abbrev pub signed_on :
          EthereumTransaction
          → List ℕ
          → Result VaultError EthereumChainId
          → Result VaultError (List ℕ)
      signed_on tx key (err x) = err x
      signed_on tx key (ok chain) =
          map_err (λ _. invalid_private_key) (to_signed_raw lib tx key chain)

      unfoldable pub sign_tx_by_pk :
          WalletEntry → EthereumTransaction → List ℕ → Result VaultError (List ℕ)
      unfolding to_signed_raw
      sign_tx_by_pk e tx key = signed_on tx key (chain_of e)

      signed_by :
          EthereumChainId → EthereumTransaction → Option (List ℕ) → Result VaultError (List ℕ)
      unfolding raw_from_sig signature_of
      signed_by chain tx none = err invalid_private_key
      signed_by chain tx (some sign) =
          ok (raw_from_sig lib tx (some (as_chainid chain)) (signature_of sign))

      device_signed :
          EthereumDevice
          → EthereumTransaction
          → StandardHdPath
          → Result VaultError EthereumChainId
          → Result VaultError (List ℕ)
      unfolding signed_by to_rlp
      device_signed device tx path (err x) = err x
      device_signed device tx path (ok chain) =
          signed_by chain tx
            (device.sign_transaction (to_rlp lib tx (some (as_chainid chain))) path)

      unfoldable pub sign_tx_with_hardware :
          WalletEntry
          → EthereumDevice
          → EthereumTransaction
          → StandardHdPath
          → Result VaultError (List ℕ)
      unfolding device_signed
      sign_tx_with_hardware e device tx path = elim (secrets.reparse path) [
        | none ↦ err (invalid_data_error "HDPath")
        | some hd_path ↦
            if device.connected
            then (if device.is_open
                then device_signed device tx hd_path (chain_of e)
                else err private_key_unavailable)
            else err private_key_unavailable
      ]

      hardware_key : WalletEntry → EthereumDevice → EthereumTransaction → PkType → Io S (List ℕ)
      unfolding sign_tx_with_hardware
      hardware_key e device tx (seed_hd seed) =
          lift (sign_tx_with_hardware e device tx seed.hd_path)
      hardware_key e device tx (private_key_ref _) = fail (unsupported_data_error "NOT_SEED")

      stored_key : WalletEntry → EthereumTransaction → PkType → Option String → Io S (List ℕ)
      unfolding get_ethereum_pk sign_tx_by_pk
      stored_key e tx key none = fail password_required
      stored_key e tx key (some password) = do
        pk ← get_ethereum_pk key (some password)
        lift (sign_tx_by_pk e tx pk)

      -- `WalletEntry::sign_tx`
      unfoldable pub sign_tx :
          EthereumDevice → WalletEntry → EthereumTransaction → Option String → Io S (List ℕ)
      unfolding is_hardware hardware_key stored_key
      sign_tx device e tx password = is_hardware vault e >>= λ hardware.
          if hardware then hardware_key e device tx e.key else stored_key e tx e.key password

      -- An entry of an Ethereum blockchain whose key was stored from a private key signs, with the
      -- password that the key was stored with, as that private key does for the chain of its blockchain.
      pub sign_tx-create_ethereum_raw :
          (device : EthereumDevice) (e : WalletEntry) (tx : EthereumTransaction) (pk : List ℕ)
          (password : String) (salt? iv? : Option (List ℕ)) (id : Uuid) (now : Instant)
          (h : PrivateKeyHolder) (chain : EthereumChainId) (raw : List ℕ) (s s' : S)
          → chain_id_of e.blockchain ≡ some chain
          → e.key ≡ private_key_ref id
          → vault.keys.get id s ≡ (ok h, s')
          → create_ethereum_raw crypto pk password salt? iv? id now ≡ ok h
          → secrets.secret_from_slice pk ≡ some pk
          → to_signed_raw lib tx pk chain ≡ ok raw
          → sign_tx device e tx (some password) s ≡ (ok raw, s')
      unfolding sign_tx is_hardware stored_key get_ethereum_pk get_pk decrypt_key sign_tx_by_pk
      sign_tx-create_ethereum_raw device e tx pk password salt? iv? id now h chain raw s s' of_chain
            refers stored made valid signed =
          rw
            (
              refers,
              stored,
              (decrypt_holder-create_ethereum_raw crypto pk password salt? iv? id now h made).0,
              valid,
              of_chain,
              signed,
            )
            refl
