-- ===== src/Migration/AddToVault.antt =====
-- src/migration/source/common.rs: a key file of an old vault becomes a wallet with one entry.
use Prim.Native.String.{◌++◌ as append}
use mathlib.Core.Option
use emerald_rs.Prelude.{
  ℕ, if◌then◌else◌, str_eq, String, Bool, true, false, Option, none, some, List, [], ◌∷◌, Ordering,
  Result, ok, err, map_err, ok_or,
}
use emerald_rs.Chains.{Blockchain}
use emerald_rs.Structs.{
  Uuid, Instant, VaultError, EthereumAddress, ethereum_address, PrivateKeyHolder, ethereum_pk, Seed,
  SeedSource, bytes, ledger, HdPathFingerprint, StandardHdPath, PkType, private_key_ref, seed_hd,
  Wallet, WalletEntry, cmp_by_date_id,
}
use emerald_rs.Ethereum.Address.{Hex}
use emerald_rs.Storage.Access.{Io, list_entries}
use emerald_rs.Storage.VaultStorage.{VaultStorage}
use emerald_rs.Storage.AddEntry.{default_entry}
use emerald_rs.Migration.KeyFiles.{
  KeyFileV2, CoreCryptoV2, HdwalletCryptoV2, CryptoTypeV2, core, hd_wallet, encrypted_from_v2,
}

-- An operation whose error is a message.
abbrev pub Step : Type 0 → Type 0 → Type 0
Step S A = S → Result String A × S

module _ {S A : Type 0} where
  abbrev pub pure : A → Step S A
  pure a s = (ok a, s)

  abbrev pub lift : Result String A → Step S A
  lift r s = (r, s)

  -- `.map_err(f)?` on an operation of a storage
  abbrev pub renamed : (VaultError → String) → Io S A → Step S A
  renamed f m s = let (r, s') = m s in (map_err f r, s')

module _ {S A B : Type 0} where
  abbrev pub continue : Result String A × S → (A → Step S B) → Result String B × S
  continue (ok a, s) f = f a s
  continue (err e, s) f = (err e, s)

  infixl 5 ◌>>=◌ ◌>>◌
  abbrev pub ◌>>=◌ : Step S A → (A → Step S B) → Step S B
  ◌>>=◌ m f s = continue (m s) f

  abbrev pub ◌>>◌ : Step S A → Step S B → Step S B
  m >> k = m >>= λ _. k

-- Hexadecimal texts, `StandardHDPath::try_from`, SHA-256, the text of an address and `{:?}` of an error.
pub record MigrationLib : Type 0 where
  pub hex : Hex
  pub path_of_text : String → Option StandardHdPath
  pub sha256 : List ℕ → List ℕ
  pub address_text : EthereumAddress → String
  pub debug : VaultError → String

abbrev name_text : Option String → String
name_text (some name) = name
name_text none = ""

-- `ord_by_date_id!(Seed)`
abbrev pub cmp_seeds : Seed → Seed → Ordering
cmp_seeds a b = cmp_by_date_id (a.id, a.created_at) (b.id, b.created_at)

abbrev pub is_ledger : SeedSource → Bool
is_ledger (ledger _) = true
is_ledger (bytes _) = false

unfoldable pub find_ledger : List Seed → Option Seed
find_ledger [] = none
find_ledger (s ∷ ss) = let rest = find_ledger ss in if is_ledger s.source then some s else rest

module _ (lib : MigrationLib) where
  abbrev or_address : String → Option EthereumAddress → String
  or_address text none = text
  or_address text (some address) = if str_eq text "" then lib.address_text address else text

  abbrev or_hidden : String → Option Bool → String
  or_hidden text (some false) =
      append (if str_eq text "" then text else append text " ") "(legacy hidden)"
  or_hidden text _ = text

  unfoldable pub extract_label : KeyFileV2 → Option String
  extract_label kf =
      let result = or_hidden (or_address (name_text kf.name) kf.address) kf.visible in
      if str_eq result "" then none else some result

  -- `HDPathFingerprint::from_address`
  abbrev pub from_address : StandardHdPath → EthereumAddress → HdPathFingerprint
  from_address hd_path address = record { hd_path = hd_path; value = lib.sha256 address }

  abbrev pub parsed_path : String → Result String StandardHdPath
  parsed_path text = ok_or "Unsupported HDPath" (lib.path_of_text text)

  abbrev pub fingerprints_of :
      HdwalletCryptoV2 → Option EthereumAddress → Result String (List HdPathFingerprint)
  fingerprints_of file none = ok []
  fingerprints_of file (some address) = elim (parsed_path file.hd_path) [
    | ok hd_path ↦ ok (from_address hd_path address ∷ [])
    | err e ↦ err e
  ]

  module _ {S PathBuf : Type 0} (vault : VaultStorage S PathBuf) (blockchain : Blockchain)
      (now : Instant) where
    abbrev pub entry_of : KeyFileV2 → PkType → WalletEntry
    entry_of kf key = default_entry 0 blockchain (Option.map ethereum_address kf.address) key now

    abbrev pub add_key : KeyFileV2 → CoreCryptoV2 → Uuid → Step S WalletEntry
    add_key kf file new_id = do
      key ← lift (
          map_err (λ _. "Failed to convert encrypted Private Key") (encrypted_from_v2 lib.hex file))
      let pk : PrivateKeyHolder = record {
        id = new_id;
        pk = ethereum_pk (record { address = kf.address; key = key });
        created_at = now;
      }
      renamed (λ _. "Failed to add converted Private Key to the Vault") (vault.keys.add pk)
      pure (entry_of kf (private_key_ref new_id))

    -- The Ledger that is there, or a new one.
    abbrev pub seed_for : KeyFileV2 → HdwalletCryptoV2 → Uuid → Option Seed → Step S Uuid
    seed_for kf file new_id (some seed) = pure seed.id
    seed_for kf file new_id none = do
      fingerprints ← lift (fingerprints_of file kf.address)
      let seed : Seed = record {
        id = new_id;
        source = ledger (record { fingerprints = fingerprints });
        label = none;
        created_at = now;
      }
      renamed (λ _. "Failed to add converted Ledger Seed to the Vault") (vault.seeds.add seed)
      pure new_id

    abbrev pub add_hd : KeyFileV2 → HdwalletCryptoV2 → Uuid → Step S WalletEntry
    add_hd kf file new_id = do
      all ←
          renamed (λ _. "Failed to read list of current Seeds") (list_entries vault.seeds cmp_seeds)
      seed_id ← seed_for kf file new_id (find_ledger all)
      hd_path ← lift (parsed_path file.hd_path)
      pure (entry_of kf (seed_hd (record { seed_id = seed_id; hd_path = hd_path })))

    abbrev pub entry_for : KeyFileV2 → Uuid → CryptoTypeV2 → Step S WalletEntry
    entry_for kf new_id (core file) = add_key kf file new_id
    entry_for kf new_id (hd_wallet file) = add_hd kf file new_id

    abbrev pub wallet_of : KeyFileV2 → WalletEntry → Uuid → Wallet
    wallet_of kf entry wallet_id = record {
      id = wallet_id;
      label = extract_label kf;
      entries = entry ∷ [];
      entry_seq = 0;
      reserved = [];
      created_at = now;
    }

    -- `add_to_vault`, with the new identifiers of the key or seed and of the wallet
    unfoldable pub add_to_vault : KeyFileV2 → Uuid → Uuid → Step S Uuid
    unfolding extract_label
    add_to_vault kf new_id wallet_id = do
      entry ← entry_for kf new_id kf.crypto
      renamed (λ e. append "Failed to create wallet. " (lib.debug e))
          (vault.wallets.add (wallet_of kf entry wallet_id))
      pure wallet_id
