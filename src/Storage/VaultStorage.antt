-- ===== src/Storage/VaultStorage.antt =====
-- src/storage/vault.rs: `UpdateEntry`, `CreateWallet`, and what `VaultStorage` does to entries of
-- wallets and to the keys that they refer to. What the code takes from the random generator and the
-- clock comes in as arguments.
pub mod Updates
pub mod Removal
pub mod Files
use mathlib.Core.Option
use emerald_rs.Prelude.{
  ℕ, ◌==◌, ◌||◌, if◌then◌else◌, not, String, Bool, true, false, Option, none, some, List, [], ◌∷◌,
  ◌++◌, map, map_err, any, Ordering, Result, ok, err,
}
use emerald_rs.Chains.{Blockchain}
use emerald_rs.Structs.{
  Uuid, Instant, conversion_error, invalid_data_error, ethereum_address, PrivateKeyHolder, Seed,
  SeedSource, bytes, ledger, PkType, private_key_ref, seed_hd, Wallet, WalletEntry, cmp_by_date_id,
}
use emerald_rs.Crypto.{CryptoLib, create_ethereum_raw, get_ethereum_address}
use emerald_rs.Storage.Access.{
  IsVault, Keeps, Io, VaultAccess, pure, lift, ◌>>=◌, ◌>>◌, get_each, list_entries,
}
use emerald_rs.Storage.AddEntry.{EthereumJson, default_entry, AddEthereumEntry, AddBitcoinEntry}

-- The storages of a vault, with the names of the files in which they keep an item.
pub record VaultStorage (S PathBuf : Type 0) : Type 0 where
  pub keys : VaultAccess S PrivateKeyHolder
  pub wallets : VaultAccess S Wallet
  pub seeds : VaultAccess S Seed
  pub key_filename : Uuid → PathBuf
  pub wallet_filename : Uuid → PathBuf

-- Each storage is one as its clients expect it, and leaves alone what the others hold.
pub record IsVaultStorage {S PathBuf : Type 0} (vault : VaultStorage S PathBuf)
    (view_keys : S → Uuid → Option PrivateKeyHolder) (view_seeds : S → Uuid → Option Seed)
    (view_wallets : S → Uuid → Option Wallet)
    (canon_key : PrivateKeyHolder → Option PrivateKeyHolder) (canon_seed : Seed → Option Seed)
    (canon_wallet : Wallet → Option Wallet) : Type 0 where
  pub keys_law : IsVault vault.keys view_keys (λ k. k.id) canon_key
  pub seeds_law : IsVault vault.seeds view_seeds (λ s. s.id) canon_seed
  pub wallets_law : IsVault vault.wallets view_wallets (λ w. w.id) canon_wallet
  pub keys_keep : Keeps vault.keys view_wallets
  pub keys_keep_seeds : Keeps vault.keys view_seeds
  pub seeds_keep : Keeps vault.seeds view_wallets
  pub seeds_keep_keys : Keeps vault.seeds view_keys
  pub wallets_keep_keys : Keeps vault.wallets view_keys
  pub wallets_keep_seeds : Keeps vault.wallets view_seeds

pub record UpdateEntry (S : Type 0) : Type 0 where
  pub wallets : VaultAccess S Wallet
  pub wallet_id : Uuid
  pub entry_id : ℕ

-- `position` of an identifier, and the entries with the one at that position changed by `f`
unfoldable pub modify_first :
    ℕ → (WalletEntry → WalletEntry) → List WalletEntry → Option (List WalletEntry)
modify_first id f [] = none
modify_first id f (e ∷ es) =
    if e.id == id then some (f e ∷ es) else Option.map (λ rest. e ∷ rest) (modify_first id f es)

-- `position` of an identifier, and `remove` of the entry at that position
unfoldable pub take_first : ℕ → List WalletEntry → Option (WalletEntry × List WalletEntry)
take_first id [] = none
take_first id (e ∷ es) =
    if e.id == id
    then some (e, es)
    else Option.map (λ found. (found.0, e ∷ found.1)) (take_first id es)

abbrev pub with_entries : Wallet → List WalletEntry → Wallet
with_entries w es = record w { entries = es }

abbrev pub set_entry_label : Option String → WalletEntry → WalletEntry
set_entry_label label e = record e { label = label }

abbrev pub set_entry_disabled : Bool → WalletEntry → WalletEntry
set_entry_disabled disabled e = record e { receive_disabled = disabled }

module _ {S : Type 0} (self : UpdateEntry S) where
  abbrev store_modified : Wallet → Option (List WalletEntry) → Io S Bool
  store_modified wallet none = pure false
  store_modified wallet (some es) = self.wallets.update (with_entries wallet es)

  -- `UpdateEntry::update`
  unfoldable pub update : (WalletEntry → WalletEntry) → Io S Bool
  unfolding modify_first
  update f = self.wallets.get self.wallet_id >>= λ wallet.
      store_modified wallet (modify_first self.entry_id f wallet.entries)

  unfoldable pub set_label : Option String → Io S Bool
  unfolding update
  set_label label = update (set_entry_label label)

  unfoldable pub set_receive_disabled : Bool → Io S Bool
  unfolding update
  set_receive_disabled disabled = update (set_entry_disabled disabled)

-- `ord_by_date_id!(Wallet)`
abbrev pub cmp_wallets : Wallet → Wallet → Ordering
cmp_wallets a b = cmp_by_date_id (a.id, a.created_at) (b.id, b.created_at)

-- Whether an entry is a reference to the key.
abbrev pub refers_to : Uuid → PkType → Bool
refers_to uuid (private_key_ref x) = x == uuid
refers_to uuid (seed_hd _) = false

abbrev pub uses_key : Uuid → Wallet → Bool
uses_key uuid w = any (λ e. refers_to uuid e.key) w.entries

-- `filter(|w| w.id != wallet_id).any(...)`
abbrev pub used_elsewhere : Uuid → Uuid → List Wallet → Bool
used_elsewhere wallet_id uuid [] = false
used_elsewhere wallet_id uuid (w ∷ ws) =
    (if w.id == wallet_id then false else uses_key uuid w) || used_elsewhere wallet_id uuid ws

-- `filter_map` of `fn_wallet_entries`
abbrev cons_key : PkType → List Uuid → List Uuid
cons_key (private_key_ref pk_id) rest = pk_id ∷ rest
cons_key (seed_hd _) rest = rest

unfoldable pub key_refs : List WalletEntry → List Uuid
key_refs [] = []
key_refs (e ∷ es) = cons_key e.key (key_refs es)

unfoldable pub other_key_refs : List Wallet → List Uuid
unfolding key_refs
other_key_refs [] = []
other_key_refs (w ∷ ws) = key_refs w.entries ++ other_key_refs ws

unfoldable pub other_ids : Uuid → List Uuid → List Uuid
other_ids wallet_id [] = []
other_ids wallet_id (id ∷ ids) =
    if id == wallet_id then other_ids wallet_id ids else id ∷ other_ids wallet_id ids

-- `filter(|pk_id| !exclusive_only || !other_wallet_pks.contains(pk_id))`
unfoldable pub exclusive_refs : Bool → List Uuid → List Uuid → List Uuid
exclusive_refs exclusive_only others [] = []
exclusive_refs exclusive_only others (pk ∷ pks) =
    let rest = exclusive_refs exclusive_only others pks in
    if not exclusive_only || not (any (λ x. x == pk) others) then pk ∷ rest else rest

module _ {S PathBuf : Type 0} (self : VaultStorage S PathBuf) where
  drop_unused : Uuid → Uuid → Bool → List Wallet → Io S Bool
  drop_unused wallet_id uuid updated all =
      if used_elsewhere wallet_id uuid all
      then pure updated
      else self.keys.remove uuid >> pure updated

  drop_key : Uuid → PkType → Bool → Io S Bool
  unfolding drop_unused
  drop_key wallet_id (private_key_ref uuid) updated =
      list_entries self.wallets cmp_wallets >>= drop_unused wallet_id uuid updated
  drop_key wallet_id (seed_hd _) updated = pure updated

  remove_found : Wallet → Uuid → Option (WalletEntry × List WalletEntry) → Io S Bool
  unfolding drop_key
  remove_found wallet wallet_id none = pure false
  remove_found wallet wallet_id (some (entry, rest)) =
      self.wallets.update (with_entries wallet rest) >>= drop_key wallet_id entry.key

  -- `VaultStorage::remove_entry`
  unfoldable pub remove_entry : Uuid → ℕ → Io S Bool
  unfolding remove_found
  remove_entry wallet_id entry_id = self.wallets.get wallet_id >>= λ wallet.
      remove_found wallet wallet_id (take_first entry_id wallet.entries)

  files_of : Uuid → Bool → List Uuid → Wallet → List PathBuf
  files_of wallet_id exclusive_only others wallet =
      map self.key_filename (exclusive_refs exclusive_only others (key_refs wallet.entries))
      ++ self.wallet_filename wallet_id ∷ []

  -- `VaultStorage::get_wallet_files`
  unfoldable pub get_wallet_files : Uuid → Bool → Io S (List PathBuf)
  unfolding files_of
  get_wallet_files wallet_id exclusive_only = do
    ids ← self.wallets.list
    others ← λ s. let (ws, s') = get_each self.wallets (other_ids wallet_id ids) s in (ok ws, s')
    λ s.
        let (wallet, s') = self.wallets.get wallet_id s in
        elim wallet [
          | ok w ↦ (ok (files_of wallet_id exclusive_only (other_key_refs others) w), s')
          | err _ ↦ (ok [], s')
        ]

  -- `CreateWallet::ethereum`
  unfoldable pub create_ethereum : EthereumJson → Blockchain → Uuid → Uuid → Instant → Io S Uuid
  create_ethereum json blockchain key_id wallet_id now = do
    pk ← lift (map_err conversion_error json.holder)
    self.keys.add (record pk { id = key_id })
    self.wallets.add (record {
      id = wallet_id;
      label = json.name;
      entries =
          default_entry 0 blockchain (Option.map ethereum_address json.address)
            (private_key_ref key_id) now
          ∷ [];
      entry_seq = 0;
      reserved = [];
      created_at = now;
    })
    pure wallet_id

  -- `CreateWallet::raw_pk`
  unfoldable pub create_raw_pk :
      CryptoLib
      → List ℕ
      → String
      → Blockchain
      → Option (List ℕ)
      → Option (List ℕ)
      → Uuid
      → Uuid
      → Instant
      → Io S Uuid
  create_raw_pk lib pk password blockchain salt? iv? key_id wallet_id now = do
    pk ← lift (
        map_err (λ _. invalid_data_error "Invalid PrivateKey")
          (create_ethereum_raw lib pk password salt? iv? key_id now))
    self.keys.add pk
    self.wallets.add (record {
      id = wallet_id;
      label = none;
      entries =
          default_entry 0 blockchain (Option.map ethereum_address (get_ethereum_address pk))
            (private_key_ref pk.id) now
          ∷ [];
      entry_seq = 0;
      reserved = [];
      created_at = now;
    })
    pure wallet_id

  -- `VaultStorage::update_entry`
  abbrev pub update_entry : Uuid → ℕ → UpdateEntry S
  update_entry wallet_id entry_id = record {
    wallets = self.wallets;
    wallet_id = wallet_id;
    entry_id = entry_id;
  }

  -- `VaultStorage::add_ethereum_entry`
  abbrev pub add_ethereum_entry : Uuid → AddEthereumEntry S
  add_ethereum_entry wallet_id = record {
    keys = self.keys;
    seeds = self.seeds;
    wallets = self.wallets;
    wallet_id = wallet_id;
  }

  -- `VaultStorage::add_bitcoin_entry`
  abbrev pub add_bitcoin_entry : Uuid → AddBitcoinEntry S
  add_bitcoin_entry wallet_id = record {
    seeds = self.seeds;
    wallets = self.wallets;
    wallet_id = wallet_id;
  }

  abbrev is_ledger : SeedSource → Bool
  is_ledger (ledger _) = true
  is_ledger (bytes _) = false

  -- `WalletEntry::is_hardware`
  unfoldable pub is_hardware : WalletEntry → Io S Bool
  is_hardware e = elim e.key [
    | seed_hd seed ↦ self.seeds.get seed.seed_id >>= λ details. pure (is_ledger details.source)
    | private_key_ref _ ↦ pure false
  ]
