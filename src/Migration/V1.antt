-- ===== src/Migration/V1.antt =====
-- src/migration/source/v1.rs: the key files in the directory of a chain become wallets.
pub mod Migrate
use Prim.Native.String.{◌++◌ as append}
use emerald_rs.Prelude.{
  ℕ, ◌++◌, ◌&&◌, if◌then◌else◌, String, Bool, true, false, Option, none, some, List, [], ◌∷◌,
  Result, ok, err,
}
use emerald_rs.Chains.{Blockchain}
use emerald_rs.Structs.{Uuid, Instant}
use emerald_rs.Storage.VaultStorage.{VaultStorage}
use emerald_rs.Migration.{MigrationResult, log_error, log_warn, log_info}
use emerald_rs.Migration.KeyFiles.{SerializableKeyFileV2, CoreCryptoV2, core_key_file}
use emerald_rs.Migration.AddToVault.{MigrationLib, add_to_vault}

-- What is read of the old vault: `join` on its directory, `exists` and `is_dir`, the files that
-- `glob` finds, `fs::read`, `serde_json::from_slice`, the texts of a path and of its last part,
-- and the new identifiers for a file.
pub record OldVault (S PathBuf : Type 0) : Type 0 where
  pub join : String → PathBuf
  pub exists : PathBuf → S → Bool
  pub is_dir : PathBuf → S → Bool
  pub glob_json : PathBuf → S → List PathBuf
  pub read : PathBuf → S → Option (List ℕ)
  pub from_slice : List ℕ → Option (SerializableKeyFileV2 CoreCryptoV2)
  pub debug_path : PathBuf → String
  pub debug_name : PathBuf → String
  pub new_ids : PathBuf → Uuid × Uuid

-- The log, the wallets that were created, and whether there was one.
pub record Progress : Type 0 where
  pub migration : MigrationResult
  pub created_wallets : List Uuid
  pub migrated : Bool

abbrev pub logged : (MigrationResult → MigrationResult) → Progress → Progress
logged f w = record w { migration = f w.migration }

abbrev chain_dir : Blockchain → Option String
chain_dir Blockchain.ethereum = some "eth"
chain_dir Blockchain.ethereum_classic = some "mainnet"
chain_dir Blockchain.kovan_testnet = some "kovan"
chain_dir _ = none

-- The match on the result of `add_to_vault`.
abbrev pub note_added : Result String Uuid → Progress → Progress
note_added (ok id) w = record w { created_wallets = w.created_wallets ++ id ∷ []; migrated = true }
note_added (err msg) w = logged (log_error (append "Not added to vault " msg)) w

module _ {S PathBuf : Type 0} (old : OldVault S PathBuf) where
  unfoldable pub ethereum_path : String → S → Option PathBuf
  ethereum_path name s =
      let base = old.join name in if old.exists base s && old.is_dir base s then some base else none

  unfoldable pub blockchain_path : Blockchain → S → Option PathBuf
  unfolding ethereum_path
  blockchain_path blockchain s = elim (chain_dir blockchain) [
    | some name ↦ ethereum_path name s
    | none ↦ none
  ]

  module _ (lib : MigrationLib) (vault : VaultStorage S PathBuf) (now : Instant)
      (blockchain : Blockchain) where
    abbrev pub add_file :
        SerializableKeyFileV2 CoreCryptoV2 → Uuid × Uuid → Progress → S → Progress × S
    add_file parsed (new_id, wallet_id) w s =
        let (r, s') =
          add_to_vault lib vault blockchain now (core_key_file parsed) new_id wallet_id s in
        (note_added r w, s')

    abbrev pub add_body :
        PathBuf → Option (SerializableKeyFileV2 CoreCryptoV2) → Progress → S → Progress × S
    add_body path (some parsed) w s = add_file parsed (old.new_ids path) w s
    add_body path none w s =
        (logged (log_warn (append "Invalid Key File in " (old.debug_name path))) w, s)

    abbrev pub add_read : PathBuf → Option (List ℕ) → Progress → S → Progress × S
    add_read path (some body) w s = add_body path (old.from_slice body) w s
    add_read path none w s =
        (logged (log_warn (append "Failed to Key File from " (old.debug_name path))) w, s)

    -- A round of the loop.
    unfoldable pub process_file : PathBuf → Progress → S → Progress × S
    process_file path w s =
        let begun = logged (log_info (append "Process Key File " (old.debug_path path))) w in
        add_read path (old.read path s) begun s

    unfoldable pub process_files : List PathBuf → Progress → S → Progress × S
    process_files [] w s = (w, s)
    process_files (path ∷ paths) w s =
        let (w', s') = process_file path w s in process_files paths w' s'

    unfoldable pub migrate_wallets : Progress → S → Progress × S
    migrate_wallets w s = elim (blockchain_path blockchain s) [
      | none ↦ (record w { migrated = false }, s)
      | some path ↦ process_files (old.glob_json path s) (record w { migrated = false }) s
    ]
