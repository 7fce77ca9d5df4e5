-- ===== src/Migration/V1/Migrate.antt =====
-- `migrate` of src/migration/source/v1.rs: an old vault is migrated and its key files are archived.
use Prim.Native.String.{◌++◌ as append}
use emerald_rs.Prelude.{
  ℕ, ◌+◌, ltb, ◌||◌, if◌then◌else◌, String, Bool, true, false, Option, none, some, [], Result, ok,
  err,
}
use emerald_rs.Chains.{Blockchain}
use emerald_rs.Structs.{Instant, VaultError}
use emerald_rs.Storage.Disk.{FileSystem, Paths}
use emerald_rs.Storage.Archive.{Archive, ArchiveType, create, submit, write}
use emerald_rs.Storage.Standard.{create_vault}
use emerald_rs.Storage.VaultStorage.{VaultStorage}
use emerald_rs.Migration.{
  MigrationResult, default_result, log_error, log_info, set_wallets, has_log, logs_to_string,
}
use emerald_rs.Migration.AddToVault.{MigrationLib}
use emerald_rs.Migration.V1.{OldVault, Progress, logged, blockchain_path, migrate_wallets}

pub data MigrationError : Type 0 where
  vault_error other_error : String → MigrationError

-- `{:?}` of a chain
abbrev debug_chain : Blockchain → String
debug_chain Blockchain.bitcoin = "Bitcoin"
debug_chain Blockchain.bitcoin_testnet = "BitcoinTestnet"
debug_chain Blockchain.ethereum = "Ethereum"
debug_chain Blockchain.ethereum_classic = "EthereumClassic"
debug_chain Blockchain.kovan_testnet = "KovanTestnet"

abbrev pub told : String → Blockchain → Progress → Progress
told text blockchain w = logged (log_info (append text (debug_chain blockchain))) w

abbrev pub note_archived : Result String (Unit {0}) → Progress → Progress
note_archived (ok _) w = w
note_archived (err e) w = logged (log_error (append "Failed to add to archive. Error: " e)) w

abbrev pub readme_text : MigrationResult → String
readme_text r = append "= Migration From Vault V1 Storage\n\n" (
    append "\n== DESCRIPTION\n\n" (
      append "Necessary upgrade of the Vault storage from Version 1 to Version 3\n"
        (append "\n== LOG\n\n" (logs_to_string r))))

abbrev pub started : Progress
started = record {
  migration = log_info "Start migration from Vault V1" default_result;
  created_wallets = [];
  migrated = false;
}

abbrev pub finished : Progress → MigrationResult
finished w = set_wallets w.created_wallets (log_info "Migration finished" w.migration)

module _ {S PathBuf : Type 0} (paths : Paths PathBuf) (fs : FileSystem S PathBuf)
    (old : OldVault S PathBuf) (lib : MigrationLib) (vault : VaultStorage S PathBuf) (now : Instant)
    (archive : Archive PathBuf) where
  abbrev pub submit_found : Option PathBuf → Progress → S → Progress × S
  submit_found none w s = (w, s)
  submit_found (some path) w s =
      let (r, s') = submit paths fs archive path s in (note_archived r w, s')

  abbrev pub archive_chain : Blockchain → Bool → Progress → ℕ → S → (Progress × ℕ) × S
  archive_chain blockchain false w moved s = ((w, moved), s)
  archive_chain blockchain true w moved s =
      let (w', s') =
        submit_found (blockchain_path old blockchain s)
          (told "Moving to archive keys for " blockchain w) s in
      ((w', moved + 1), s')

  -- The closure for a chain.
  unfoldable pub migrate_chain : Blockchain → Progress → ℕ → S → (Progress × ℕ) × S
  migrate_chain blockchain w moved s =
      let (w', s') =
        migrate_wallets old lib vault now blockchain (told "Migrate " blockchain w) s in
      archive_chain blockchain w'.migrated (told "Done migrating " blockchain w') moved s'

  abbrev write_readme : MigrationResult → ℕ → S → S
  write_readme r moved s =
      if ltb 0 moved || has_log r
      then (write paths fs archive "README.txt" (readme_text r) s).1
      else s

  -- What `migrate` does in the vault that it has opened; the one chain is Ethereum Classic.
  unfoldable pub migrate_opened : S → MigrationResult × S
  unfolding migrate_chain
  migrate_opened s =
      let ((w, moved), s') = migrate_chain Blockchain.ethereum_classic started 0 s in
      (finished w, write_readme (finished w) moved s')

module _ {S PathBuf : Type 0} (paths : Paths PathBuf) (fs : FileSystem S PathBuf)
    (old : OldVault S PathBuf) (lib : MigrationLib) (now : Instant)
    (error_text : VaultError → String) where
  -- What follows `VaultStorage::create`; `date` is the time in the name of the archive.
  abbrev pub migrate_created :
      PathBuf
      → String
      → Result VaultError (VaultStorage S PathBuf) × S
      → Result MigrationError MigrationResult × S
  migrate_created target date (err e, s) = (err (vault_error (error_text e)), s)
  migrate_created target date (ok vault, s) =
      let (r, s') =
        migrate_opened paths fs old lib vault now (create paths target ArchiveType.migrate date)
          s in
      (ok r, s')

  -- `V1Storage::migrate`, into the vault `storage`
  unfoldable pub migrate :
      VaultStorage S PathBuf → PathBuf → String → S → Result MigrationError MigrationResult × S
  migrate storage target date s =
      migrate_created target date (create_vault paths fs storage target s)
