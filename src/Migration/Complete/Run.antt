-- ===== src/Migration/Complete/Run.antt =====
-- `migrate` of src/migration/source/v1.rs, from the opening of the new vault to the archive.
use emerald_rs.Prelude.{
  List, ℕ, ◌≡◌, refl, sym, ap, ◌∙◌, subst, String, Bool, true, false, Option, none, some, Result,
  ok, err, map, All, not, Bool-cases, inl, inr,
}
use emerald_rs.Chains.{Blockchain}
use emerald_rs.Structs.{Uuid, Instant, VaultError, PrivateKeyHolder, Seed, Wallet}
use emerald_rs.Storage.Disk.{FileSystem, Paths, is_dir}
use emerald_rs.Storage.Archive.{Archive, ArchiveType, create, submit}
use emerald_rs.Storage.Standard.{create_vault, in_directory, with_directory}
use emerald_rs.Storage.VaultStorage.{VaultStorage, IsVaultStorage}
use emerald_rs.Migration.{LogMessage, MigrationResult, has_log}
use emerald_rs.Migration.AddToVault.{MigrationLib}
use emerald_rs.Migration.V1.{OldVault, Progress, blockchain_path, migrate_wallets}
use emerald_rs.Migration.V1.Migrate.{
  started, told, finished, note_archived, submit_found, archive_chain, migrate_chain,
  migrate_opened, migrate_created, migrate,
}
use emerald_rs.Migration.Complete.{
  problem-append, wallet_id_of, HasDistinct, IsMigrated, migrate_wallets_complete,
}

-- Nothing is wrong after a step that creates no wallet, so nothing was wrong before it.
abbrev StaysSilent : Progress → Progress → Type 0
StaysSilent w w' = (has_log w.migration ≡ false) × (w'.created_wallets ≡ w.created_wallets)

told_lem :
    (text : String) (blockchain : Blockchain) (w : Progress)
    → has_log (told text blockchain w).migration ≡ false
    → has_log w.migration ≡ false
unfolding has_log
told_lem text blockchain w h = (problem-append w.migration.logs (LogMessage.info _) h).0

finished_lem : (w : Progress) → has_log (finished w) ≡ false → has_log w.migration ≡ false
unfolding has_log
finished_lem w h = (problem-append w.migration.logs (LogMessage.info _) h).0

note_archived_lem :
    (r : Result String (Unit {0})) (w : Progress)
    → has_log (note_archived r w).migration ≡ false
    → StaysSilent w (note_archived r w)
unfolding has_log
note_archived_lem (ok _) w h = (h, refl)
note_archived_lem (err e) w h =
    absurd (cc ((problem-append w.migration.logs (LogMessage.error _) h).1))

module _ {S PathBuf : Type 0} (paths : Paths PathBuf) (fs : FileSystem S PathBuf)
    (old : OldVault S PathBuf) (lib : MigrationLib) (vault : VaultStorage S PathBuf) (now : Instant)
    (archive : Archive PathBuf) where
  submit_found_lem :
      (path : Option PathBuf) (w : Progress) (s : S)
      → has_log (submit_found paths fs old lib vault now archive path w s).0.migration ≡ false
      → StaysSilent w (submit_found paths fs old lib vault now archive path w s).0
  submit_found_lem none w s h = (h, refl)
  submit_found_lem (some path) w s h = note_archived_lem (submit paths fs archive path s).0 w h

  archive_chain_lem :
      (blockchain : Blockchain) (migrated : Bool) (w : Progress) (moved : ℕ) (s : S)
      → has_log
          (archive_chain paths fs old lib vault now archive blockchain migrated w moved
            s).0.0.migration
        ≡ false
      → StaysSilent w
          (archive_chain paths fs old lib vault now archive blockchain migrated w moved s).0.0
  archive_chain_lem blockchain false w moved s h = (h, refl)
  archive_chain_lem blockchain true w moved s h =
      let (silent, same) = submit_found_lem (blockchain_path old blockchain s) _ s h in
      (told_lem _ blockchain w silent, same)

module _ {S PathBuf : Type 0} (paths : Paths PathBuf) (fs : FileSystem S PathBuf) where
  in_directory_lem :
      (storage vault : VaultStorage S PathBuf) (path : PathBuf) (s : S)
      → (in_directory paths fs storage path s).0 ≡ ok vault
      → vault ≡ storage
  unfolding in_directory
  in_directory_lem storage vault path s h = elim (Bool-cases (not (is_dir fs s path))) [
    | inl missing ↦ absurd (cc (rw missing at h))
    | inr there ↦ cc (rw there at h)
  ]

  with_directory_lem :
      (storage vault : VaultStorage S PathBuf) (path : PathBuf)
      (made : Result String (Unit {0}) × S)
      → (with_directory paths fs storage path made).0 ≡ ok vault
      → vault ≡ storage
  unfolding with_directory
  with_directory_lem storage vault path (err e, s) h = cc
  with_directory_lem storage vault path (ok _, s) h = in_directory_lem storage vault path s h

  create_vault_lem :
      (storage vault : VaultStorage S PathBuf) (path : PathBuf) (s : S)
      → (create_vault paths fs storage path s).0 ≡ ok vault
      → vault ≡ storage
  unfolding create_vault
  create_vault_lem storage vault path s h = with_directory_lem storage vault path _ h

module _ {S PathBuf : Type 0} (paths : Paths PathBuf) (fs : FileSystem S PathBuf)
    (old : OldVault S PathBuf) (lib : MigrationLib) (storage : VaultStorage S PathBuf)
    (now : Instant) (view_keys : S → Uuid → Option PrivateKeyHolder)
    (view_seeds : S → Uuid → Option Seed) (view_wallets : S → Uuid → Option Wallet)
    (canon_key : PrivateKeyHolder → Option PrivateKeyHolder) (canon_seed : Seed → Option Seed)
    (canon_wallet : Wallet → Option Wallet)
    (laws : IsVaultStorage storage view_keys view_seeds view_wallets canon_key canon_seed
      canon_wallet) where
  abbrev chain : Blockchain
  chain = Blockchain.ethereum_classic

  abbrev begun : Progress
  begun = told "Migrate " chain started

  -- The state after the loop over the key files, before their directory is archived.
  abbrev pub after_files : S → S
  after_files s = (migrate_wallets old lib storage now chain begun s).1

  abbrev pub IsComplete : List PathBuf → S → MigrationResult → Type 0
  IsComplete files s r =
      (r.wallets ≡ map (wallet_id_of old) files)
      × All (IsMigrated old lib storage now chain view_wallets canon_wallet (after_files s)) files

  migrate_opened_lem :
      (archive : Archive PathBuf) (dir : PathBuf) (s : S)
      → blockchain_path old chain s ≡ some dir
      → HasDistinct old (old.glob_json dir s)
      → has_log (migrate_opened paths fs old lib storage now archive s).0 ≡ false
      → IsComplete (old.glob_json dir s) s (migrate_opened paths fs old lib storage now archive s).0
  unfolding migrate_opened migrate_chain
  migrate_opened_lem archive dir s found distinct h =
      let (w, s') = migrate_wallets old lib storage now chain begun s in
      let done : Progress = told "Done migrating " chain w in
      let w' : Progress =
        (archive_chain paths fs old lib storage now archive chain w.migrated done 0 s').0.0 in
      let (silent, same) =
        archive_chain_lem paths fs old lib storage now archive chain w.migrated done 0 s'
          (finished_lem w' h) in
      let (created, migrated, _) =
        migrate_wallets_complete old lib storage now chain view_keys view_seeds view_wallets
          canon_key canon_seed canon_wallet laws dir begun s found distinct
          (told_lem "Done migrating " chain w silent) in
      (same ∙ created, migrated)

  migrate_created_lem :
      (target : PathBuf) (date : String) (opened : Result VaultError (VaultStorage S PathBuf) × S)
      (dir : PathBuf) (r : MigrationResult)
      → ((vault : VaultStorage S PathBuf) → opened.0 ≡ ok vault → vault ≡ storage)
      → (error_text : VaultError → String)
      → (migrate_created paths fs old lib now error_text target date opened).0 ≡ ok r
      → blockchain_path old chain opened.1 ≡ some dir
      → HasDistinct old (old.glob_json dir opened.1)
      → has_log r ≡ false
      → IsComplete (old.glob_json dir opened.1) opened.1 r
  migrate_created_lem target date (err e, s) dir r only error_text h found distinct silent = cc
  migrate_created_lem target date (ok vault, s) dir r only error_text h found distinct silent =
      let archive = create paths target ArchiveType.migrate date in
      let made : (migrate_opened paths fs old lib vault now archive s).0 ≡ r = cc in
      let done : (migrate_opened paths fs old lib storage now archive s).0 ≡ r =
        ap (λ v. (migrate_opened paths fs old lib v now archive s).0) (sym (only vault refl))
        ∙ made in
      subst (IsComplete (old.glob_json dir s) s) done
        (migrate_opened_lem archive dir s found distinct (ap has_log done ∙ silent))

  -- When the migration of an old vault has a result whose log has no error and no warning, the
  -- directory of the key files of Ethereum Classic is there, and their new identifiers are distinct,
  -- then the wallets of the result are these identifiers, in the order of the files, and before the
  -- directory is archived the storage of wallets holds, under the identifier of each file, what is
  -- read back of the wallet with one entry that `add_to_vault` makes of it. Each storage is one as its
  -- clients expect it, and leaves alone what the others hold.
  pub migrate_complete :
      (error_text : VaultError → String) (target : PathBuf) (date : String) (s : S) (dir : PathBuf)
      (r : MigrationResult)
      → (migrate paths fs old lib now error_text storage target date s).0 ≡ ok r
      → blockchain_path old chain (create_vault paths fs storage target s).1 ≡ some dir
      → HasDistinct old (old.glob_json dir (create_vault paths fs storage target s).1)
      → has_log r ≡ false
      → (r.wallets
          ≡ map (wallet_id_of old) (old.glob_json dir (create_vault paths fs storage target s).1))
        × All
            (IsMigrated old lib storage now chain view_wallets canon_wallet
              (after_files (create_vault paths fs storage target s).1))
            (old.glob_json dir (create_vault paths fs storage target s).1)
  unfolding migrate
  migrate_complete error_text target date s dir r h found distinct silent =
      migrate_created_lem target date (create_vault paths fs storage target s) dir r
        (λ vault made. create_vault_lem paths fs storage vault target s made) error_text h found
        distinct silent
