-- ===== src/Storage/Standard.antt =====
-- `VaultStorage::create` and `remove_wallet` of src/storage/vault.rs: the vault in a directory.
pub mod Removes
pub mod Laws
use emerald_rs.Prelude.{
  ℕ, ◌+◌, ◌==◌, if◌then◌else◌, not, length, is_empty, String, Bool, true, false, Option, none, some,
  List, [], ◌∷◌, Result, ok, err,
}
use emerald_rs.Structs.{Uuid, Wallet, PrivateKeyHolder, Seed, VaultError, filesystem_error}
use emerald_rs.Storage.Access.{Io}
use emerald_rs.Storage.VaultStorage.{VaultStorage, get_wallet_files}
use emerald_rs.Storage.Disk.{FileSystem, Paths, exists, is_dir}
use emerald_rs.Storage.Archive.{Archive, ArchiveType, create, submit, finalize}
use emerald_rs.Storage.Files.{Item, is_ok, StandardVaultFiles, vault_files, get_filename_for}

module _ {S PathBuf : Type 0} (paths : Paths PathBuf) (fs : FileSystem S PathBuf) where
  -- `VaultStorage { dir, keys, wallets, seeds }`
  unfoldable pub vault_at :
      Item PrivateKeyHolder
      → Item Wallet
      → Item Seed
      → (String → String)
      → String
      → PathBuf
      → VaultStorage S PathBuf
  unfolding vault_files get_filename_for
  vault_at key_item wallet_item seed_item trim_end now path =
      let keys : StandardVaultFiles PathBuf = record { dir = path; suffix = "key" } in
      let wallets : StandardVaultFiles PathBuf = record { dir = path; suffix = "wallet" } in
      let seeds : StandardVaultFiles PathBuf = record { dir = path; suffix = "seed" } in
      record {
        keys = vault_files paths fs keys key_item trim_end now;
        wallets = vault_files paths fs wallets wallet_item trim_end now;
        seeds = vault_files paths fs seeds seed_item trim_end now;
        key_filename = get_filename_for paths fs keys;
        wallet_filename = get_filename_for paths fs wallets;
      }

  unfoldable pub in_directory : VaultStorage S PathBuf → PathBuf → Io S (VaultStorage S PathBuf)
  in_directory storage path s =
      if not (is_dir fs s path)
      then (err (filesystem_error "Target path is not a dir"), s)
      else (ok storage, s)

  unfoldable pub with_directory :
      VaultStorage S PathBuf
      → PathBuf
      → Result String (Unit {0}) × S
      → Result VaultError (VaultStorage S PathBuf) × S
  unfolding in_directory
  with_directory storage path (err e, s) = (err (filesystem_error e), s)
  with_directory storage path (ok _, s) = in_directory storage path s

  -- `VaultStorage::create`
  unfoldable pub create_vault : VaultStorage S PathBuf → PathBuf → Io S (VaultStorage S PathBuf)
  unfolding with_directory
  create_vault storage path s =
      with_directory storage path
        (if not (exists fs s path) then fs.create_dir_all path s else (ok tt, s))

  -- The loop over the files: the number of errors.
  unfoldable pub submit_all : Archive PathBuf → List PathBuf → S → ℕ × S
  submit_all archive [] s = (0, s)
  submit_all archive (f ∷ fs') s =
      let (r, s') = submit paths fs archive f s in
      let (errors, s'') = submit_all archive fs' s' in (if is_ok r then errors else errors + 1, s'')

  remove_files : (String → String) → Archive PathBuf → List PathBuf → Io S Bool
  unfolding submit_all
  remove_files trim_end archive all s =
      if is_empty all
      then (ok false, s)
      else let (errors, s') = submit_all archive all s in
        if errors == length all
        then (err (filesystem_error "Failed to add to archive"), s')
        else (ok (errors == 0), finalize paths fs archive trim_end s')

  removed_files :
      (String → String)
      → Archive PathBuf
      → Result VaultError (List PathBuf) × S
      → Result VaultError Bool × S
  unfolding remove_files
  removed_files trim_end archive (err e, s) = (err e, s)
  removed_files trim_end archive (ok all, s) = remove_files trim_end archive all s

  -- `VaultStorage::remove_wallet`
  unfoldable pub remove_wallet :
      VaultStorage S PathBuf → (String → String) → String → PathBuf → Uuid → Io S Bool
  unfolding get_wallet_files removed_files
  remove_wallet self trim_end now dir id s =
      removed_files trim_end (create paths dir ArchiveType.delete now)
        (get_wallet_files self id true s)
