-- ===== src/Storage/Recovery.antt =====
-- `VaultStorage::revert_backups` of src/storage/vault.rs: what an update that broke off has left is put back.
pub mod Steps
pub mod Restores
use emerald_rs.Prelude.{
  ℕ, ◌+◌, ◌&&◌, if◌then◌else◌, ltb, String, Bool, true, false, Option, none, some, List, [], ◌∷◌,
  Result, ok, err,
}
use emerald_rs.Structs.{VaultError, filesystem_error}
use emerald_rs.Storage.Access.{Io}
use emerald_rs.Storage.Disk.{FileSystem, Paths, exists, is_file}
use emerald_rs.Storage.Archive.{Archive, ArchiveType, create, submit, finalize}

-- The counters and the disk.
pub record Progress (S : Type 0) : Type 0 where
  pub count : ℕ
  pub count_archived : ℕ
  pub disk : S

module _ {PathBuf : Type 0} (paths : Paths PathBuf) where
  abbrev pub is_backup_name : Option String → Bool
  is_backup_name (some fname) = paths.is_backup fname
  is_backup_name none = false

module _ {S PathBuf : Type 0} (paths : Paths PathBuf) (fs : FileSystem S PathBuf)
    (dir : PathBuf) where
  -- The filters on the entries of the directory.
  abbrev pub is_backup_file : S → PathBuf → Bool
  is_backup_file s f = is_file fs s f && is_backup_name paths (paths.file_name f)

  abbrev pub backup_files : S → List (Result String PathBuf) → List PathBuf
  backup_files s [] = []
  backup_files s (err e ∷ es) = backup_files s es
  backup_files s (ok f ∷ es) =
      if is_backup_file s f then f ∷ backup_files s es else backup_files s es

  module _ (archive : Archive PathBuf) where
    -- Failures of the disk are only logged.
    restore : PathBuf → PathBuf → Progress S → Progress S
    restore f orig p =
        if paths.equal orig f
        then p
        else if exists fs p.disk orig
        then record {
          count = p.count + 1;
          count_archived = p.count_archived + 1;
          disk = (submit paths fs archive f p.disk).1;
        }
        else record {
          count = p.count + 1;
          count_archived = p.count_archived;
          disk = (fs.rename f orig p.disk).1;
        }

    unfoldable pub revert_one : PathBuf → Progress S → Progress S
    unfolding restore
    revert_one f p = elim (paths.file_stem f) [
      | some stem ↦ restore f (paths.join dir stem) p
      | none ↦ p
    ]

    unfoldable pub revert_each : List PathBuf → Progress S → Progress S
    unfolding revert_one
    revert_each [] p = p
    revert_each (f ∷ fs') p = revert_each fs' (revert_one f p)

    abbrev closed : (String → String) → Progress S → S
    closed trim_end p =
        if ltb 0 p.count_archived then finalize paths fs archive trim_end p.disk else p.disk

    reverted :
        (String → String)
        → Result String (List (Result String PathBuf)) × S
        → Result VaultError ℕ × S
    unfolding revert_each
    reverted trim_end (err e, s) = (err (filesystem_error e), s)
    reverted trim_end (ok es, s) =
        let p =
          revert_each (backup_files s es) (record { count = 0; count_archived = 0; disk = s }) in
        (ok p.count, closed trim_end p)

  unfoldable pub revert_backups : (String → String) → String → Io S ℕ
  unfolding reverted
  revert_backups trim_end now s =
      reverted (create paths dir ArchiveType.recover now) trim_end (fs.read_dir dir s)
