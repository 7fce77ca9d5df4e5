-- ===== src/Storage/Files.antt =====
-- `StandardVaultFiles`, `safe_update` and `try_vault_file` of src/storage/vault.rs: an item is in a file that
-- is named for its identifier and its kind. The texts of the time come in as arguments.
pub mod Safety
pub mod View
pub mod Reads
pub mod Writes
pub mod Refinement
pub mod Keeping
pub mod Liveness
use Prim.Native.String.{◌++◌ as append}
use emerald_rs.Prelude.{
  ℕ, ◌==◌, ◌||◌, ◌&&◌, if◌then◌else◌, not, str_eq, String, Bool, true, false, Option, none, some,
  List, [], ◌∷◌, Result, ok, err, map_err, compare,
}
use emerald_rs.Structs.{
  Uuid, VaultError, filesystem_error, incorrect_id_error, conversion_error, ConversionError,
  invalid_protobuf,
}
use emerald_rs.Storage.Access.{Io, VaultAccess, sort_by}
use emerald_rs.Storage.Disk.{FileSystem, Paths, exists, is_dir, is_file}
use emerald_rs.Storage.Archive.{Archive, ArchiveType, create, delete, submit, finalize}

-- `HasUuid` and the conversions of an item from and to bytes
pub record Item (P : Type 0) : Type 0 where
  pub get_id : P → Uuid
  pub try_from : List ℕ → Result ConversionError P
  pub try_into : P → Result ConversionError (List ℕ)

pub record StandardVaultFiles (PathBuf : Type 0) : Type 0 where
  pub dir : PathBuf
  pub suffix : String

module _ {A : Type 0} where
  abbrev pub is_ok : Result String A → Bool
  is_ok (ok _) = true
  is_ok (err _) = false

  -- `.map_err(|_| ConversionError::InvalidProtobuf)?`
  abbrev converted : Result ConversionError A → Result VaultError A
  converted r = map_err (λ _. conversion_error invalid_protobuf) r

module _ {PathBuf : Type 0} (paths : Paths PathBuf) where
  -- The file of an identifier: `format!("{}.{}", id, suffix)`.
  abbrev pub entry_name : String → Uuid → String
  entry_name suffix id = append (paths.uuid_text id) (append "." suffix)

  abbrev matched : String → String → Option Uuid → Option Uuid
  matched suffix name none = none
  matched suffix name (some uuid) = if str_eq (entry_name suffix uuid) name then some uuid else none

  abbrev captured : String → String → Option (String × String) → Option Uuid
  captured suffix name none = none
  captured suffix name (some (id, act_suffix)) =
      if str_eq act_suffix suffix then matched suffix name (paths.uuid_of id) else none

  -- The panic on an identifier that the pattern matches and `Uuid::from_str` does not is left out here.
  unfoldable pub try_vault_file : PathBuf → String → Option Uuid
  try_vault_file file suffix = elim (paths.file_name file) [
    | none ↦ none
    | some name ↦ captured suffix name (paths.captures name)
  ]

module _ {S PathBuf : Type 0} (paths : Paths PathBuf) (fs : FileSystem S PathBuf) where
  -- The write has failed: the backup takes its name again. The failure of the removal is only logged.
  revert : PathBuf → PathBuf → Io S (Unit {0})
  revert file backup s =
      let (moved, s') = fs.rename backup file (fs.remove_file file s).1 in
      if is_ok moved then (err (filesystem_error "Failed to update"), s') else (
        err (filesystem_error "Failed to create update filesystem, and data stuck with backup"),
        s',
      )

  archived : Option (Archive PathBuf) → PathBuf → S → Bool × S
  archived none backup s = (false, s)
  archived (some archive) backup s = let (r, s') = submit paths fs archive backup s in (is_ok r, s')

  drop_backup : Option (Archive PathBuf) → PathBuf → Io S (Unit {0})
  unfolding archived
  drop_backup archive backup s =
      let (kept, s') = archived archive backup s in
      (ok tt, if kept then s' else (fs.remove_file backup s').1)

  write_new : PathBuf → PathBuf → List ℕ → Option (Archive PathBuf) → Io S (Unit {0})
  unfolding revert drop_backup
  write_new file backup new_content archive s =
      let (done, s') = fs.write file new_content s in
      if is_ok done then drop_backup archive backup s' else revert file backup s'

  replace : PathBuf → PathBuf → List ℕ → Option (Archive PathBuf) → Io S (Unit {0})
  unfolding write_new
  replace file backup new_content archive s =
      if exists fs s backup
      then (err (filesystem_error "Already updating"), s)
      else let (moved, s') = fs.rename file backup s in
        if is_ok moved
        then write_new file backup new_content archive s'
        else (err (filesystem_error "Failed to create backup"), s')

  unfoldable pub safe_update : PathBuf → List ℕ → Option (Archive PathBuf) → Io S (Unit {0})
  unfolding replace
  safe_update file new_content archive s =
      if not (exists fs s file) || is_dir fs s file
      then (err (filesystem_error "Original file doesn't exist or invalid"), s)
      else elim (paths.extension file) [
        | none ↦ (err (filesystem_error "Invalid extension"), s)
        | some current_extension ↦
            replace file (paths.with_extension file (append current_extension ".bak")) new_content
              archive s
      ]

  module _ (self : StandardVaultFiles PathBuf) where
    unfoldable pub get_filename_for : Uuid → PathBuf
    get_filename_for id = paths.join self.dir (entry_name paths self.suffix id)

    abbrev cons_id : Option Uuid → List Uuid → List Uuid
    cons_id none ids = ids
    cons_id (some id) ids = id ∷ ids

    -- The loop over the directory stops at the first entry that cannot be read.
    unfoldable pub list_files : S → List (Result String PathBuf) → Result VaultError (List Uuid)
    unfolding try_vault_file
    list_files s [] = ok []
    list_files s (err e ∷ es) = err (filesystem_error e)
    list_files s (ok path ∷ es) = elim (list_files s es) [
      | err e ↦ err e
      | ok ids ↦
          ok
            (if is_file fs s path then cons_id (try_vault_file paths path self.suffix) ids else ids)
    ]

    sorted : Result VaultError (List Uuid) → Result VaultError (List Uuid)
    unfolding sort_by
    sorted (ok ids) = ok (sort_by compare ids)
    sorted (err e) = err e

    listed : Result String (List (Result String PathBuf)) × S → Result VaultError (List Uuid) × S
    unfolding list_files sorted
    listed (ok es, s) = (sorted (list_files s es), s)
    listed (err e, s) = (err (filesystem_error e), s)

    unfoldable pub list : Io S (List Uuid)
    unfolding listed
    list s = if is_dir fs s self.dir then listed (fs.read_dir self.dir s) else (ok [], s)

    -- the archive of what is removed at the time `now`
    abbrev pub opened : String → Archive PathBuf
    opened now = create paths self.dir delete now

    unfoldable pub remove : (String → String) → String → Uuid → Io S Bool
    unfolding get_filename_for
    remove trim_end now id s =
        let f = get_filename_for id in
        if not (exists fs s f)
        then (ok false, s)
        else if not (is_file fs s f)
        then (err (filesystem_error "Not a file"), s)
        else let (r, s') = submit paths fs (opened now) f s in
          if is_ok r
          then (ok true, finalize paths fs (opened now) trim_end s')
          else (err (filesystem_error "Failed to add to archive"), s')

    module _ {P : Type 0} (item : Item P) where
      abbrev checked : Uuid → Result VaultError P → Result VaultError P
      checked id (err e) = err e
      checked id (ok entry) =
          if not (item.get_id entry == id) then err incorrect_id_error else ok entry

      abbrev read_item : Result String (List ℕ) → Result VaultError P
      read_item (err e) = err (filesystem_error e)
      read_item (ok data') = converted (item.try_from data')

      unfoldable pub get : Uuid → Io S P
      unfolding get_filename_for
      get id s = let (r, s') = fs.read (get_filename_for id) s in (checked id (read_item r), s')

      abbrev added : Uuid → Result String (Unit {0}) → Result VaultError Uuid
      added id (ok _) = ok id
      added id (err e) = err (filesystem_error e)

      add_new : P → Result ConversionError (List ℕ) → Io S Uuid
      unfolding get_filename_for
      add_new entry (err _) s = (err (conversion_error invalid_protobuf), s)
      add_new entry (ok data') s =
          let (r, s') = fs.write (get_filename_for (item.get_id entry)) data' s in
          (added (item.get_id entry) r, s')

      unfoldable pub add : P → Io S Uuid
      unfolding add_new
      add entry s =
          if exists fs s (get_filename_for (item.get_id entry))
          then (err (filesystem_error "Already exists"), s)
          else add_new entry (item.try_into entry) s

      abbrev true_if_ok : Result VaultError (Unit {0}) → Result VaultError Bool
      true_if_ok (ok _) = ok true
      true_if_ok (err e) = err e

      update_file :
          (String → String) → String → PathBuf → Result ConversionError (List ℕ) → Io S Bool
      unfolding safe_update
      update_file trim_end now file (err _) s = (err (conversion_error invalid_protobuf), s)
      update_file trim_end now file (ok data') s =
          let archive : Archive PathBuf = create paths self.dir ArchiveType.update now in
          let (r, s') = safe_update file data' (some archive) s in
          (true_if_ok r, finalize paths fs archive trim_end s')

      unfoldable pub update : (String → String) → String → P → Io S Bool
      unfolding update_file
      update trim_end now entry s =
          if exists fs s (get_filename_for (item.get_id entry))
          then update_file trim_end now (get_filename_for (item.get_id entry)) (item.try_into entry)
              s
          else (err incorrect_id_error, s)

      -- `impl VaultAccess<P> for StandardVaultFiles`, with the time at which an archive is made.
      unfoldable pub vault_files : (String → String) → String → VaultAccess S P
      unfolding list get add remove update
      vault_files trim_end now = record {
        list = list;
        get = get;
        add = add;
        remove = remove trim_end now;
        update = update trim_end now;
      }
