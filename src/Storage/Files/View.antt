-- ===== src/Storage/Files/View.antt =====
-- What the files of a vault hold, and what their names promise.
use Prim.Native.String.{◌++◌ as append}
use emerald_rs.Prelude.{
  ℕ, ◌≡◌, ◌≢◌, refl, String, true, false, Option, none, some, List, Result, ok, err,
}
use emerald_rs.Structs.{Uuid, ConversionError}
use emerald_rs.Storage.Disk.{Node, file, directory, FileSystem, Paths, VaultSuffix, suffix_text}
use emerald_rs.Storage.Archive.{archive_dir}
use emerald_rs.Storage.Files.{Item, StandardVaultFiles, entry_name}

-- The paths of the files of the vault in `dir`.
module _ {PathBuf : Type 0} (paths : Paths PathBuf) (dir : PathBuf) where
  abbrev pub path_of : VaultSuffix → Uuid → PathBuf
  path_of kind id = paths.join dir (entry_name paths (suffix_text kind) id)

  abbrev pub backup_of : VaultSuffix → Uuid → PathBuf
  backup_of kind id = paths.with_extension (path_of kind id) (append (suffix_text kind) ".bak")

-- Files of different items have different names, which are not those of backups, and no archive is
-- above or below a file of an item.
pub record IsVaultPaths {PathBuf : Type 0} (paths : Paths PathBuf) (dir : PathBuf) : Type 0 where
  pub path_of_id :
      (kind other : VaultSuffix) (id j : Uuid)
      → path_of paths dir kind id ≡ path_of paths dir other j
      → id ≡ j
  pub path_of_kind :
      (kind other : VaultSuffix) (id j : Uuid)
      → path_of paths dir kind id ≡ path_of paths dir other j
      → kind ≡ other
  pub extension_of :
      (kind : VaultSuffix) (id : Uuid)
      → paths.extension (path_of paths dir kind id) ≡ some (suffix_text kind)
  pub backup_apart :
      (kind other : VaultSuffix) (id j : Uuid)
      → path_of paths dir kind id ≢ backup_of paths dir other j
  pub archive_apart :
      (now : String) (kind : VaultSuffix) (id : Uuid)
      → paths.related (paths.join (paths.join dir archive_dir) now) (path_of paths dir kind id)
        ≡ false
  pub archive_inside :
      (now name : String)
      → paths.related
          (paths.join (paths.join dir archive_dir) now)
          (paths.join (paths.join (paths.join dir archive_dir) now) name)
        ≡ true

abbrev pub readable : {P : Type 0} → Result ConversionError P → Option P
readable (ok p) = some p
readable (err e) = none

module _ {P : Type 0} (item : Item P) where
  abbrev read_made : Result ConversionError (List ℕ) → Option P
  read_made (ok bs) = readable (item.try_from bs)
  read_made (err e) = none

  -- What is read back of an item from the bytes that it is stored as, if anything.
  unfoldable pub read_back : P → Option P
  read_back p = read_made (item.try_into p)

  pub read_back_lem :
      (p : P) (bs : List ℕ) → item.try_into p ≡ ok bs → readable (item.try_from bs) ≡ read_back p
  unfolding read_back
  read_back_lem p bs h = rw h refl

module _ {PathBuf : Type 0} (dir : PathBuf) (kind : VaultSuffix) where
  abbrev pub vault_kind : StandardVaultFiles PathBuf
  vault_kind = record { dir = dir; suffix = suffix_text kind }

module _ {S PathBuf P : Type 0} (paths : Paths PathBuf) (fs : FileSystem S PathBuf) (dir : PathBuf)
    (kind : VaultSuffix) (item : Item P) where
  abbrev pub content : Option Node → Option P
  content (some (file bs)) = readable (item.try_from bs)
  content (some directory) = none
  content none = none

  -- What the file of an identifier holds.
  abbrev pub view : S → Uuid → Option P
  view s id = content (fs.node s (path_of paths dir kind id))
