-- ===== src/Storage/Files/Refinement.antt =====
-- The files of a vault are a storage as its clients expect it.
use emerald_rs.Prelude.{String, Option}
use emerald_rs.Structs.{Uuid}
use emerald_rs.Storage.Access.{IsVault}
use emerald_rs.Storage.Disk.{FileSystem, IsFileSystem, Paths, VaultSuffix}
use emerald_rs.Storage.Files.{Item, StandardVaultFiles, vault_files}
use emerald_rs.Storage.Files.View.{
  IsVaultPaths, read_back, read_back_lem, vault_kind, view as view_of,
}
use emerald_rs.Storage.Files.Reads.{get_ok, get_view, list_view}
use emerald_rs.Storage.Files.Writes.{add-written, update-written, remove-removed}

module _ {S PathBuf P : Type 0} (paths : Paths PathBuf) (fs : FileSystem S PathBuf)
    (laws : IsFileSystem fs paths.related) (dir : PathBuf) (names : IsVaultPaths paths dir)
    (kind : VaultSuffix) (item : Item P) where
  abbrev self : StandardVaultFiles PathBuf
  self = vault_kind dir kind

  abbrev view : S → Uuid → Option P
  view = view_of paths fs dir kind item

  -- For any items, the files of a vault are a storage as its clients expect it, whatever operations of
  -- the disk fail: an identifier holds what its file reads as, if it can be read, a successful `add` or
  -- `update` makes that what the bytes of the item are read back as, a successful `remove` nothing,
  -- each for the identifier alone, and a successful `get` returns it.
  pub vault_files-IsVault :
      (trim_end : String → String) (now : String)
      → IsVault (vault_files paths fs self item trim_end now) view item.get_id (read_back item)
  unfolding vault_files
  vault_files-IsVault trim_end now = record {
    list_view = list_view paths fs laws dir names kind item;
    get_view = get_view paths fs laws dir names kind item;
    get_ok = get_ok paths fs laws dir names kind item;
    add_ok = λ s p id.
        add-written paths fs laws dir names kind item s p (read_back item p) id
          (read_back_lem item p);
    update_ok = λ s p b.
        update-written paths fs laws dir names kind item trim_end now s p (read_back item p) b
          (read_back_lem item p);
    remove_ok = remove-removed paths fs laws dir names kind item trim_end now;
  }
