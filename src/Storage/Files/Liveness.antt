-- ===== src/Storage/Files/Liveness.antt =====
-- The files of a vault on a disk on which nothing fails.
use Prim.Native.String.{◌++◌ as append}
use emerald_rs.Prelude.{
  ℕ, ◌≡◌, ◌≢◌, refl, ◌∙◌, ==_iff, String, true, Option, none, some, List, Result, ok, err, arith,
}
use emerald_rs.Structs.{Uuid, ConversionError}
use emerald_rs.Storage.Disk.{
  Node, file, directory, FileSystem, IsFileSystem, Paths, VaultSuffix, suffix_text,
}
use emerald_rs.Storage.Archive.{Archive, ArchiveType, create}
use emerald_rs.Storage.Files.{
  Item, safe_update, replace, write_new, drop_backup, get_filename_for, get, update, update_file,
}
use emerald_rs.Storage.Files.View.{
  path_of, backup_of, IsVaultPaths, vault_kind, readable, content, view,
}

-- A file is read, a new name is free, and what is no directory is written.
pub record IsReliable {S PathBuf : Type 0} (fs : FileSystem S PathBuf) : Type 0 where
  pub read_total :
      (p : PathBuf) (s : S) (bs : List ℕ) → fs.node s p ≡ some (file bs) → (fs.read p s).0 ≡ ok bs
  pub rename_total :
      (from to : PathBuf) (s : S) (bs : List ℕ)
      → fs.node s from ≡ some (file bs)
      → fs.node s to ≡ none
      → (fs.rename from to s).0 ≡ ok tt
  pub write_total :
      (p : PathBuf) (bs : List ℕ) (s : S) → fs.node s p ≡ none → (fs.write p bs s).0 ≡ ok tt

module _ {S PathBuf : Type 0} (paths : Paths PathBuf) (fs : FileSystem S PathBuf)
    (laws : IsFileSystem fs paths.related) (dir : PathBuf) (names : IsVaultPaths paths dir)
    (reliable : IsReliable fs) where
  -- On a disk on which nothing fails, a file that has no backup is updated with success.
  pub safe_update-succeeds :
      (f backup : PathBuf) (ext : String) (archive : Archive PathBuf) (new_content old : List ℕ)
      (s : S)
      → f ≢ backup
      → paths.extension f ≡ some ext
      → paths.with_extension f (append ext ".bak") ≡ backup
      → fs.node s f ≡ some (file old)
      → fs.node s backup ≡ none
      → (safe_update paths fs f new_content (some archive) s).0 ≡ ok tt
  unfolding safe_update replace write_new drop_backup
  safe_update-succeeds f backup ext archive new_content old s apart named same there free =
      let moved = reliable.rename_total f backup s old there free in
      let done = reliable.write_total f new_content _ (laws.rename_ok f backup s apart moved).1 in
      rw (there, named, same, free, moved, done) refl

  module _ {P : Type 0} (kind : VaultSuffix) (item : Item P) where
    pub update-succeeds :
        (trim_end : String → String) (now : String) (p : P) (bs old : List ℕ) (s : S)
        → item.try_into p ≡ ok bs
        → fs.node s (path_of paths dir kind (item.get_id p)) ≡ some (file old)
        → fs.node s (backup_of paths dir kind (item.get_id p)) ≡ none
        → (update paths fs (vault_kind dir kind) item trim_end now p s).0 ≡ ok true
    unfolding update update_file get_filename_for
    update-succeeds trim_end now p bs old s made there free =
        let id = item.get_id p in
        rw
          (
            there,
            made,
            safe_update-succeeds (path_of paths dir kind id) (backup_of paths dir kind id)
                (suffix_text kind) (create paths dir ArchiveType.update now) bs old s
                (names.backup_apart kind kind id id) (names.extension_of kind id) refl there free,
          )
          refl

    -- On a disk on which nothing fails, `get` returns what the identifier holds.
    pub get-succeeds :
        (s : S) (id : Uuid) (p : P)
        → view paths fs dir kind item s id ≡ some p
        → item.get_id p ≡ id
        → (get paths fs (vault_kind dir kind) item id s).0 ≡ ok p
    unfolding get get_filename_for
    get-succeeds s id p held same = go (fs.node s (path_of paths dir kind id)) refl held
      where
        from_content :
            (bs : List ℕ) (t : Result ConversionError P)
            → item.try_from bs ≡ t
            → readable t ≡ some p
            → item.try_from bs ≡ ok p
        from_content bs (ok q) is h = is ∙ cc
        from_content bs (err e) is h = absurd (ground arith)

        go :
            (n : Option Node)
            → fs.node s (path_of paths dir kind id) ≡ n
            → content paths fs dir kind item n ≡ some p
            → (get paths fs (vault_kind dir kind) item id s).0 ≡ ok p
        go none is h = absurd (ground arith)
        go (some directory) is h = absurd (ground arith)
        go (some (file bs)) is h =
            rw
              (
                get,
                get_filename_for,
                reliable.read_total _ s bs is,
                from_content bs (item.try_from bs) refl h,
                (==_iff (item.get_id p) id).1 same,
              )
              refl
