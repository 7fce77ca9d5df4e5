-- ===== src/Storage/Files/Keeping.antt =====
-- The files of one kind of item are left alone by the storages of the other kinds.
use mathlib.Core.Path.{fun_ext}
use emerald_rs.Prelude.{
  ℕ, ◌≡◌, ◌≢◌, inl, inr, refl, sym, ap, ◌∙◌, String, List, Result, ok, err, Bool-cases,
}
use emerald_rs.Structs.{Uuid, ConversionError}
use emerald_rs.Storage.Access.{Keeps}
use emerald_rs.Storage.Disk.{
  FileSystem, IsFileSystem, Paths, exists, is_file, VaultSuffix, suffix_text,
}
use emerald_rs.Storage.Archive.{Archive, ArchiveType, create, submit, finalize, delete}
use emerald_rs.Storage.Archive.Frame.{submit-other, finalize-other}
use emerald_rs.Storage.Files.{
  Item, is_ok, get_filename_for, remove, get, add, add_new, update, update_file, vault_files,
}
use emerald_rs.Storage.Files.Safety.{safe_update-other}
use emerald_rs.Storage.Files.View.{path_of, backup_of, IsVaultPaths, vault_kind, content, view}
use emerald_rs.Storage.Files.Reads.{list-node}

module _ {S PathBuf P : Type 0} (paths : Paths PathBuf) (fs : FileSystem S PathBuf)
    (laws : IsFileSystem fs paths.related) (dir : PathBuf) (names : IsVaultPaths paths dir)
    (kind other : VaultSuffix) (apart : kind ≢ other) (item : Item P) (trim_end : String → String)
    (now : String) where
  foreign : (id j : Uuid) → path_of paths dir other j ≢ path_of paths dir kind id
  foreign id j same = absurd (apart (sym (names.path_of_kind other kind j id same)))

  finalize_keeps :
      (type' : ArchiveType) (j : Uuid) (s : S)
      → fs.node
          (finalize paths fs (create paths dir type' now) trim_end s)
          (path_of paths dir other j)
        ≡ fs.node s (path_of paths dir other j)
  finalize_keeps type' j s =
      finalize-other paths fs laws (create paths dir type' now) (names.archive_inside now) trim_end
        _ s (names.archive_apart now other j)

  remove_keeps :
      (s : S) (id j : Uuid)
      → fs.node
          (remove paths fs (vault_kind dir kind) trim_end now id s).1
          (path_of paths dir other j)
        ≡ fs.node s (path_of paths dir other j)
  unfolding remove get_filename_for
  remove_keeps s id j =
      let f = path_of paths dir kind id in
      let archive : Archive PathBuf = create paths dir delete now in
      let gone = submit paths fs archive f s in
      let kept =
        submit-other paths fs laws archive f (path_of paths dir other j) s (foreign id j)
          (names.archive_apart now other j) in
      elim (Bool-cases (exists fs s f)) [
        | inr missing ↦ rw missing refl
        | inl there ↦ elim (Bool-cases (is_file fs s f)) [
          | inr not_file ↦ rw (there, not_file) refl
          | inl a_file ↦ elim (Bool-cases (is_ok gone.0)) [
            | inl done ↦ rw (there, a_file, done) (finalize_keeps delete j gone.1 ∙ kept)
            | inr failed ↦ rw (there, a_file, failed) kept
          ]
        ]
      ]

  add_keeps :
      (s : S) (p : P) (j : Uuid)
      → fs.node (add paths fs (vault_kind dir kind) item p s).1 (path_of paths dir other j)
        ≡ fs.node s (path_of paths dir other j)
  unfolding add add_new get_filename_for
  add_keeps s p j = elim (Bool-cases (exists fs s (path_of paths dir kind (item.get_id p)))) [
    | inl there ↦ rw there refl
    | inr missing ↦ rw missing (go (item.try_into p))
  ]
    where
      go :
          (t : Result ConversionError (List ℕ))
          → fs.node
              (add_new paths fs (vault_kind dir kind) item p t s).1
              (path_of paths dir other j)
            ≡ fs.node s (path_of paths dir other j)
      go (err e) = refl
      go (ok bs) =
          laws.write_other (path_of paths dir kind (item.get_id p)) (path_of paths dir other j) bs s
            (foreign (item.get_id p) j)

  update_keeps :
      (s : S) (p : P) (j : Uuid)
      → fs.node
          (update paths fs (vault_kind dir kind) item trim_end now p s).1
          (path_of paths dir other j)
        ≡ fs.node s (path_of paths dir other j)
  unfolding update update_file get_filename_for
  update_keeps s p j = elim (Bool-cases (exists fs s (path_of paths dir kind (item.get_id p)))) [
    | inr missing ↦ rw missing refl
    | inl there ↦ rw there (go (item.try_into p))
  ]
    where
      f : PathBuf
      f = path_of paths dir kind (item.get_id p)

      go :
          (t : Result ConversionError (List ℕ))
          → fs.node
              (update_file paths fs (vault_kind dir kind) item trim_end now f t s).1
              (path_of paths dir other j)
            ≡ fs.node s (path_of paths dir other j)
      go (err e) = refl
      go (ok bs) =
          let archive : Archive PathBuf = create paths dir ArchiveType.update now in
          finalize_keeps ArchiveType.update j _
          ∙ safe_update-other paths fs laws archive f (backup_of paths dir kind (item.get_id p))
              (path_of paths dir other j) (foreign (item.get_id p) j)
              (names.backup_apart other kind j (item.get_id p)) (names.archive_apart now other j) bs
              (suffix_text kind) s (names.extension_of kind (item.get_id p)) refl

  -- No operation on the files of one kind, whether it succeeds or fails, changes what the files of another kind hold.
  pub vault_files-Keeps :
      {Q : Type 0} (thing : Item Q)
      → Keeps
          (vault_files paths fs (vault_kind dir kind) item trim_end now)
          (view paths fs dir other thing)
  unfolding vault_files get get_filename_for
  vault_files-Keeps thing = record {
    list_keeps = λ s. fun_ext (λ j.
        ap (content paths fs dir other thing)
          (list-node paths fs laws dir names kind item (path_of paths dir other j) s));
    get_keeps = λ s id. fun_ext (λ j.
        ap (content paths fs dir other thing)
          (laws.read_node (path_of paths dir kind id) (path_of paths dir other j) s));
    add_keeps = λ s p. fun_ext (λ j. ap (content paths fs dir other thing) (add_keeps s p j));
    update_keeps = λ s p. fun_ext (λ j. ap (content paths fs dir other thing) (update_keeps s p j));
    remove_keeps =
        λ s id. fun_ext (λ j. ap (content paths fs dir other thing) (remove_keeps s id j));
  }
