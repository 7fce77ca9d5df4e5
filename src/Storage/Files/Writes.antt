-- ===== src/Storage/Files/Writes.antt =====
-- What a successful write or removal of a file changes.
use emerald_rs.Prelude.{
  ℕ, ◌≡◌, inl, inr, refl, ◌∙◌, String, Bool, true, Option, none, some, List, Result, ok, err,
  Bool-cases, arith,
}
use emerald_rs.Structs.{Uuid, VaultError, ConversionError}
use emerald_rs.Storage.Access.{written, removed}
use emerald_rs.Storage.Disk.{
  Node, file, directory, FileSystem, IsFileSystem, Paths, exists, is_file, VaultSuffix, suffix_text,
}
use emerald_rs.Storage.Archive.{Archive, ArchiveType, create, submit, delete}
use emerald_rs.Storage.Archive.Frame.{submit-other, submit_ok}
use emerald_rs.Storage.Files.{
  Item, StandardVaultFiles, is_ok, safe_update, get_filename_for, remove, add, update, add_new,
  update_file, true_if_ok,
}
use emerald_rs.Storage.Files.Safety.{
  is_ok-true, is_ok-false, IsKept, safe_update-IsKept, safe_update-other,
}
use emerald_rs.Storage.Files.View.{
  path_of, backup_of, IsVaultPaths, vault_kind, readable, view as view_of,
}
use emerald_rs.Storage.Files.Reads.{
  is_some_node-false, view-written, view-removed, differs, finalize_here,
}

module _ {S PathBuf P : Type 0} (paths : Paths PathBuf) (fs : FileSystem S PathBuf)
    (laws : IsFileSystem fs paths.related) (dir : PathBuf) (names : IsVaultPaths paths dir)
    (kind : VaultSuffix) (item : Item P) where
  abbrev self : StandardVaultFiles PathBuf
  self = vault_kind dir kind

  abbrev view : S → Uuid → Option P
  view = view_of paths fs dir kind item

  add_new-written :
      (s : S) (p : P) (q : Option P) (id : Uuid)
      → ((bs : List ℕ) → item.try_into p ≡ ok bs → readable (item.try_from bs) ≡ q)
      → (add_new paths fs self item p (item.try_into p) s).0 ≡ ok id
      → (id ≡ item.get_id p)
        × (view (add_new paths fs self item p (item.try_into p) s).1
            ≡ written (view s) (item.get_id p) q)
  unfolding add_new get_filename_for
  add_new-written s p q id codec h = go (item.try_into p) refl h
    where
      go :
          (t : Result ConversionError (List ℕ))
          → item.try_into p ≡ t
          → (add_new paths fs self item p t s).0 ≡ ok id
          → (id ≡ item.get_id p)
            × (view (add_new paths fs self item p t s).1 ≡ written (view s) (item.get_id p) q)
      go (err e) is h = absurd (ground arith)
      go (ok bs) is h =
          let f = path_of paths dir kind (item.get_id p) in
          elim (Bool-cases (is_ok (fs.write f bs s).0)) [
            | inr failed ↦ absurd (cc (rw (is_ok-false _ failed).1 at h))
            | inl done ↦
                let written_ok = is_ok-true _ done in
                (
                  cc (rw written_ok at h),
                  view-written paths fs laws dir names kind item s _ (item.get_id p) bs q
                      (codec bs is) (laws.write_ok f bs s written_ok)
                      (λ j other.
                        laws.write_other f (path_of paths dir kind j) bs s
                          (differs paths fs laws dir names kind item (item.get_id p) j other)),
                )
          ]

  -- A stored item is added where there was none: what the identifier holds is then what the bytes of the
  -- item read as.
  pub add-written :
      (s : S) (p : P) (q : Option P) (id : Uuid)
      → ((bs : List ℕ) → item.try_into p ≡ ok bs → readable (item.try_from bs) ≡ q)
      → (add paths fs self item p s).0 ≡ ok id
      → (id ≡ item.get_id p)
        × (view s (item.get_id p) ≡ none)
        × (view (add paths fs self item p s).1 ≡ written (view s) (item.get_id p) q)
  unfolding add add_new get_filename_for
  add-written s p q id codec h =
      elim (Bool-cases (exists fs s (path_of paths dir kind (item.get_id p)))) [
        | inl there ↦ absurd (cc (rw there at h))
        | inr missing ↦
            let empty = is_some_node-false paths fs laws dir names kind item _ missing in
            let (same, kept) = add_new-written s p q id codec (rw missing at h) in
            (same, rw empty refl, rw missing kept)
      ]

  safe_update-written :
      (now : String) (id : Uuid) (bs : List ℕ) (s : S)
      → (safe_update paths fs
          (path_of paths dir kind id)
          bs
          (some (create paths dir ArchiveType.update now))
          s).0
        ≡ ok tt
      → fs.node
          (safe_update paths fs
            (path_of paths dir kind id)
            bs
            (some (create paths dir ArchiveType.update now))
            s).1
          (path_of paths dir kind id)
        ≡ some (file bs)
  unfolding safe_update
  safe_update-written now id bs s h = go (fs.node s f) refl
    where
      f : PathBuf
      f = path_of paths dir kind id

      archive : Archive PathBuf
      archive = create paths dir ArchiveType.update now

      kept-ok :
          (old : List ℕ) (r : Result VaultError (Unit {0}) × S)
          → r.0 ≡ ok tt
          → IsKept paths fs laws archive f (backup_of paths dir kind id) old bs r
          → fs.node r.1 f ≡ some (file bs)
      kept-ok old (ok _, s) h k = k
      kept-ok old (err e, s) h k = absurd (ground arith)

      go :
          (n : Option Node)
          → fs.node s f ≡ n
          → fs.node (safe_update paths fs f bs (some archive) s).1 f ≡ some (file bs)
      go none is = absurd (cc (rw (safe_update, is) at h))
      go (some directory) is = absurd (cc (rw (safe_update, is) at h))
      go (some (file old)) is = kept-ok old _ h (
          safe_update-IsKept paths fs laws archive f (backup_of paths dir kind id)
            (names.backup_apart kind kind id id) (names.archive_apart now kind id) old bs
            (suffix_text kind) s (names.extension_of kind id) refl is)

  update_file-written :
      (trim_end : String → String) (now : String) (s : S) (p : P) (q : Option P) (b : Bool)
      → ((bs : List ℕ) → item.try_into p ≡ ok bs → readable (item.try_from bs) ≡ q)
      → (update_file paths fs self item trim_end now
          (path_of paths dir kind (item.get_id p))
          (item.try_into p)
          s).0
        ≡ ok b
      → (b ≡ true)
        × (view
              (update_file paths fs self item trim_end now
                (path_of paths dir kind (item.get_id p))
                (item.try_into p)
                s).1
            ≡ written (view s) (item.get_id p) q)
  unfolding update_file
  update_file-written trim_end now s p q b codec h = go (item.try_into p) refl h
    where
      f : PathBuf
      f = path_of paths dir kind (item.get_id p)

      archive : Archive PathBuf
      archive = create paths dir ArchiveType.update now

      go :
          (t : Result ConversionError (List ℕ))
          → item.try_into p ≡ t
          → (update_file paths fs self item trim_end now f t s).0 ≡ ok b
          → (b ≡ true)
            × (view (update_file paths fs self item trim_end now f t s).1
                ≡ written (view s) (item.get_id p) q)
      go (err e) is h = absurd (ground arith)
      go (ok bs) is h =
          let done = safe_update paths fs f bs (some archive) s in
          let (finished, right) = succeeded done.0 h in
          (
            right,
            view-written paths fs laws dir names kind item s _ (item.get_id p) bs q (codec bs is)
                (finalize_here paths fs laws dir names kind item trim_end ArchiveType.update now
                    (item.get_id p) done.1
                  ∙ safe_update-written now (item.get_id p) bs s finished)
                (λ j other.
                  finalize_here paths fs laws dir names kind item trim_end ArchiveType.update now j
                    done.1
                  ∙ safe_update-other paths fs laws archive f
                      (backup_of paths dir kind (item.get_id p)) (path_of paths dir kind j)
                      (differs paths fs laws dir names kind item (item.get_id p) j other)
                      (names.backup_apart kind kind j (item.get_id p))
                      (names.archive_apart now kind j) bs (suffix_text kind) s
                      (names.extension_of kind (item.get_id p)) refl),
          )
        where
          succeeded :
              (r : Result VaultError (Unit {0}))
              → true_if_ok paths fs self item r ≡ ok b
              → (r ≡ ok tt) × (b ≡ true)
          succeeded (ok _) h = (refl, cc)
          succeeded (err e) h = absurd (ground arith)

  pub update-written :
      (trim_end : String → String) (now : String) (s : S) (p : P) (q : Option P) (b : Bool)
      → ((bs : List ℕ) → item.try_into p ≡ ok bs → readable (item.try_from bs) ≡ q)
      → (update paths fs self item trim_end now p s).0 ≡ ok b
      → (b ≡ true)
        × (view (update paths fs self item trim_end now p s).1 ≡ written (view s) (item.get_id p) q)
  unfolding update update_file get_filename_for
  update-written trim_end now s p q b codec h =
      elim (Bool-cases (exists fs s (path_of paths dir kind (item.get_id p)))) [
        | inr missing ↦ absurd (cc (rw missing at h))
        | inl there ↦ rw there (update_file-written trim_end now s p q b codec (rw there at h))
      ]

  pub remove-removed :
      (trim_end : String → String) (now : String) (s : S) (id : Uuid) (b : Bool)
      → (remove paths fs self trim_end now id s).0 ≡ ok b
      → view (remove paths fs self trim_end now id s).1 ≡ removed (view s) id
  unfolding remove get_filename_for
  remove-removed trim_end now s id b h =
      elim (Bool-cases (exists fs s (path_of paths dir kind id))) [
        | inr missing ↦ rw missing (
            view-removed paths fs laws dir names kind item s s id
              (is_some_node-false paths fs laws dir names kind item _ missing) (λ j other. refl))
        | inl there ↦ elim (Bool-cases (is_file fs s (path_of paths dir kind id))) [
          | inr not_file ↦ absurd (cc (rw (there, not_file) at h))
          | inl a_file ↦
              let archive : Archive PathBuf = create paths dir delete now in
              let gone = submit paths fs archive (path_of paths dir kind id) s in
              elim (Bool-cases (is_ok gone.0)) [
                | inr failed ↦ absurd (cc (rw (there, a_file, failed) at h))
                | inl done ↦
                    rw (there, a_file, done)
                      (view-removed paths fs laws dir names kind item s _ id
                        (finalize_here paths fs laws dir names kind item trim_end delete now id
                            gone.1
                          ∙ submit_ok paths fs laws archive (path_of paths dir kind id) s
                              (names.archive_apart now kind id) (is_ok-true _ done))
                        (λ j other.
                          finalize_here paths fs laws dir names kind item trim_end delete now j
                            gone.1
                          ∙ submit-other paths fs laws archive (path_of paths dir kind id)
                              (path_of paths dir kind j) s
                              (differs paths fs laws dir names kind item id j other)
                              (names.archive_apart now kind j)))
              ]
        ]
      ]
