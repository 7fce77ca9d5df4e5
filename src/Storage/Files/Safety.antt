-- ===== src/Storage/Files/Safety.antt =====
-- `safe_update`: whatever fails, the data of the file is not lost.
use Prim.Native.String.{◌++◌ as append}
use emerald_rs.Prelude.{
  ℕ, ◌≡◌, ◌≢◌, ◌⊎◌, inl, inr, refl, sym, ◌∙◌, String, true, false, some, List, Result, ok, err,
  Bool-cases, arith, not, ◌||◌,
}
use emerald_rs.Structs.{VaultError}
use emerald_rs.Storage.Disk.{file, FileSystem, IsFileSystem, Paths, exists, is_dir}
use emerald_rs.Storage.Archive.{Archive}
use emerald_rs.Storage.Archive.Frame.{submit-other}
use emerald_rs.Storage.Files.{is_ok, revert, archived, drop_backup, write_new, replace, safe_update}

pub is_ok-true : (r : Result String (Unit {0})) → is_ok r ≡ true → r ≡ ok tt
is_ok-true (ok _) h = refl
is_ok-true (err e) h = absurd (ground arith)

pub is_ok-false : (r : Result String (Unit {0})) → is_ok r ≡ false → (e : String) × (r ≡ err e)
is_ok-false (ok _) h = absurd (ground arith)
is_ok-false (err e) h = (e, refl)

module _ {S PathBuf : Type 0} (paths : Paths PathBuf) (fs : FileSystem S PathBuf)
    (laws : IsFileSystem fs paths.related) (archive : Archive PathBuf) where
  archived-other :
      (backup p : PathBuf) (s : S)
      → p ≢ backup
      → paths.related archive.dir p ≡ false
      → fs.node (archived paths fs (some archive) backup s).1 p ≡ fs.node s p
  unfolding archived
  archived-other backup p s apart far = submit-other paths fs laws archive backup p s apart far

  drop_backup-other :
      (backup p : PathBuf) (s : S)
      → p ≢ backup
      → paths.related archive.dir p ≡ false
      → fs.node (drop_backup paths fs (some archive) backup s).1 p ≡ fs.node s p
  unfolding drop_backup
  drop_backup-other backup p s apart far =
      let kept = archived-other backup p s apart far in
      elim (Bool-cases (archived paths fs (some archive) backup s).0) [
        | inl moved ↦ rw moved kept
        | inr left ↦ rw left (laws.remove_other backup p _ apart ∙ kept)
      ]

  -- The update has replaced the data, or has failed and the old data is in the file or in its backup.
  abbrev pub IsKept :
      PathBuf → PathBuf → List ℕ → List ℕ → Result VaultError (Unit {0}) × S → Type 0
  IsKept f backup old new_content (ok _, s) = fs.node s f ≡ some (file new_content)
  IsKept f backup old new_content (err _, s) =
      (fs.node s f ≡ some (file old)) ⊎ (fs.node s backup ≡ some (file old))

  module _ (f backup : PathBuf) (apart : f ≢ backup) (far : paths.related archive.dir f ≡ false)
      (old new_content : List ℕ) where
    revert-IsKept :
        (s : S)
        → fs.node s backup ≡ some (file old)
        → IsKept f backup old new_content (revert paths fs f backup s)
    unfolding revert
    revert-IsKept s saved =
        let cleared = (fs.remove_file f s).1 in
        let still : fs.node cleared backup ≡ some (file old) =
          laws.remove_other f backup s (λ same. apart (sym same)) ∙ saved in
        elim (Bool-cases (is_ok (fs.rename backup f cleared).0)) [
          | inl back ↦ rw back (
              inl (
                (laws.rename_ok backup f cleared (λ same. apart (sym same)) (is_ok-true _ back)).0
                ∙ still))
          | inr stuck ↦
              rw stuck
                (inr (laws.rename_failed backup f backup cleared _ (is_ok-false _ stuck).1 ∙ still))
        ]

    write_new-IsKept :
        (s : S)
        → fs.node s backup ≡ some (file old)
        → IsKept f backup old new_content (write_new paths fs f backup new_content (some archive) s)
    unfolding write_new
    write_new-IsKept s saved = elim (Bool-cases (is_ok (fs.write f new_content s).0)) [
      | inl done ↦ rw done (
          drop_backup-other backup f _ apart far
          ∙ laws.write_ok f new_content s (is_ok-true _ done))
      | inr failed ↦ rw failed (
          revert-IsKept _
            (laws.write_other f backup new_content s (λ same. apart (sym same)) ∙ saved))
    ]

    replace-IsKept :
        (s : S)
        → fs.node s f ≡ some (file old)
        → IsKept f backup old new_content (replace paths fs f backup new_content (some archive) s)
    unfolding replace
    replace-IsKept s saved = elim (Bool-cases (exists fs s backup)) [
      | inl busy ↦ rw busy (inl saved)
      | inr free ↦ elim (Bool-cases (is_ok (fs.rename f backup s).0)) [
        | inl moved ↦
            rw (free, moved)
              (write_new-IsKept _
                ((laws.rename_ok f backup s apart (is_ok-true _ moved)).0 ∙ saved))
        | inr failed ↦
            rw (free, failed)
              (inl (laws.rename_failed f backup f s _ (is_ok-false _ failed).1 ∙ saved))
      ]
    ]

    -- The update of a file that holds data, whose name has an extension and is not that of its
    -- backup nor below the archive, either succeeds and the file holds the new content, or fails
    -- and the old data is still in the file or in its backup, whichever operation of the disk has failed.
    pub safe_update-IsKept :
        (ext : String) (s : S)
        → paths.extension f ≡ some ext
        → paths.with_extension f (append ext ".bak") ≡ backup
        → fs.node s f ≡ some (file old)
        → IsKept f backup old new_content (safe_update paths fs f new_content (some archive) s)
    unfolding safe_update
    safe_update-IsKept ext s named same saved = rw (saved, named, same) (replace-IsKept s saved)

  module _ (f backup p : PathBuf) (not_file : p ≢ f) (not_backup : p ≢ backup)
      (far : paths.related archive.dir p ≡ false) (new_content : List ℕ) where
    revert-other : (s : S) → fs.node (revert paths fs f backup s).1 p ≡ fs.node s p
    unfolding revert
    revert-other s =
        let cleared = (fs.remove_file f s).1 in
        let kept =
          laws.rename_other backup f p cleared not_backup not_file
          ∙ laws.remove_other f p s not_file in
        elim (Bool-cases (is_ok (fs.rename backup f cleared).0)) [
          | inl back ↦ rw back kept
          | inr stuck ↦ rw stuck kept
        ]

    write_new-other :
        (s : S)
        → fs.node (write_new paths fs f backup new_content (some archive) s).1 p ≡ fs.node s p
    unfolding write_new
    write_new-other s =
        let kept = laws.write_other f p new_content s not_file in
        elim (Bool-cases (is_ok (fs.write f new_content s).0)) [
          | inl done ↦ rw done (drop_backup-other backup p _ not_backup far ∙ kept)
          | inr failed ↦ rw failed (revert-other _ ∙ kept)
        ]

    replace-other :
        (s : S) → fs.node (replace paths fs f backup new_content (some archive) s).1 p ≡ fs.node s p
    unfolding replace
    replace-other s =
        let kept = laws.rename_other f backup p s not_file not_backup in
        elim (Bool-cases (exists fs s backup)) [
          | inl busy ↦ rw busy refl
          | inr free ↦ elim (Bool-cases (is_ok (fs.rename f backup s).0)) [
            | inl moved ↦ rw (free, moved) (write_new-other _ ∙ kept)
            | inr failed ↦ rw (free, failed) kept
          ]
        ]

    -- An update touches the file, its backup and the archive only.
    pub safe_update-other :
        (ext : String) (s : S)
        → paths.extension f ≡ some ext
        → paths.with_extension f (append ext ".bak") ≡ backup
        → fs.node (safe_update paths fs f new_content (some archive) s).1 p ≡ fs.node s p
    unfolding safe_update
    safe_update-other ext s named same = elim (Bool-cases (not (exists fs s f) || is_dir fs s f)) [
      | inl bad ↦ rw bad refl
      | inr good ↦ rw (good, named, same) (replace-other s)
    ]
