-- ===== src/Storage/Recovery/Steps.antt =====
-- One step of the recovery, on the backup of an item.
use emerald_rs.Prelude.{
  ℕ, ◌≡◌, ◌≢◌, ◌↔◌, inl, inr, refl, sym, ap, ◌∙◌, String, true, false, Option, none, some, List,
  Bool-cases, arith,
}
use emerald_rs.Structs.{Uuid}
use emerald_rs.Storage.Disk.{
  Node, file, FileSystem, IsFileSystem, Paths, exists, is_some_node, VaultSuffix, suffix_text,
}
use emerald_rs.Storage.Archive.{Archive, ArchiveType, create, archive_dir}
use emerald_rs.Storage.Archive.Frame.{submit-other}
use emerald_rs.Storage.Files.{entry_name}
use emerald_rs.Storage.Files.View.{path_of, backup_of, IsVaultPaths}
use emerald_rs.Storage.Files.Liveness.{IsReliable}
use emerald_rs.Storage.Recovery.{Progress, is_backup_name, restore, revert_one}

-- What the names of backups promise.
pub record IsBackupPaths {PathBuf : Type 0} (paths : Paths PathBuf) (dir : PathBuf) : Type 0 where
  pub equal_path : (p q : PathBuf) → (paths.equal p q ≡ true) ↔ (p ≡ q)
  pub stem_of :
      (kind : VaultSuffix) (id : Uuid)
      → paths.file_stem (backup_of paths dir kind id)
        ≡ some (entry_name paths (suffix_text kind) id)
  pub backup_named :
      (kind : VaultSuffix) (id : Uuid)
      → is_backup_name paths (paths.file_name (backup_of paths dir kind id)) ≡ true
  pub archive_apart :
      (now : String) (kind : VaultSuffix) (id : Uuid)
      → paths.related (paths.join (paths.join dir archive_dir) now) (backup_of paths dir kind id)
        ≡ false

module _ {S PathBuf : Type 0} (paths : Paths PathBuf) (fs : FileSystem S PathBuf)
    (laws : IsFileSystem fs paths.related) (dir : PathBuf) (names : IsVaultPaths paths dir)
    (backups : IsBackupPaths paths dir) where
  -- The backup of some item.
  abbrev pub IsItemBackup : PathBuf → Type 0
  IsItemBackup f = (kind : VaultSuffix) × (id : Uuid) × (f ≡ backup_of paths dir kind id)

  same_backup :
      (kind other : VaultSuffix) (id j : Uuid)
      → path_of paths dir kind id ≡ path_of paths dir other j
      → backup_of paths dir kind id ≡ backup_of paths dir other j
  same_backup kind other id j same =
      ap (λ k. backup_of paths dir k id) (names.path_of_kind kind other id j same)
      ∙ ap (backup_of paths dir other) (names.path_of_id kind other id j same)

  not_equal : (p q : PathBuf) → p ≢ q → paths.equal p q ≡ false
  not_equal p q apart = elim (Bool-cases (paths.equal p q)) [
    | inl same ↦ absurd (apart ((backups.equal_path p q).0 same))
    | inr differ ↦ differ
  ]

  exists_node : (s : S) (q : PathBuf) → exists fs s q ≡ false → fs.node s q ≡ none
  exists_node s q h = go (fs.node s q) refl h
    where
      go : (n : Option Node) → fs.node s q ≡ n → is_some_node fs n ≡ false → fs.node s q ≡ none
      go none is h = is
      go (some n) is h = absurd (ground arith)

  module _ (now : String) (kind : VaultSuffix) (id : Uuid) where
    abbrev pub archive : Archive PathBuf
    archive = create paths dir ArchiveType.recover now

    abbrev pub p : PathBuf
    p = path_of paths dir kind id

    abbrev pub b : PathBuf
    b = backup_of paths dir kind id

    -- One step on the backup of an item, by whether the item has its file.
    step-archived :
        (k : VaultSuffix) (j : Uuid) (q : PathBuf) (st : Progress S)
        → exists fs st.disk (path_of paths dir k j) ≡ true
        → q ≢ backup_of paths dir k j
        → paths.related archive.dir q ≡ false
        → fs.node (revert_one paths fs dir archive (backup_of paths dir k j) st).disk q
          ≡ fs.node st.disk q
    unfolding revert_one restore
    step-archived k j q st there apart far =
        rw
          (
            revert_one,
            backups.stem_of k j,
            restore,
            not_equal (path_of paths dir k j) (backup_of paths dir k j)
                (names.backup_apart k k j j),
            there,
          )
          (submit-other paths fs laws archive (backup_of paths dir k j) q st.disk apart far)

    step-renamed :
        (k : VaultSuffix) (j : Uuid) (st : Progress S)
        → exists fs st.disk (path_of paths dir k j) ≡ false
        → (revert_one paths fs dir archive (backup_of paths dir k j) st).disk
          ≡ (fs.rename (backup_of paths dir k j) (path_of paths dir k j) st.disk).1
    unfolding revert_one restore
    step-renamed k j st missing =
        rw
          (
            revert_one,
            backups.stem_of k j,
            restore,
            not_equal (path_of paths dir k j) (backup_of paths dir k j)
                (names.backup_apart k k j j),
            missing,
          )
          refl

    -- A file that is there is left alone.
    pub revert_one-present :
        (k : VaultSuffix) (j : Uuid) (bs : List ℕ) (st : Progress S)
        → fs.node st.disk p ≡ some (file bs)
        → fs.node (revert_one paths fs dir archive (backup_of paths dir k j) st).disk p
          ≡ some (file bs)
    revert_one-present k j bs st here =
        elim (Bool-cases (exists fs st.disk (path_of paths dir k j))) [
          | inl there ↦
              step-archived k j p st there (names.backup_apart kind k id j)
                (names.archive_apart now kind id)
              ∙ here
          | inr missing ↦ rw (step-renamed k j st missing) (
              laws.rename_other (backup_of paths dir k j) (path_of paths dir k j) p st.disk
                (names.backup_apart kind k id j)
                (λ same. absurd (
                  some_none (sym here ∙ ap (fs.node st.disk) same ∙ exists_node st.disk _ missing)))
              ∙ here)
        ]
      where
        some_none : {n : Node} → some n ≡ none → ⊥
        some_none h = ground arith

    -- Until its turn comes, the file stays missing and the backup stays.
    abbrev pub IsLost : List ℕ → S → Type 0
    IsLost bs s = (fs.node s p ≡ none) × (fs.node s b ≡ some (file bs))

    pub revert_one-IsLost :
        (k : VaultSuffix) (j : Uuid) (bs : List ℕ) (st : Progress S)
        → b ≢ backup_of paths dir k j
        → IsLost bs st.disk
        → IsLost bs (revert_one paths fs dir archive (backup_of paths dir k j) st).disk
    revert_one-IsLost k j bs st apart (gone, saved) =
        elim (Bool-cases (exists fs st.disk (path_of paths dir k j))) [
          | inl there ↦ (
            step-archived k j p st there (names.backup_apart kind k id j)
                  (names.archive_apart now kind id)
                ∙ gone,
            step-archived k j b st there apart (backups.archive_apart now kind id) ∙ saved,
          )
          | inr missing ↦ rw (step-renamed k j st missing) (
            laws.rename_other (backup_of paths dir k j) (path_of paths dir k j) p st.disk
                  (names.backup_apart kind k id j)
                  (λ same. absurd (apart (same_backup kind k id j same)))
                ∙ gone,
            laws.rename_other (backup_of paths dir k j) (path_of paths dir k j) b st.disk apart
                  (λ same. absurd (names.backup_apart k kind j id (sym same)))
                ∙ saved,
          )
        ]

    pub revert_one-restored :
        (reliable : IsReliable fs) (bs : List ℕ) (st : Progress S)
        → IsLost bs st.disk
        → fs.node (revert_one paths fs dir archive b st).disk p ≡ some (file bs)
    revert_one-restored reliable bs st (gone, saved) = rw (step-renamed kind id st (rw gone refl)) (
        (laws.rename_ok b p st.disk (λ same. absurd (names.backup_apart kind kind id id (sym same)))
          (reliable.rename_total b p st.disk bs saved gone)).0
        ∙ saved)
