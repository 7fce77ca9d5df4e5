-- ===== src/Storage/Recovery/Restores.antt =====
-- An item whose file is missing and whose backup is there gets its data back.
use emerald_rs.Prelude.{
  ℕ, ◌≡◌, ◌≢◌, ◌⊎◌, inl, inr, refl, sym, ◌∙◌, subst, String, Bool, true, false, none, some, List,
  [], ◌∷◌, All, Result, ok, err, Bool-cases, arith, ltb, ◌&&◌,
}
use emerald_rs.Structs.{Uuid}
use emerald_rs.Storage.Disk.{file, FileSystem, IsFileSystem, Paths, is_file, VaultSuffix}
use emerald_rs.Storage.Archive.{Archive, ArchiveType, create}
use emerald_rs.Storage.Archive.Frame.{finalize-other}
use emerald_rs.Storage.Files.View.{path_of, backup_of, IsVaultPaths}
use emerald_rs.Storage.Files.Liveness.{IsReliable}
use emerald_rs.Storage.Recovery.{
  Progress, is_backup_name, is_backup_file, backup_files, revert_each, closed, reverted,
  revert_backups,
}
use emerald_rs.Storage.Recovery.Steps.{
  IsBackupPaths, IsItemBackup, IsLost, revert_one-present, revert_one-IsLost, revert_one-restored,
}

module _ {S PathBuf : Type 0} (paths : Paths PathBuf) (fs : FileSystem S PathBuf)
    (laws : IsFileSystem fs paths.related) (dir : PathBuf) (names : IsVaultPaths paths dir)
    (backups : IsBackupPaths paths dir) where
  module _ (now : String) (kind : VaultSuffix) (id : Uuid) where
    abbrev archive : Archive PathBuf
    archive = create paths dir ArchiveType.recover now

    abbrev p : PathBuf
    p = path_of paths dir kind id

    abbrev b : PathBuf
    b = backup_of paths dir kind id

    abbrev IsAmong : List PathBuf → Type 0
    IsAmong [] = ⊥
    IsAmong (f ∷ fs') = (f ≡ b) ⊎ IsAmong fs'

    revert_each-present :
        (fs' : List PathBuf) (bs : List ℕ) (st : Progress S)
        → All (IsItemBackup paths fs laws dir names backups) fs'
        → fs.node st.disk p ≡ some (file bs)
        → fs.node (revert_each paths fs dir archive fs' st).disk p ≡ some (file bs)
    unfolding revert_each
    revert_each-present [] bs st h here = here
    revert_each-present (f ∷ fs') bs st ((k, j, is), h) here =
        revert_each-present fs' bs _ h
          (rw is (revert_one-present paths fs laws dir names backups now kind id k j bs st here))

    revert_each-restored :
        (reliable : IsReliable fs) (fs' : List PathBuf) (bs : List ℕ) (st : Progress S)
        → All (IsItemBackup paths fs laws dir names backups) fs'
        → IsAmong fs'
        → IsLost paths fs laws dir names backups now kind id bs st.disk
        → fs.node (revert_each paths fs dir archive fs' st).disk p ≡ some (file bs)
    unfolding revert_each
    revert_each-restored reliable [] bs st h among lost = absurd among
    revert_each-restored reliable (f ∷ fs') bs st ((k, j, is), h) among lost =
        elim (Bool-cases (paths.equal f b)) [
          | inl same ↦
              let here : f ≡ b = (backups.equal_path f b).0 same in
              revert_each-present fs' bs _ h (
                rw here (
                  revert_one-restored paths fs laws dir names backups now kind id reliable bs st
                    lost))
          | inr differ ↦
              let apart : b ≢ backup_of paths dir k j = (λ same. unequal differ (is ∙ sym same)) in
              revert_each-restored reliable fs' bs _ h (later among (unequal differ)) (
                rw is (
                  revert_one-IsLost paths fs laws dir names backups now kind id k j bs st apart
                    lost))
        ]
      where
        unequal : paths.equal f b ≡ false → f ≢ b
        unequal differ same = absurd (ground (arith, (backups.equal_path f b).1 same))

        later : (f ≡ b) ⊎ IsAmong fs' → f ≢ b → IsAmong fs'
        later (inl same) apart = absurd (apart same)
        later (inr rest) apart = rest

    -- The directory lists the path.
    abbrev pub IsListed : List (Result String PathBuf) → Type 0
    IsListed [] = ⊥
    IsListed (r ∷ es) = (r ≡ ok b) ⊎ IsListed es

    -- What is named as a backup is the backup of an item.
    abbrev pub IsTidy : Result String PathBuf → Type 0
    IsTidy (ok f) =
        is_backup_name paths (paths.file_name f) ≡ true
        → IsItemBackup paths fs laws dir names backups f
    IsTidy (err _) = Unit {0}

    backup_files-All :
        (s : S) (es : List (Result String PathBuf))
        → All IsTidy es
        → All (IsItemBackup paths fs laws dir names backups) (backup_files paths fs dir s es)
    backup_files-All s [] h = tt
    backup_files-All s (err e ∷ es) (_, h) = backup_files-All s es h
    backup_files-All s (ok f ∷ es) (tidy, h) = elim (Bool-cases (is_backup_file paths fs dir s f)) [
      | inl kept ↦ rw kept (tidy (second (is_file fs s f) _ kept), backup_files-All s es h)
      | inr out ↦ rw out (backup_files-All s es h)
    ]
      where
        second : (x y : Bool) → x && y ≡ true → y ≡ true
        second x y h = ground arith

    backup_files-IsAmong :
        (s : S) (es : List (Result String PathBuf)) (bs : List ℕ)
        → fs.node s b ≡ some (file bs)
        → IsListed es
        → IsAmong (backup_files paths fs dir s es)
    backup_files-IsAmong s [] bs saved h = absurd h
    backup_files-IsAmong s (err e ∷ es) bs saved (inl same) = absurd (ground arith)
    backup_files-IsAmong s (err e ∷ es) bs saved (inr rest) =
        backup_files-IsAmong s es bs saved rest
    backup_files-IsAmong s (ok f ∷ es) bs saved (inl same) =
        let here : b ≡ f = cc in rw (← here, saved, backups.backup_named kind id) (inl refl)
    backup_files-IsAmong s (ok f ∷ es) bs saved (inr rest) =
        elim (Bool-cases (is_backup_file paths fs dir s f)) [
          | inl kept ↦ rw kept (inr (backup_files-IsAmong s es bs saved rest))
          | inr out ↦ rw out (backup_files-IsAmong s es bs saved rest)
        ]

    closed-other :
        (trim_end : String → String) (st : Progress S)
        → fs.node (closed paths fs dir archive trim_end st) p ≡ fs.node st.disk p
    closed-other trim_end st = elim (Bool-cases (ltb 0 st.count_archived)) [
      | inl some_archived ↦ rw some_archived (
          finalize-other paths fs laws archive (names.archive_inside now) trim_end p st.disk
            (names.archive_apart now kind id))
      | inr none_archived ↦ rw none_archived refl
    ]

    reverted-restores :
        (reliable : IsReliable fs) (trim_end : String → String) (es : List (Result String PathBuf))
        (bs : List ℕ) (r : Result String (List (Result String PathBuf)) × S)
        → r.0 ≡ ok es
        → IsListed es
        → All IsTidy es
        → fs.node r.1 p ≡ none
        → fs.node r.1 b ≡ some (file bs)
        → ((n : ℕ) × ((reverted paths fs dir archive trim_end r).0 ≡ ok n))
          × (fs.node (reverted paths fs dir archive trim_end r).1 p ≡ some (file bs))
    unfolding reverted
    reverted-restores reliable trim_end es bs (err e, s) listed there tidy gone saved =
        absurd (ground arith)
    reverted-restores reliable trim_end es bs (ok fs', s) listed there tidy gone saved =
        let same : es ≡ fs' = cc in
        (
          (_, refl),
          closed-other trim_end (
                revert_each paths fs dir archive (backup_files paths fs dir s fs')
                  (record { count = 0; count_archived = 0; disk = s }))
              ∙ revert_each-restored reliable (backup_files paths fs dir s fs') bs _
                  (backup_files-All s fs' (subst (All IsTidy) same tidy))
                  (backup_files-IsAmong s fs' bs saved (subst IsListed same there)) (gone, saved),
        )

    -- On a disk on which nothing fails, in a directory whose backups are those of items, the
    -- recovery succeeds and gives the data of its backup to an item that has lost its file and
    -- whose backup is listed.
    pub revert_backups-restores :
        (reliable : IsReliable fs) (trim_end : String → String) (es : List (Result String PathBuf))
        (bs : List ℕ) (s : S)
        → (fs.read_dir dir s).0 ≡ ok es
        → IsListed es
        → All IsTidy es
        → fs.node s p ≡ none
        → fs.node s b ≡ some (file bs)
        → ((n : ℕ) × ((revert_backups paths fs dir trim_end now s).0 ≡ ok n))
          × (fs.node (revert_backups paths fs dir trim_end now s).1 p ≡ some (file bs))
    unfolding revert_backups
    revert_backups-restores reliable trim_end es bs s listed there tidy gone saved =
        reverted-restores reliable trim_end es bs (fs.read_dir dir s) listed there tidy
          (laws.read_dir_node dir p s ∙ gone) (laws.read_dir_node dir b s ∙ saved)
