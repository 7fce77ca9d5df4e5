-- ===== src/Storage/Standard/Removes.antt =====
-- `remove_wallet` moves the files of the wallet away, and nothing else.
use emerald_rs.Prelude.{
  ◌≡◌, ◌≢◌, ◌==◌, ==_iff, subst, ◌↔◌, inl, inr, refl, sym, ◌∙◌, String, true, false, List, [], ◌∷◌,
  All, length, is_empty, Result, ok, err, Bool-cases, arith, none,
}
use emerald_rs.Structs.{Uuid, VaultError}
use emerald_rs.Storage.VaultStorage.{VaultStorage, get_wallet_files}
use emerald_rs.Storage.Disk.{FileSystem, IsFileSystem, Paths}
use emerald_rs.Storage.Archive.{Archive, ArchiveType, create, submit, finalize, archive_dir}
use emerald_rs.Storage.Archive.Frame.{submit-other, submit_ok, finalize-other}
use emerald_rs.Storage.Files.{is_ok}
use emerald_rs.Storage.Files.Safety.{is_ok-true}
use emerald_rs.Storage.Standard.{submit_all, remove_files, removed_files, remove_wallet}

module _ {S PathBuf : Type 0} (paths : Paths PathBuf) (fs : FileSystem S PathBuf)
    (laws : IsFileSystem fs paths.related) (now : String) (dir : PathBuf)
    (inside : (name : String)
      → paths.related
          (paths.join (paths.join dir archive_dir) now)
          (paths.join (paths.join (paths.join dir archive_dir) now) name)
        ≡ true) where
  abbrev archive : Archive PathBuf
  archive = create paths dir ArchiveType.delete now

  abbrev pub IsOutside : PathBuf → Type 0
  IsOutside p = paths.related (paths.join (paths.join dir archive_dir) now) p ≡ false

  submit_all-other :
      (files : List PathBuf) (p : PathBuf) (s : S)
      → All (λ f. p ≢ f) files
      → IsOutside p
      → fs.node (submit_all paths fs archive files s).1 p ≡ fs.node s p
  unfolding submit_all
  submit_all-other [] p s apart far = refl
  submit_all-other (f ∷ files) p s (other, apart) far =
      submit_all-other files p _ apart far ∙ submit-other paths fs laws archive f p s other far

  removed_files-other :
      (trim_end : String → String) (files : List PathBuf) (p : PathBuf)
      (r : Result VaultError (List PathBuf) × S)
      → r.0 ≡ ok files
      → All (λ f. p ≢ f) files
      → IsOutside p
      → fs.node (removed_files paths fs trim_end archive r).1 p ≡ fs.node r.1 p
  unfolding removed_files remove_files
  removed_files-other trim_end files p (err e, s) found apart far = absurd (ground arith)
  removed_files-other trim_end files p (ok all, s) found apart far =
      let same : files ≡ all = cc in
      let kept = submit_all-other all p s (subst (All (λ f. p ≢ f)) same apart) far in
      elim (Bool-cases (is_empty all)) [
        | inl empty ↦ rw empty refl
        | inr filled ↦ elim (Bool-cases ((submit_all paths fs archive all s).0 == length all)) [
          | inl failed ↦ rw (filled, failed) kept
          | inr moved ↦
              rw (filled, moved)
                (finalize-other paths fs laws archive inside trim_end p _ far ∙ kept)
        ]
      ]

  module _ (equal_path : (p q : PathBuf) → (paths.equal p q ≡ true) ↔ (p ≡ q)) where
    submit_all-gone :
        (files : List PathBuf) (p : PathBuf) (s : S)
        → (submit_all paths fs archive files s).0 ≡ 0
        → IsOutside p
        → fs.node s p ≡ none
        → fs.node (submit_all paths fs archive files s).1 p ≡ none
    unfolding submit_all
    submit_all-gone [] p s clean far gone = gone
    submit_all-gone (f ∷ files) p s clean far gone =
        elim (Bool-cases (is_ok (submit paths fs archive f s).0)) [
          | inr failed ↦ absurd (omega (arith, rw failed at clean))
          | inl moved ↦ elim (Bool-cases (paths.equal f p)) [
            | inl same ↦
                let here : f ≡ p = (equal_path f p).0 same in
                submit_all-gone files p _ (rw moved at clean) far (
                  subst (λ q. fs.node (submit paths fs archive f s).1 q ≡ none) here
                    (submit_ok paths fs laws archive f s (subst IsOutside (sym here) far)
                      (is_ok-true _ moved)))
            | inr differ ↦ submit_all-gone files p _ (rw moved at clean) far (
                submit-other paths fs laws archive f p s
                  (λ same. absurd (ground (arith, (equal_path f p).1 (sym same)))) far
                ∙ gone)
          ]
        ]

    submit_all-All :
        (files : List PathBuf) (s : S)
        → (submit_all paths fs archive files s).0 ≡ 0
        → All IsOutside files
        → All (λ f. fs.node (submit_all paths fs archive files s).1 f ≡ none) files
    unfolding submit_all
    submit_all-All [] s clean far = tt
    submit_all-All (f ∷ files) s clean (out, far) =
        elim (Bool-cases (is_ok (submit paths fs archive f s).0)) [
          | inr failed ↦ absurd (omega (arith, rw failed at clean))
          | inl moved ↦ (
            submit_all-gone files f _ (rw moved at clean) out
                (submit_ok paths fs laws archive f s out (is_ok-true _ moved)),
            submit_all-All files _ (rw moved at clean) far,
          )
        ]

    finalized-All :
        (trim_end : String → String) (files : List PathBuf) (s : S)
        → All IsOutside files
        → All (λ f. fs.node s f ≡ none) files
        → All (λ f. fs.node (finalize paths fs archive trim_end s) f ≡ none) files
    finalized-All trim_end [] s far gone = tt
    finalized-All trim_end (f ∷ files) s (out, far) (none', gone) = (
      finalize-other paths fs laws archive inside trim_end f s out ∙ none',
      finalized-All trim_end files s far gone,
    )

    remove_files-removes :
        (trim_end : String → String) (all : List PathBuf) (s : S)
        → All IsOutside all
        → (remove_files paths fs trim_end archive all s).0 ≡ ok true
        → All (λ f. fs.node (remove_files paths fs trim_end archive all s).1 f ≡ none) all
    unfolding remove_files
    remove_files-removes trim_end all s far done = elim (Bool-cases (is_empty all)) [
      | inl empty ↦ absurd (cc (rw empty at done))
      | inr filled ↦ elim (Bool-cases ((submit_all paths fs archive all s).0 == length all)) [
        | inl failed ↦ absurd (cc (rw (filled, failed) at done))
        | inr moved ↦
            let clean : ((submit_all paths fs archive all s).0 == 0) ≡ true =
              cc (rw (filled, moved) at done) in
            rw (filled, moved)
              (finalized-All trim_end all _ far (submit_all-All all s ((==_iff _ 0).0 clean) far))
      ]
    ]

    removed_files-removes :
        (trim_end : String → String) (files : List PathBuf)
        (r : Result VaultError (List PathBuf) × S)
        → r.0 ≡ ok files
        → All IsOutside files
        → (removed_files paths fs trim_end archive r).0 ≡ ok true
        → All (λ f. fs.node (removed_files paths fs trim_end archive r).1 f ≡ none) files
    unfolding removed_files
    removed_files-removes trim_end files (err e, s) found far done = absurd (ground arith)
    removed_files-removes trim_end files (ok all, s) found far done =
        let same : all ≡ files = cc in
        subst (All (λ f. fs.node (remove_files paths fs trim_end archive all s).1 f ≡ none)) same
          (remove_files-removes trim_end all s (subst (All IsOutside) (sym same) far) done)

  -- Whatever fails, the removal of a wallet leaves alone each path outside of its archive that
  -- is not among the files that the vault names for the wallet and that the search for these
  -- files leaves alone.
  pub remove_wallet-other :
      (self : VaultStorage S PathBuf) (trim_end : String → String) (id : Uuid)
      (files : List PathBuf) (p : PathBuf) (s : S)
      → (get_wallet_files self id true s).0 ≡ ok files
      → fs.node (get_wallet_files self id true s).1 p ≡ fs.node s p
      → All (λ f. p ≢ f) files
      → IsOutside p
      → fs.node (remove_wallet paths fs self trim_end now dir id s).1 p ≡ fs.node s p
  unfolding remove_wallet
  remove_wallet-other self trim_end id files p s found kept apart far =
      removed_files-other trim_end files p (get_wallet_files self id true s) found apart far ∙ kept

  -- A removal of a wallet that reports success leaves none of the files that the vault names
  -- for the wallet, where none of them is below the archive.
  pub remove_wallet-removes :
      (equal_path : (p q : PathBuf) → (paths.equal p q ≡ true) ↔ (p ≡ q))
      (self : VaultStorage S PathBuf) (trim_end : String → String) (id : Uuid)
      (files : List PathBuf) (s : S)
      → (get_wallet_files self id true s).0 ≡ ok files
      → All IsOutside files
      → (remove_wallet paths fs self trim_end now dir id s).0 ≡ ok true
      → All (λ f. fs.node (remove_wallet paths fs self trim_end now dir id s).1 f ≡ none) files
  unfolding remove_wallet
  remove_wallet-removes equal_path self trim_end id files s found far done =
      removed_files-removes equal_path trim_end files (get_wallet_files self id true s) found far
        done
