-- ===== src/Storage/Archive/Frame.antt =====
-- What an archive leaves alone: every path that its directory is not above.
use emerald_rs.Prelude.{
  ◌≡◌, ◌≢◌, refl, sym, ap, ◌∙◌, String, true, false, Option, none, some, Result, ok, err,
  Bool-cases, inl, inr, arith, map_err, not, ◌||◌,
}
use emerald_rs.Storage.Disk.{FileSystem, IsFileSystem, Paths, exists}
use emerald_rs.Storage.Archive.{
  Archive, check_opened, submit, write, write_created, finalize, readme, ArchiveDescription,
  is_parent, is_name,
}

module _ {S PathBuf : Type 0} (paths : Paths PathBuf) (fs : FileSystem S PathBuf)
    (laws : IsFileSystem fs paths.related) (self : Archive PathBuf) where
  check_opened-other :
      (p : PathBuf) (s : S)
      → paths.related self.dir p ≡ false
      → fs.node (check_opened paths fs self s) p ≡ fs.node s p
  unfolding check_opened
  check_opened-other p s far = elim (Bool-cases (exists fs s self.dir)) [
    | inl present ↦ rw present refl
    | inr missing ↦ rw missing (laws.create_dir_other self.dir p s far)
  ]

  pub submit-other :
      (from p : PathBuf) (s : S)
      → p ≢ from
      → paths.related self.dir p ≡ false
      → fs.node (submit paths fs self from s).1 p ≡ fs.node s p
  unfolding submit
  submit-other from p s differ far =
      laws.move_other from self.dir p _ differ far ∙ check_opened-other p s far

  pub submit_ok :
      (from : PathBuf) (s : S)
      → paths.related self.dir from ≡ false
      → (submit paths fs self from s).0 ≡ ok tt
      → fs.node (submit paths fs self from s).1 from ≡ none
  unfolding submit
  submit_ok from s far done = laws.move_ok from self.dir _ far (inner _ _ done)
    where
      inner : (f : String → String) (r : Result String (Unit {0})) → map_err f r ≡ ok tt → r ≡ ok tt
      inner f (ok _) h = refl
      inner f (err e) h = absurd (ground arith)

  module _
      (inside : (name : String) → paths.related self.dir (paths.join self.dir name) ≡ true) where
    apart :
        (p : PathBuf) (name : String)
        → paths.related self.dir p ≡ false
        → p ≢ paths.join self.dir name
    apart p name far same =
        absurd (true-false (sym (inside name) ∙ ap (paths.related self.dir) (sym same) ∙ far))
      where
        true-false : true ≡ false → ⊥
        true-false h = ground arith

    write_created-other :
        (p : PathBuf) (name content : String) (r : Result String (Unit {0}) × S)
        → paths.related self.dir p ≡ false
        → fs.node (write_created paths fs self (paths.join self.dir name) content r).1 p
          ≡ fs.node r.1 p
    unfolding write_created
    write_created-other p name content (err e, s) far = refl
    write_created-other p name content (ok _, s) far =
        laws.write_all_other _ p content s (apart p name far)

    write-other :
        (p : PathBuf) (name content : String) (s : S)
        → paths.related self.dir p ≡ false
        → fs.node (write paths fs self name content s).1 p ≡ fs.node s p
    unfolding write
    write-other p name content s far =
        let opened = check_opened paths fs self s in
        let path = paths.join self.dir name in
        let kept : fs.node opened p ≡ fs.node s p = check_opened-other p s far in
        elim (Bool-cases (
          not (is_parent paths fs self (paths.parent path))
          || not (is_name paths fs self (paths.file_name path) name))) [
            | inl deep ↦ rw deep kept
            | inr first ↦ elim (Bool-cases (exists fs opened path)) [
              | inl taken ↦ rw (first, taken) kept
              | inr free ↦
                  rw (first, free)
                    (write_created-other p name content (fs.create path opened) far
                      ∙ laws.create_other path p opened (apart p name far)
                      ∙ kept)
            ]
          ]

    -- Closing an archive changes nothing outside of its directory.
    pub finalize-other :
        (trim_end : String → String) (p : PathBuf) (s : S)
        → paths.related self.dir p ≡ false
        → fs.node (finalize paths fs self trim_end s) p ≡ fs.node s p
    unfolding finalize
    finalize-other trim_end p s far = go (readme self.archive_type) refl
      where
        go :
            (d : Option ArchiveDescription)
            → readme self.archive_type ≡ d
            → fs.node (finalize paths fs self trim_end s) p ≡ fs.node s p
        go none is = rw (finalize, is) refl
        go (some d) is = rw (finalize, is) (write-other p "README.txt" _ s far)
