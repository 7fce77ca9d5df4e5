-- ===== src/Storage/Files/Reads.antt =====
-- What the reading of files returns, and when a state differs from another one in one item.
use mathlib.Core.Path.{fun_ext}
use emerald_rs.Prelude.{
  ℕ, ◌≡◌, ◌≢◌, inl, inr, refl, sym, ap, ◌∙◌, String, false, Option, none, some, List, Result, ok,
  err, Bool-cases, arith, ==_iff, ◌==◌,
}
use emerald_rs.Structs.{Uuid, ConversionError}
use emerald_rs.Storage.Access.{written, removed}
use emerald_rs.Storage.Disk.{
  Node, file, FileSystem, IsFileSystem, Paths, is_some_node, is_dir, VaultSuffix,
}
use emerald_rs.Storage.Archive.{ArchiveType, create, finalize}
use emerald_rs.Storage.Archive.Frame.{finalize-other}
use emerald_rs.Storage.Files.{
  Item, StandardVaultFiles, get_filename_for, list, get, checked, converted, read_item, listed,
}
use emerald_rs.Storage.Files.View.{
  path_of, IsVaultPaths, vault_kind, readable, content as content_of, view as view_of,
}

module _ {S PathBuf P : Type 0} (paths : Paths PathBuf) (fs : FileSystem S PathBuf)
    (laws : IsFileSystem fs paths.related) (dir : PathBuf) (names : IsVaultPaths paths dir)
    (kind : VaultSuffix) (item : Item P) where
  abbrev self : StandardVaultFiles PathBuf
  self = vault_kind dir kind

  abbrev view : S → Uuid → Option P
  view = view_of paths fs dir kind item

  pub is_some_node-false : (n : Option Node) → is_some_node fs n ≡ false → n ≡ none
  is_some_node-false none h = refl
  is_some_node-false (some n) h = absurd (ground arith)

  read_item-ok :
      (r : Result String (List ℕ)) (id : Uuid) (p : P)
      → checked paths fs self item id (read_item paths fs self item r) ≡ ok p
      → (bs : List ℕ) × (r ≡ ok bs) × (item.try_from bs ≡ ok p) × (item.get_id p ≡ id)
  read_item-ok (err e) id p h = absurd (ground arith)
  read_item-ok (ok bs) id p h = go (item.try_from bs) refl h
    where
      go :
          (t : Result ConversionError P)
          → item.try_from bs ≡ t
          → checked paths fs self item id (converted t) ≡ ok p
          → (cs : List ℕ) × (◌≡◌ {A = Result String (List ℕ)} (ok bs) (ok cs))
            × (item.try_from cs ≡ ok p)
            × (item.get_id p ≡ id)
      go (err e) is h = absurd (ground arith)
      go (ok q) is h = elim (Bool-cases (item.get_id q == id)) [
        | inr wrong ↦ absurd (cc (rw wrong at h))
        | inl right ↦
            let same : q ≡ p = cc (rw right at h) in
            (
              bs,
              refl,
              is ∙ ap ok same,
              ap item.get_id (sym same) ∙ (==_iff (item.get_id q) id).0 right,
            )
      ]

  pub get_ok :
      (s : S) (id : Uuid) (p : P)
      → (get paths fs self item id s).0 ≡ ok p
      → (view s id ≡ some p) × (item.get_id p ≡ id)
  unfolding get get_filename_for
  get_ok s id p h =
      let (bs, read, from, same) = read_item-ok (fs.read (path_of paths dir kind id) s).0 id p h in
      (rw (laws.read_ok _ s bs read, from) refl, same)

  pub get_view : (s : S) (id : Uuid) → view (get paths fs self item id s).1 ≡ view s
  unfolding get get_filename_for
  get_view s id = fun_ext (λ j.
      ap (content_of paths fs dir kind item)
        (laws.read_node (path_of paths dir kind id) (path_of paths dir kind j) s))

  listed-state :
      (r : Result String (List (Result String PathBuf)) × S) → (listed paths fs self r).1 ≡ r.1
  unfolding listed
  listed-state (ok es, s) = refl
  listed-state (err e, s) = refl

  pub list-node : (p : PathBuf) (s : S) → fs.node (list paths fs self s).1 p ≡ fs.node s p
  unfolding list
  list-node p s = elim (Bool-cases (is_dir fs s dir)) [
    | inl there ↦
        rw there
          (ap (λ t. fs.node t p) (listed-state (fs.read_dir dir s)) ∙ laws.read_dir_node dir p s)
    | inr missing ↦ rw missing refl
  ]

  pub list_view : (s : S) → view (list paths fs self s).1 ≡ view s
  list_view s =
      fun_ext (λ j. ap (content_of paths fs dir kind item) (list-node (path_of paths dir kind j) s))

  -- A state in which the file of `id` alone has changed, to bytes that read as `q`.
  pub view-written :
      (s s' : S) (id : Uuid) (bs : List ℕ) (q : Option P)
      → readable (item.try_from bs) ≡ q
      → fs.node s' (path_of paths dir kind id) ≡ some (file bs)
      → ((j : Uuid)
          → id ≢ j
          → fs.node s' (path_of paths dir kind j) ≡ fs.node s (path_of paths dir kind j))
      → view s' ≡ written (view s) id q
  view-written s s' id bs q from here there = fun_ext (λ j. elim (Bool-cases (id == j)) [
    | inl same ↦ rw (same, ← (==_iff id j).0 same, here, from) refl
    | inr other ↦ rw other (
        ap (content_of paths fs dir kind item)
          (there j (λ e. absurd (ground (arith, (==_iff id j).1 e)))))
  ])

  pub view-removed :
      (s s' : S) (id : Uuid)
      → fs.node s' (path_of paths dir kind id) ≡ none
      → ((j : Uuid)
          → id ≢ j
          → fs.node s' (path_of paths dir kind j) ≡ fs.node s (path_of paths dir kind j))
      → view s' ≡ removed (view s) id
  view-removed s s' id here there = fun_ext (λ j. elim (Bool-cases (id == j)) [
    | inl same ↦ rw (same, ← (==_iff id j).0 same, here) refl
    | inr other ↦ rw other (
        ap (content_of paths fs dir kind item)
          (there j (λ e. absurd (ground (arith, (==_iff id j).1 e)))))
  ])

  pub differs : (id j : Uuid) → id ≢ j → path_of paths dir kind j ≢ path_of paths dir kind id
  differs id j other same = absurd (other (sym (names.path_of_id kind kind j id same)))

  pub finalize_here :
      (trim_end : String → String) (type' : ArchiveType) (now : String) (j : Uuid) (s : S)
      → fs.node
          (finalize paths fs (create paths dir type' now) trim_end s)
          (path_of paths dir kind j)
        ≡ fs.node s (path_of paths dir kind j)
  finalize_here trim_end type' now j s =
      finalize-other paths fs laws (create paths dir type' now) (names.archive_inside now) trim_end
        _ s (names.archive_apart now kind j)
