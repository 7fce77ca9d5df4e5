-- ===== src/Storage/AddressBook/Totals.antt =====
-- When the operations of src/storage/addressbook.rs succeed.
use emerald_rs.Prelude.{
  ℕ, ◌≡◌, refl, ap, ◌∙◌, inl, inr, String, Bool, true, false, Option, none, some, List, ok, err,
  All,
}
use emerald_rs.Structs.{Uuid, ConversionError}
use emerald_rs.Convert.Crates.{ConvertLib, Wire}
use emerald_rs.Convert.Messages.{ProtoBookItem}
use emerald_rs.Convert.Books.{book_to_bytes}
use emerald_rs.Storage.Access.{lift, bind-keeps}
use emerald_rs.Storage.Csv.{CsvFiles, IsCsvFiles, IsReliableCsv}
use emerald_rs.Storage.Bookmarks.{BookTexts, AddressBookmark, row_of, record_of, read_rows}
use emerald_rs.Storage.AddressBook.{
  csv_failed, with_error, get_all, write, add, rewrite, remove, conclude,
}
use emerald_rs.Storage.AddressBook.Tables.{IsBook, get_all-IsBook}
use emerald_rs.Storage.AddressBook.Updates.{rebuild}
use emerald_rs.Storage.AddressBook.Loop.{HasBytes, has_id, rewrite_clean}

module _ {S PathBuf : Type 0} (lib : ConvertLib) (wire : Wire ProtoBookItem) (texts : BookTexts)
    (csv : CsvFiles S PathBuf) (content : S → PathBuf → Option (List (List String)))
    (path : PathBuf) (flushed : S → Bool) (laws : IsCsvFiles csv content flushed)
    (reliable : IsReliableCsv csv content flushed) where
  abbrev Book : S → List AddressBookmark → Type 0
  Book s bs = IsBook lib wire texts csv content path flushed s bs

  pub get_all_total :
      (s : S) (bs : List AddressBookmark)
      → Book s bs
      → (get_all lib wire texts csv path s).0 ≡ ok bs
  unfolding get_all
  get_all_total s bs h = elim h.held [
    | inl (gone, none_held) ↦ rw (gone, none_held) refl
    | inr t ↦
        rw
          (
            laws.exists_content path s t.rows t.content_is,
            reliable.records_total path s t.rows h.flushed_is t.content_is t.rows_valid,
          )
          t.read_is
  ]

  pub add_total :
      (s : S) (b : AddressBookmark) (bytes : List ℕ)
      → book_to_bytes lib wire b.details ≡ ok bytes
      → (add lib wire texts csv path b s).0 ≡ ok b.id
  unfolding add write
  add_total s b bytes encoded =
      rw
        (
          reliable.open_append_total path s,
          encoded,
          reliable.write_record_total path (csv.open_append path s).1
              (row_of (record_of texts b.id bytes)),
          reliable.flush_total path
              (csv.write_record path (row_of (record_of texts b.id bytes))
                (csv.open_append path s).1).1,
        )
        refl

  pub rebuild_eq :
      (id : Uuid) (bs : List AddressBookmark) (bak : PathBuf) (s : S)
      (outcome : Bool × Option ConversionError)
      → (rewrite lib wire texts csv path id bs false none (csv.writer path s).1).0 ≡ ok outcome
      → rebuild lib wire texts csv content path flushed laws id bs bak s
        ≡ conclude lib wire texts csv path bak outcome
            (csv.flush path
              (rewrite lib wire texts csv path id bs false none (csv.writer path s).1).1).1
  rebuild_eq id bs bak s outcome ended =
      rw
        (
          reliable.writer_total path s,
          ended,
          reliable.flush_total path
              (rewrite lib wire texts csv path id bs false none (csv.writer path s).1).1,
        )
        refl

  module _ (s : S) (bs : List AddressBookmark) (id : Uuid)
      (read : (get_all lib wire texts csv path s).0 ≡ ok bs) where
    abbrev after_read : S
    after_read = (get_all lib wire texts csv path s).1

    pub remove_unnamed :
        csv.set_extension path ".bak" ≡ none → (remove lib wire texts csv path id s).1 ≡ after_read
    unfolding remove
    remove_unnamed unnamed = rw (read, unnamed) refl

    pub remove_stuck :
        (bak : PathBuf) (text : String)
        → csv.set_extension path ".bak" ≡ some bak
        → (csv.rename path bak after_read).0 ≡ err text
        → (remove lib wire texts csv path id s).1 ≡ (csv.rename path bak after_read).1
    unfolding remove
    remove_stuck bak text named stuck = rw (read, named, stuck) refl

    pub remove_moved :
        (bak : PathBuf)
        → csv.set_extension path ".bak" ≡ some bak
        → (csv.rename path bak after_read).0 ≡ ok tt
        → remove lib wire texts csv path id s
          ≡ rebuild lib wire texts csv content path flushed laws id bs bak
              (csv.rename path bak after_read).1
    unfolding remove
    remove_moved bak named moved = rw (read, named, moved) refl

  get_all_exists :
      (s : S)
      → csv.exists s path ≡ true
      → csv.exists (get_all lib wire texts csv path s).1 path ≡ true
  unfolding get_all
  get_all_exists s there = rw there (
      bind-keeps (with_error csv_failed (csv.records path))
        (λ lines. lift (read_rows lib wire texts lines)) (λ t. csv.exists t path) s
        (laws.records_exists path path s) (λ _. refl)
      ∙ there)

  rename_table :
      (s : S) (bs : List AddressBookmark) (bak : PathBuf)
      → Book s bs
      → csv.exists s path ≡ true
      → (csv.rename path bak s).0 ≡ ok tt
  rename_table s bs bak h there = elim h.held [
    | inl (gone, none_held) ↦ absurd (cc (rw there at gone))
    | inr t ↦ reliable.rename_total path bak s t.rows t.content_is
  ]

  -- On files that do not fail, a removal from a file that is there succeeds where all bookmarks have
  -- bytes, and tells whether the identifier was found.
  pub remove_total :
      (s : S) (bs : List AddressBookmark) (id : Uuid) (bak : PathBuf)
      → Book s bs
      → csv.exists s path ≡ true
      → csv.set_extension path ".bak" ≡ some bak
      → All (HasBytes lib wire) bs
      → (remove lib wire texts csv path id s).0 ≡ ok (has_id id bs)
  remove_total s bs id bak h there named encoded =
      let read = get_all_total s bs h in
      let s1 = (get_all lib wire texts csv path s).1 in
      let h1 = (get_all-IsBook lib wire texts csv content path flushed laws s bs bs h read).1 in
      let moved = rename_table s1 bs bak h1 (get_all_exists s there) in
      let s2 = (csv.rename path bak s1).1 in
      let ended =
        rewrite_clean lib wire texts csv path content flushed laws reliable id bs false
          (csv.writer path s2).1 encoded in
      ap (λ r. r.0) (remove_moved s bs id read bak named moved)
      ∙ ap (λ r. r.0) (rebuild_eq id bs bak s2 (has_id id bs, none) ended)
