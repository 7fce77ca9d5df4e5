-- ===== src/Storage/AddressBook/Tables.antt =====
-- The list of bookmarks that the file of src/storage/addressbook.rs stands for, what `get_all` and `get`
-- return of it, and what `add` makes of it.
use mathlib.Core.List.{map-append}
use emerald_rs.Prelude.{
  ℕ, ◌≡◌, refl, sym, ap, ◌∙◌, ◌⊎◌, inl, inr, String, Bool, true, false, Option, some, List, [], ◌∷◌,
  ◌++◌, map, ok, map_err, All, All-append, map_err-eq_ok,
}
use emerald_rs.Structs.{Uuid, filesystem_error, conversion_error}
use emerald_rs.Convert.Crates.{ConvertLib, Wire}
use emerald_rs.Convert.Messages.{ProtoBookItem}
use emerald_rs.Convert.Books.{book_to_bytes}
use emerald_rs.Storage.Access.{bind-eq_ok, lift}
use emerald_rs.Storage.Csv.{CsvFiles, IsCsvFiles, IsRow}
use emerald_rs.Storage.Bookmarks.{BookTexts, AddressBookmark, row_of, record_of, read_rows}
use emerald_rs.Storage.Bookmarks.RoundTrip.{
  IsStorable, IsStored, book_in_millis, book_in_millis-IsStored, is_header-row_of, read_line-row_of,
  read_rows-append, read_rows-ok,
}
use emerald_rs.Storage.AddressBook.{csv_failed, io_failed, with_error, get_all, write, add}

module _ {S PathBuf : Type 0} (lib : ConvertLib) (wire : Wire ProtoBookItem) (texts : BookTexts)
    (csv : CsvFiles S PathBuf) (content : S → PathBuf → Option (List (List String)))
    (path : PathBuf) where
  -- The rows of the file are read as the bookmarks `bs`.
  pub record IsTable (s : S) (bs : List AddressBookmark) : Type 0 where
    pub rows : List (List String)
    pub content_is : content s path ≡ some rows
    pub rows_valid : All IsRow rows
    pub read_is : read_rows lib wire texts (map ok rows) ≡ ok bs

  -- There is no file and no bookmark, or a file whose rows are read as the bookmarks.
  pub record IsBook (flushed : S → Bool) (s : S) (bs : List AddressBookmark) : Type 0 where
    pub flushed_is : flushed s ≡ true
    pub storable : All (IsStored lib) bs
    pub held : ((csv.exists s path ≡ false) × (bs ≡ [])) ⊎ IsTable s bs

  module _ (flushed : S → Bool) (laws : IsCsvFiles csv content flushed) where
    pub write-IsTable :
        (s : S) (bs : List AddressBookmark) (b : AddressBookmark) (bytes : List ℕ)
        → IsTable s bs
        → IsStorable lib b
        → book_to_bytes lib wire b.details ≡ ok bytes
        → (csv.write_record path (row_of (record_of texts b.id bytes)) s).0 ≡ ok tt
        → IsTable
            (csv.write_record path (row_of (record_of texts b.id bytes)) s).1
            (bs ++ book_in_millis b ∷ [])
    write-IsTable s bs b bytes t h encoded done =
        let row = row_of (record_of texts b.id bytes) in
        record {
          rows = t.rows ++ row ∷ [];
          content_is = laws.write_record_ok path s t.rows row t.content_is refl done;
          rows_valid = All-append IsRow t.rows (row ∷ []) t.rows_valid (refl, tt);
          read_is = rw (map-append) (
              read_rows-append lib wire texts (map ok t.rows) row bs (book_in_millis b) t.read_is
                (is_header-row_of lib wire texts b bytes h)
                (read_line-row_of lib wire texts b bytes h encoded));
        }

    IsTable-content :
        (s t : S) (bs : List AddressBookmark)
        → content t path ≡ content s path
        → IsTable s bs
        → IsTable t bs
    IsTable-content s t bs same h = record {
      rows = h.rows;
      content_is = same ∙ h.content_is;
      rows_valid = h.rows_valid;
      read_is = h.read_is;
    }

    read_table :
        (s : S) (bs all : List AddressBookmark)
        → IsBook flushed s bs
        → IsTable s bs
        → (get_all lib wire texts csv path s).0 ≡ ok all
        → (all ≡ bs) × IsBook flushed (get_all lib wire texts csv path s).1 bs
    unfolding get_all
    read_table s bs all h t done =
        let there = laws.exists_content path s t.rows t.content_is in
        let (lines, e1, e2, e3) =
          bind-eq_ok (with_error csv_failed (csv.records path))
            (λ lines. lift (read_rows lib wire texts lines)) s (rw there at done) in
        let complete = read_rows-ok lib wire texts lines all e2 in
        let same =
          laws.records_ok path s t.rows lines h.flushed_is t.content_is t.rows_valid
            (map_err-eq_ok _ (csv.records path s).0 e1) complete in
        let answer : ok all ≡ ok bs = sym e2 ∙ ap (read_rows lib wire texts) same ∙ t.read_is in
        let unchanged = laws.records_content path path s in
        (
          cc,
          rw (there, e3)
              (record {
                flushed_is = laws.records_flushed path s ∙ h.flushed_is;
                storable = h.storable;
                held = inr (IsTable-content s (csv.records path s).1 bs unchanged t);
              }),
        )

    -- What `get_all` returns are the bookmarks of the file, which it leaves as they are.
    pub get_all-IsBook :
        (s : S) (bs all : List AddressBookmark)
        → IsBook flushed s bs
        → (get_all lib wire texts csv path s).0 ≡ ok all
        → (all ≡ bs) × IsBook flushed (get_all lib wire texts csv path s).1 bs
    unfolding get_all
    get_all-IsBook s bs all h done = elim h.held [
      | inl (gone, none_held) ↦
          (let found : ok all ≡ ok [] = rw gone at (sym done) in (cc, rw gone h))
      | inr t ↦ read_table s bs all h t done
    ]

    -- The file is there after it is opened, with the rows that it had.
    open-IsTable :
        (s : S) (bs : List AddressBookmark)
        → IsBook flushed s bs
        → (csv.open_append path s).0 ≡ ok tt
        → IsTable (csv.open_append path s).1 bs
    open-IsTable s bs h done = elim h.held [
      | inl (gone, none_held) ↦ rw none_held (record {
        rows = [];
        content_is = laws.open_append_new path s gone done;
        rows_valid = tt;
        read_is = unfold read_rows in refl;
      })
      | inr t ↦ record {
        rows = t.rows;
        content_is = laws.open_append_old path s t.rows t.content_is done;
        rows_valid = t.rows_valid;
        read_is = t.read_is;
      }
    ]

    pub flush-IsBook :
        (s : S) (bs : List AddressBookmark)
        → IsTable s bs
        → All (IsStored lib) bs
        → (csv.flush path s).0 ≡ ok tt
        → IsBook flushed (csv.flush path s).1 bs
    flush-IsBook s bs t h done = record {
      flushed_is = (laws.flush_ok path path s done).0;
      storable = h;
      held = inr (IsTable-content s (csv.flush path s).1 bs (laws.flush_ok path path s done).1 t);
    }

    -- A bookmark that is added, with its date in milliseconds, stands behind the ones that were there, also when one of them has its
    -- identifier.
    pub add-IsBook :
        (s : S) (bs : List AddressBookmark) (b : AddressBookmark) (id : Uuid)
        → IsBook flushed s bs
        → IsStorable lib b
        → (add lib wire texts csv path b s).0 ≡ ok id
        → (id ≡ b.id)
          × IsBook flushed (add lib wire texts csv path b s).1 (bs ++ book_in_millis b ∷ [])
    unfolding add write
    add-IsBook s bs b id h k done =
        let (u1, e1, r1, q1) = bind-eq_ok (with_error io_failed (csv.open_append path)) _ s done in
        let opened = open-IsTable s bs h (map_err-eq_ok _ (csv.open_append path s).0 e1) in
        let (bytes, e2, r2, q2) =
          bind-eq_ok (lift (map_err conversion_error (book_to_bytes lib wire b.details))) _
            (csv.open_append path s).1 r1 in
        let encoded = map_err-eq_ok _ (book_to_bytes lib wire b.details) e2 in
        let row = row_of (record_of texts b.id bytes) in
        let (u3, e3, r3, q3) =
          bind-eq_ok (write lib wire texts csv path (record_of texts b.id bytes)) _
            (csv.open_append path s).1 r2 in
        let wrote = map_err-eq_ok _ (csv.write_record path row (csv.open_append path s).1).0 e3 in
        let t = write-IsTable (csv.open_append path s).1 bs b bytes opened k encoded wrote in
        let last = (csv.write_record path row (csv.open_append path s).1).1 in
        let (u4, e4, r4, q4) =
          bind-eq_ok (with_error (map_err (λ _. filesystem_error "Flush failed")) (csv.flush path))
            _ last r3 in
        let clear = map_err-eq_ok _ (csv.flush path last).0 e4 in
        let stored =
          flush-IsBook last (bs ++ book_in_millis b ∷ []) t
            (All-append (IsStored lib) bs (book_in_millis b ∷ []) h.storable
              (book_in_millis-IsStored lib b k, tt))
            clear in
        (cc, rw (q1, q2, q3, q4) stored)
