-- ===== src/Storage/AddressBook/Updates.antt =====
-- What `remove` and `update` of src/storage/addressbook.rs make of the bookmarks of the file.
use emerald_rs.Prelude.{
  ◌≡◌, refl, ap, ◌∙◌, String, Bool, false, Option, none, some, List, [], ok, map_err, ok_or, All,
  map_err-eq_ok,
}
use emerald_rs.Structs.{Uuid, ConversionError, filesystem_error}
use emerald_rs.Convert.Crates.{ConvertLib, Wire}
use emerald_rs.Convert.Messages.{ProtoBookItem}
use emerald_rs.Storage.Access.{Io, ◌>>=◌, ◌>>◌, bind-eq_ok, lift}
use emerald_rs.Storage.Csv.{CsvFiles, IsCsvFiles}
use emerald_rs.Storage.Bookmarks.{BookTexts, AddressBookmark, read_rows}
use emerald_rs.Storage.Bookmarks.RoundTrip.{IsStored}
use emerald_rs.Storage.AddressBook.{
  csv_failed, io_failed, with_error, get_all, rewrite, remove, conclude,
}
use emerald_rs.Storage.AddressBook.Tables.{IsTable, IsBook, get_all-IsBook, flush-IsBook}
use emerald_rs.Storage.AddressBook.Loop.{without, has_id, All-without, rewrite-IsTable}

module _ {S PathBuf : Type 0} (lib : ConvertLib) (wire : Wire ProtoBookItem) (texts : BookTexts)
    (csv : CsvFiles S PathBuf) (content : S → PathBuf → Option (List (List String)))
    (path : PathBuf) (flushed : S → Bool) (laws : IsCsvFiles csv content flushed) where
  abbrev Table : S → List AddressBookmark → Type 0
  Table s bs = IsTable lib wire texts csv content path s bs

  abbrev Book : S → List AddressBookmark → Type 0
  Book s bs = IsBook lib wire texts csv content path flushed s bs

  conclude-eq_ok :
      (bak : PathBuf) (outcome : Bool × Option ConversionError) (s : S) (found : Bool)
      → (conclude lib wire texts csv path bak outcome s).0 ≡ ok found
      → (outcome ≡ (found, none)) × ((conclude lib wire texts csv path bak outcome s).1 ≡ s)
  conclude-eq_ok bak (f, none) s found h = (cc, refl)
  conclude-eq_ok bak (f, some e) s found h = cc

  -- The steps of `remove` behind the backup.
  abbrev pub rebuild : Uuid → List AddressBookmark → PathBuf → Io S Bool
  rebuild id all bak = do
    with_error csv_failed (csv.writer path)
    outcome ← rewrite lib wire texts csv path id all false none
    with_error io_failed (csv.flush path)
    conclude lib wire texts csv path bak outcome

  rebuild-IsBook :
      (id : Uuid) (all : List AddressBookmark) (bak : PathBuf) (s : S) (found : Bool)
      → All (IsStored lib) all
      → (rebuild id all bak s).0 ≡ ok found
      → (found ≡ has_id id all) × Book (rebuild id all bak s).1 (without id all)
  rebuild-IsBook id all bak s found h done =
      let (u1, e1, r1, q1) = bind-eq_ok (with_error csv_failed (csv.writer path)) _ s done in
      let s1 = (csv.writer path s).1 in
      let empty : Table s1 [] = record {
        rows = [];
        content_is = laws.writer_ok path s (map_err-eq_ok _ (csv.writer path s).0 e1);
        rows_valid = tt;
        read_is = unfold read_rows in refl;
      } in
      let (outcome, e2, r2, q2) =
        bind-eq_ok (rewrite lib wire texts csv path id all false none) _ s1 r1 in
      let s2 = (rewrite lib wire texts csv path id all false none s1).1 in
      let (u3, e3, r3, q3) = bind-eq_ok (with_error io_failed (csv.flush path)) _ s2 r2 in
      let (same, kept) = conclude-eq_ok bak outcome (csv.flush path s2).1 found r3 in
      let loop_done =
        rewrite-IsTable lib wire texts csv path content flushed laws id all [] false none s1 found
          empty h (e2 ∙ ap ok same) in
      let clear = map_err-eq_ok _ (csv.flush path s2).0 e3 in
      let book =
        flush-IsBook lib wire texts csv content path flushed laws s2 (without id all)
          loop_done.table (All-without (IsStored lib) id all h) clear in
      (loop_done.result_is, rw (q1, q2, q3, kept) book)

  -- A removal that succeeds leaves the bookmarks with other identifiers, in their order, drops all with
  -- the given one, and tells whether there was one.
  pub remove-IsBook :
      (s : S) (bs : List AddressBookmark) (id : Uuid) (found : Bool)
      → Book s bs
      → (remove lib wire texts csv path id s).0 ≡ ok found
      → (found ≡ has_id id bs) × Book (remove lib wire texts csv path id s).1 (without id bs)
  unfolding remove
  remove-IsBook s bs id found h done =
      let (all, e1, r1, q1) = bind-eq_ok (get_all lib wire texts csv path) _ s done in
      let (same, h1) = get_all-IsBook lib wire texts csv content path flushed laws s bs all h e1 in
      let s1 = (get_all lib wire texts csv path s).1 in
      let (bak, e2, r2, q2) =
        bind-eq_ok
          (lift (
            ok_or (filesystem_error "Failed to initialized backup")
              (csv.set_extension path ".bak")))
          _ s1 r1 in
      let (u3, e3, r3, q3) =
        bind-eq_ok
          (with_error (map_err (λ _. filesystem_error "Failed to make a backup"))
            (csv.rename path bak))
          _ s1 r2 in
      let s3 = (csv.rename path bak s1).1 in
      let (f, book) = rebuild-IsBook id all bak s3 found (rw same h.storable) r3 in
      rw (q1, q2, q3, ← same) (f, book)
