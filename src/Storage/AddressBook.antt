-- ===== src/Storage/AddressBook.antt =====
-- src/storage/addressbook.rs: bookmarks in the rows of a CSV file. A bookmark is added behind the
-- last row; a removal makes the file anew next to a backup.
pub mod Tables
pub mod Loop
pub mod Updates
pub mod Totals
pub mod Failures
pub mod Lookups
use emerald_rs.Prelude.{
  ℕ, ◌≡◌, ◌^◌, ◌<◌, ◌==◌, if◌then◌else◌, not, str_eq, String, Bool, true, false, Option, none, some,
  List, [], ◌∷◌, ◌++◌, map, Result, ok, err, map_err, ok_or, Ordering, compare, length, All, any,
}
use emerald_rs.Structs.{
  Uuid, VaultError, filesystem_error, unsupported_data_error, incorrect_id_error, conversion_error,
  ConversionError, csv_error, invalid_field_value,
}
use emerald_rs.Convert.Crates.{ConvertLib, Wire}
use emerald_rs.Convert.Messages.{ProtoBookItem}
use emerald_rs.Convert.Books.{BookmarkDetails, book_from_bytes, book_to_bytes}
use emerald_rs.Storage.Access.{Io, VaultAccess, pure, fail, lift, ◌>>=◌, ◌>>◌}
use emerald_rs.Storage.Csv.{CsvFiles}
use emerald_rs.Storage.Bookmarks.{
  BookTexts, AddressBookmark, CsvRecord, row_of, record_of, read_rows, find_bookmark,
}

module _ {A : Type 0} where
  -- `?` on an error of `csv` and on one of `std::io`
  abbrev pub csv_failed : Result (Unit {0}) A → Result VaultError A
  csv_failed r = map_err (λ _. conversion_error csv_error) r

  abbrev pub io_failed : Result String A → Result VaultError A
  io_failed r = map_err filesystem_error r

  abbrev pub with_error :
      {E S : Type 0} → (Result E A → Result VaultError A) → (S → Result E A × S) → Io S A
  with_error f m s = let (r, s') = m s in (f r, s')

module _ {S PathBuf : Type 0} (lib : ConvertLib) (wire : Wire ProtoBookItem) (texts : BookTexts)
    (csv : CsvFiles S PathBuf) (path : PathBuf) where
  unfoldable pub get_all : Io S (List AddressBookmark)
  unfolding read_rows
  get_all s =
      if csv.exists s path
      then (do
        lines ← with_error csv_failed (csv.records path)
        lift (read_rows lib wire texts lines))
          s
      else (ok [], s)

  unfoldable pub write : CsvRecord → Io S (Unit {0})
  write found =
      with_error (map_err (λ _. filesystem_error "CSV record not written"))
        (csv.write_record path (row_of found))

  unfoldable pub list : Io S (List Uuid)
  list = do all ← get_all; pure (map (λ b. b.id) all)

  unfoldable pub get : Uuid → Io S AddressBookmark
  get id = do all ← get_all; lift (ok_or incorrect_id_error (find_bookmark id all))

  -- The writer adds no header, whether the file is new or not.
  unfoldable pub add : AddressBookmark → Io S Uuid
  unfolding write
  add item = do
    with_error io_failed (csv.open_append path)
    bytes ← lift (map_err conversion_error (book_to_bytes lib wire item.details))
    write (record_of texts item.id bytes)
    with_error (map_err (λ _. filesystem_error "Flush failed")) (csv.flush path)
    pure item.id

  -- The loop of `remove`, with `found` and `error` as they stand before a round.
  unfoldable pub rewrite :
      Uuid
      → List AddressBookmark
      → Bool
      → Option ConversionError
      → Io S (Bool × Option ConversionError)
  rewrite id [] found error = pure (found, error)
  rewrite id (item ∷ items) found error = elim (item.id == id) [
    | true ↦ rewrite id items true error
    | false ↦ elim (book_to_bytes lib wire item.details) [
      | ok bytes ↦ (do write (record_of texts item.id bytes); rewrite id items found error)
      | err e ↦ rewrite id items found (some e)
    ]
  ]

  -- The failures of the two steps are only logged.
  abbrev pub restore : PathBuf → S → S
  restore bak s = (csv.rename bak path (csv.remove_file path s).1).1

  abbrev pub conclude : PathBuf → Bool × Option ConversionError → Io S Bool
  conclude bak (found, none) s = (ok found, s)
  conclude bak (found, some e) s = (err (conversion_error e), restore bak s)

  unfoldable pub remove : Uuid → Io S Bool
  remove id = do
    all ← get_all
    bak ←
        lift
          (ok_or (filesystem_error "Failed to initialized backup") (csv.set_extension path ".bak"))
    with_error (map_err (λ _. filesystem_error "Failed to make a backup")) (csv.rename path bak)
    with_error csv_failed (csv.writer path)
    outcome ← rewrite id all false none
    with_error io_failed (csv.flush path)
    conclude bak outcome

  unfoldable pub update : AddressBookmark → Io S Bool
  update entry = do
    found ← remove entry.id
    if found then (do add entry; pure true) else fail incorrect_id_error

  -- `VaultAccess<AddressBookmark> for AddressbookStorage`
  abbrev pub addressbook : VaultAccess S AddressBookmark
  addressbook = record { list = list; get = get; add = add; remove = remove; update = update }
