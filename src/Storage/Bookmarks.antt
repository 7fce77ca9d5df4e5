-- ===== src/Storage/Bookmarks.antt =====
-- The rows of src/storage/addressbook.rs: a bookmark as a record of texts, and what `get_all` reads of
-- the rows of a file.
pub mod RoundTrip
use emerald_rs.Prelude.{
  ℕ, ◌≡◌, ◌^◌, ◌<◌, ◌==◌, if◌then◌else◌, not, str_eq, String, Bool, true, false, Option, none, some,
  List, [], ◌∷◌, ◌++◌, map, Result, ok, err, map_err, ok_or, ◌>>=◌, Ordering, compare, length, All,
  any,
}
use emerald_rs.Structs.{
  Uuid, VaultError, filesystem_error, unsupported_data_error, incorrect_id_error, conversion_error,
  ConversionError, csv_error, invalid_field_value,
}
use emerald_rs.Convert.Crates.{ConvertLib, Wire}
use emerald_rs.Convert.Messages.{ProtoBookItem}
use emerald_rs.Convert.Books.{BookmarkDetails, book_from_bytes, book_to_bytes}

-- The identifiers of `uuid` and the bytes of `base64` as texts. The laws: what was written reads
-- back, and "id" is no identifier.
pub record BookTexts : Type 0 where
  pub parse_str : String → Option Uuid
  pub uuid_to_string : Uuid → String
  pub base64_decode : String → Option (List ℕ)
  pub base64_encode : List ℕ → String
  pub parse_str-uuid_to_string :
      (id : Uuid) → id < 2 ^ 128 → parse_str (uuid_to_string id) ≡ some id
  pub parse_str-id : parse_str "id" ≡ none
  pub base64_decode-base64_encode : (bs : List ℕ) → base64_decode (base64_encode bs) ≡ some bs

abbrev pub format : String
format = "bookmark/base64"

pub record CsvRecord : Type 0 where
  pub id : String
  pub format : String
  pub content : String

pub record AddressBookmark : Type 0 where
  pub id : Uuid
  pub details : BookmarkDetails

-- `Ord for AddressBookmark`
abbrev pub cmp_bookmarks : AddressBookmark → AddressBookmark → Ordering
cmp_bookmarks a b = compare a.id b.id

-- `read`
unfoldable pub read_row : List String → Result VaultError CsvRecord
read_row (id ∷ form ∷ content ∷ []) = ok (record { id = id; format = form; content = content })
read_row _ = err (unsupported_data_error "Excessive column")

-- The test of the first row.
abbrev pub is_header : List String → Bool
is_header [] = false
is_header (cell ∷ _) = str_eq cell "id"

-- `iter().find(|b| b.id == id)`
unfoldable pub find_bookmark : Uuid → List AddressBookmark → Option AddressBookmark
find_bookmark id [] = none
find_bookmark id (b ∷ bs) = if b.id == id then some b else find_bookmark id bs

-- `write`: the row of a record, whatever format that names.
abbrev pub row_of : CsvRecord → List String
row_of found = found.id ∷ format ∷ found.content ∷ []

abbrev pub record_of : BookTexts → Uuid → List ℕ → CsvRecord
record_of texts id bytes = record {
  id = texts.uuid_to_string id;
  format = format;
  content = texts.base64_encode bytes;
}

module _ (lib : ConvertLib) (wire : Wire ProtoBookItem) (texts : BookTexts) where
  -- `TryFrom<CsvRecord> for AddressBookmark`
  unfoldable pub bookmark_from_record : CsvRecord → Result ConversionError AddressBookmark
  bookmark_from_record value = do
    id ← ok_or (invalid_field_value "id") (texts.parse_str value.id)
    bytes ←
        (if str_eq format value.format
          then ok_or (invalid_field_value "data") (texts.base64_decode value.content)
          else err (invalid_field_value "format"))
    details ← book_from_bytes lib wire bytes
    ok (record { id = id; details = details })

  -- What the loop of `get_all` does with a row that is no header.
  unfoldable pub read_line : List String → Result VaultError AddressBookmark
  unfolding read_row bookmark_from_record
  read_line line = do found ← read_row line; map_err conversion_error (bookmark_from_record found)

  -- The rows behind the first one.
  unfoldable pub read_rest :
      List (Result (Unit {0}) (List String)) → Result VaultError (List AddressBookmark)
  read_rest [] = ok []
  read_rest (err e ∷ _) = err (conversion_error csv_error)
  read_rest (ok line ∷ lines) = do
    bookmark ← read_line line
    more ← read_rest lines
    ok (bookmark ∷ more)

  unfoldable pub read_rows :
      List (Result (Unit {0}) (List String)) → Result VaultError (List AddressBookmark)
  unfolding read_rest
  read_rows [] = ok []
  read_rows (err e ∷ _) = err (conversion_error csv_error)
  read_rows (ok line ∷ lines) =
      if is_header line then read_rest lines else read_rest (ok line ∷ lines)
