-- ===== src/Tests/Bookmarks.antt =====
-- The theorems on the address book at concrete inputs.
use emerald_rs.Prelude.{
  ℕ, ◌<◌, ◌≡◌, refl, ap, ◌∙◌, arith, true, false, inl, inr, String, none, some, List, [], ◌∷◌, ◌++◌,
  ok, err, if◌then◌else◌, ◌==◌,
}
use emerald_rs.Structs.{conversion_error, invalid_protobuf}
use emerald_rs.Convert.Crates.{Wire}
use emerald_rs.Convert.Messages.{ProtoBookItem}
use emerald_rs.Convert.Books.{book_to_bytes, book_from_bytes}
use emerald_rs.Storage.Bookmarks.{
  AddressBookmark, find_bookmark, read_rows, read_line, read_row, row_of, record_of,
  bookmark_from_record,
}
use emerald_rs.Storage.Bookmarks.RoundTrip.{
  IsStorable, IsStored, read_line-row_of, read_rows-append, is_header-row_of,
}
use emerald_rs.Storage.AddressBook.{get_all, get, add, rewrite, remove}
use emerald_rs.Storage.AddressBook.Tables.{IsBook, add-IsBook}
use emerald_rs.Storage.AddressBook.Updates.{remove-IsBook}
use emerald_rs.Storage.AddressBook.Totals.{
  get_all_total, add_total, remove_total, remove_moved, rebuild_eq,
}
use emerald_rs.Storage.AddressBook.Failures.{remove_failed}
use emerald_rs.Storage.AddressBook.Lookups.{get_eq, get-add}
use emerald_rs.Tests.Messages.{convert_lib, book_wire}
use emerald_rs.Tests.Stored.{bookmark, bookmark_bytes, bookmark_written, bookmark-IsStorableBook}
use emerald_rs.Tests.Books.{texts, State, csv, content, flushed, csv-IsCsvFiles, csv-IsReliableCsv}

abbrev nothing : State
nothing p = none

-- The bookmark under an identifier.
abbrev named : ℕ → AddressBookmark
named id = record { id = id; details = bookmark }

abbrev IsBookOf : State → List AddressBookmark → Type 0
IsBookOf s bs = IsBook convert_lib book_wire texts csv content 0 flushed s bs

nothing-IsBook : IsBookOf nothing []
nothing-IsBook = record { flushed_is = refl; storable = tt; held = inl (refl, refl) }

named-IsStorable : (n : ℕ) → n < 10 → IsStorable convert_lib (named n)
named-IsStorable n h = (omega arith, bookmark-IsStorableBook)

named-IsStored : (n : ℕ) → n < 10 → IsStored convert_lib (named n)
named-IsStored n h = (named-IsStorable n h, refl)

abbrev after_add : ℕ → State → State
after_add n s = (add convert_lib book_wire texts csv 0 (named n) s).1

add_done : (n : ℕ) (s : State) → (add convert_lib book_wire texts csv 0 (named n) s).0 ≡ ok n
add_done n s =
    add_total convert_lib book_wire texts csv content 0 flushed csv-IsCsvFiles csv-IsReliableCsv s
      (named n) bookmark_bytes bookmark_written

abbrev two : State
two = after_add 4 (after_add 3 nothing)

added :
    (n : ℕ) (s : State) (bs : List AddressBookmark)
    → n < 10
    → IsBookOf s bs
    → IsBookOf (after_add n s) (bs ++ named n ∷ [])
added n s bs small h =
    (add-IsBook convert_lib book_wire texts csv content 0 flushed csv-IsCsvFiles s bs (named n) n h
      (named-IsStorable n small) (add_done n s)).1

two-IsBook : IsBookOf two (named 3 ∷ named 4 ∷ [])
two-IsBook =
    added 4 (after_add 3 nothing) (named 3 ∷ []) (omega arith)
      (added 3 nothing [] (omega arith) nothing-IsBook)

get-add_example :
    ((add convert_lib book_wire texts csv 0 (named 5) two).0 ≡ ok 5)
    × ((get convert_lib book_wire texts csv 0 5
          (add convert_lib book_wire texts csv 0 (named 5) two).1).0
        ≡ ok (named 5))
get-add_example =
    get-add convert_lib book_wire texts csv content 0 flushed csv-IsCsvFiles csv-IsReliableCsv two
      (named 3 ∷ named 4 ∷ []) (named 5) bookmark_bytes two-IsBook
      (named-IsStorable 5 (omega arith)) refl bookmark_written

there :
    (s : State) (b : AddressBookmark) (bs : List AddressBookmark)
    → IsBookOf s (b ∷ bs)
    → csv.exists s 0 ≡ true
there s b bs h = elim h.held [
  | inl (gone, none_held) ↦ absurd (cc (none_held))
  | inr t ↦ csv-IsCsvFiles.exists_content 0 s t.rows t.content_is
]

removed : (remove convert_lib book_wire texts csv 0 4 two).0 ≡ ok true
removed =
    remove_total convert_lib book_wire texts csv content 0 flushed csv-IsCsvFiles csv-IsReliableCsv
      two (named 3 ∷ named 4 ∷ []) 4 1 two-IsBook (there two (named 3) (named 4 ∷ []) two-IsBook)
      refl ((bookmark_bytes, bookmark_written), ((bookmark_bytes, bookmark_written), tt))

remove_total_example : (remove convert_lib book_wire texts csv 0 4 two).0 ≡ ok true
remove_total_example =
    remove_total convert_lib book_wire texts csv content 0 flushed csv-IsCsvFiles csv-IsReliableCsv
      two (named 3 ∷ named 4 ∷ []) 4 1 two-IsBook (there two (named 3) (named 4 ∷ []) two-IsBook)
      refl ((bookmark_bytes, bookmark_written), ((bookmark_bytes, bookmark_written), tt))

remove-IsBook_example :
    (true ≡ true) × IsBookOf (remove convert_lib book_wire texts csv 0 4 two).1 (named 3 ∷ [])
remove-IsBook_example =
    remove-IsBook convert_lib book_wire texts csv content 0 flushed csv-IsCsvFiles two
      (named 3 ∷ named 4 ∷ []) 4 true two-IsBook removed

-- The same identifier with another label.
renamed : AddressBookmark
renamed = record { id = 3; details = record bookmark { label = none } }

renamed-IsStorable : IsStorable convert_lib renamed
unfolding renamed
renamed-IsStorable = (
  omega arith,
  record {
    label_kept = λ h. cc;
    description_kept = bookmark-IsStorableBook.description_kept;
    address_kept = bookmark-IsStorableBook.address_kept;
    date_kept = bookmark-IsStorableBook.date_kept;
  },
)

-- A second bookmark with an identifier is added, and the first one stays what the identifier gives.
first_stays :
    (bytes : List ℕ)
    → book_to_bytes convert_lib book_wire renamed.details ≡ ok bytes
    → (get convert_lib book_wire texts csv 0 3
        (add convert_lib book_wire texts csv 0 renamed two).1).0
      ≡ ok (named 3)
unfolding renamed find_bookmark
first_stays bytes written =
    let (same, h) =
      add-IsBook convert_lib book_wire texts csv content 0 flushed csv-IsCsvFiles two
        (named 3 ∷ named 4 ∷ []) renamed 3 two-IsBook renamed-IsStorable
        (add_total convert_lib book_wire texts csv content 0 flushed csv-IsCsvFiles
          csv-IsReliableCsv two renamed bytes written) in
    get_eq convert_lib book_wire texts csv content 0 flushed csv-IsCsvFiles csv-IsReliableCsv
      (add convert_lib book_wire texts csv 0 renamed two).1 (named 3 ∷ named 4 ∷ renamed ∷ []) 3 h

-- Messages that are read and cannot be written.
abbrev refusing : Wire ProtoBookItem
refusing = record {
  write_to_bytes = λ m. err invalid_protobuf;
  parse_from_bytes = book_wire.parse_from_bytes;
  parse_from_bytes-write_to_bytes = λ m bs h. cc;
}

abbrev one_row : List String
one_row = row_of (record_of texts 3 bookmark_bytes)

abbrev one : State
one p = if p == 0 then some (one_row ∷ []) else none

one_line : read_line convert_lib refusing texts one_row ≡ ok (named 3)
unfolding read_line bookmark_from_record book_from_bytes read_row
one_line =
    read_line-row_of convert_lib book_wire texts (named 3) bookmark_bytes
      (named-IsStorable 3 (omega arith)) bookmark_written

one-IsBook : IsBook convert_lib refusing texts csv content 0 flushed one (named 3 ∷ [])
one-IsBook = record {
  flushed_is = refl;
  storable = (named-IsStored 3 (omega arith), tt);
  held = inr (record {
    rows = one_row ∷ [];
    content_is = refl;
    rows_valid = (refl, tt);
    read_is =
        read_rows-append convert_lib refusing texts [] one_row [] (named 3)
          (unfold read_rows in refl)
          (is_header-row_of convert_lib refusing texts (named 3) bookmark_bytes
            (named-IsStorable 3 (omega arith)))
          one_line;
  });
}

refused :
    (remove convert_lib refusing texts csv 0 9 one).0 ≡ err (conversion_error invalid_protobuf)
unfolding rewrite book_to_bytes
refused =
    let reads =
      get_all_total convert_lib refusing texts csv content 0 flushed csv-IsCsvFiles
        csv-IsReliableCsv one (named 3 ∷ []) one-IsBook in
    let s1 = (get_all convert_lib refusing texts csv 0 one).1 in
    let copies : (csv.rename 0 1 s1).0 ≡ ok tt = unfold get_all in refl in
    ap (λ r. r.0)
      (remove_moved convert_lib refusing texts csv content 0 flushed csv-IsCsvFiles
        csv-IsReliableCsv one (named 3 ∷ []) 9 reads 1 refl copies)
    ∙ ap (λ r. r.0)
        (rebuild_eq convert_lib refusing texts csv content 0 flushed csv-IsCsvFiles
          csv-IsReliableCsv 9 (named 3 ∷ []) 1 (csv.rename 0 1 s1).1 (false, some invalid_protobuf)
          refl)

remove_failed_example :
    IsBook convert_lib refusing texts csv content 0 flushed
      (remove convert_lib refusing texts csv 0 9 one).1
      (named 3 ∷ [])
remove_failed_example =
    remove_failed convert_lib refusing texts csv content 0 flushed csv-IsCsvFiles csv-IsReliableCsv
      one (named 3 ∷ []) 9 (conversion_error invalid_protobuf) (λ bak h same. cc (h, same))
      one-IsBook refused
