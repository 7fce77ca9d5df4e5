-- ===== src/Storage/Bookmarks/RoundTrip.antt =====
-- What `get_all` of src/storage/addressbook.rs reads of the rows that `write` makes.
use emerald_rs.Prelude.{
  ℕ, ◌≡◌, ◌^◌, ◌<◌, refl, sym, ap, ◌∙◌, str_eq, eq_iff, String, false, List, [], ◌∷◌, ◌++◌, Result,
  ok, err, Bool-cases, inl, inr, any, bind-eq_ok,
}
use emerald_rs.Convert.Crates.{ConvertLib, Wire}
use emerald_rs.Convert.Messages.{ProtoBookItem}
use emerald_rs.Convert.Books.{book_to_bytes, IsStorableBook, book_from_bytes-book_to_bytes}
use emerald_rs.Convert.Paths.{in_millis, in_millis_twice, in_millis-IsDate}
use emerald_rs.Storage.Csv.{is_failed}
use emerald_rs.Storage.Bookmarks.{
  BookTexts, AddressBookmark, row_of, record_of, is_header, bookmark_from_record, read_row,
  read_line, read_rest, read_rows,
}

abbrev pub IsStorable : ConvertLib → AddressBookmark → Type 0
IsStorable lib b = (b.id < 2 ^ 128) × IsStorableBook lib b.details

-- A bookmark as it is stored, with its date in milliseconds.
abbrev pub book_in_millis : AddressBookmark → AddressBookmark
book_in_millis b = record b {
  details = record b.details { created_at = in_millis b.details.created_at };
}

-- What is read back as it is.
abbrev pub IsStored : ConvertLib → AddressBookmark → Type 0
IsStored lib b = IsStorable lib b × (book_in_millis b ≡ b)

pub book_in_millis-IsStored :
    (lib : ConvertLib) (b : AddressBookmark) → IsStorable lib b → IsStored lib (book_in_millis b)
book_in_millis-IsStored lib b (small, h) = (
  (
    small,
    record {
      label_kept = h.label_kept;
      description_kept = h.description_kept;
      address_kept = h.address_kept;
      date_kept = in_millis-IsDate lib b.details.created_at h.date_kept;
    },
  ),
  ap (λ t. record b { details = record b.details { created_at = t } })
      (in_millis_twice b.details.created_at),
)

module _ (lib : ConvertLib) (wire : Wire ProtoBookItem) (texts : BookTexts) where
  abbrev Line : Type 0
  Line = Result (Unit {0}) (List String)

  -- A row that `write` makes is no header.
  pub is_header-row_of :
      (b : AddressBookmark) (bytes : List ℕ)
      → IsStorable lib b
      → is_header (row_of (record_of texts b.id bytes)) ≡ false
  is_header-row_of b bytes h = elim (Bool-cases (str_eq (texts.uuid_to_string b.id) "id")) [
    | inl same ↦
        let named = (eq_iff (texts.uuid_to_string b.id) "id").0 same in
        let reads = texts.parse_str-uuid_to_string b.id h.0 in
        absurd (cc (sym reads ∙ ap texts.parse_str named ∙ texts.parse_str-id))
    | inr other ↦ other
  ]

  -- A storable bookmark is read back from its row with its date in milliseconds.
  pub read_line-row_of :
      (b : AddressBookmark) (bytes : List ℕ)
      → IsStorable lib b
      → book_to_bytes lib wire b.details ≡ ok bytes
      → read_line lib wire texts (row_of (record_of texts b.id bytes)) ≡ ok (book_in_millis b)
  unfolding read_line read_row bookmark_from_record
  read_line-row_of b bytes h written =
      rw
        (
          texts.parse_str-uuid_to_string b.id h.0,
          texts.base64_decode-base64_encode bytes,
          book_from_bytes-book_to_bytes lib wire b.details bytes h.1 written,
        )
        refl

  read_rest-append :
      (lines : List Line) (row : List String) (bs : List AddressBookmark) (b : AddressBookmark)
      → read_rest lib wire texts lines ≡ ok bs
      → read_line lib wire texts row ≡ ok b
      → read_rest lib wire texts (lines ++ ok row ∷ []) ≡ ok (bs ++ b ∷ [])
  unfolding read_rest
  read_rest-append [] row bs b h k = let same : [] ≡ bs = cc in rw (← same, k) refl
  read_rest-append (err e ∷ lines) row bs b h k = cc
  read_rest-append (ok line ∷ lines) row bs b h k =
      let (first, e1, h') = bind-eq_ok (read_line lib wire texts line) _ h in
      let (more, e2, e3) = bind-eq_ok (read_rest lib wire texts lines) _ h' in
      let same : first ∷ more ≡ bs = cc in
      rw (← same, e1, read_rest-append lines row more b e2 k) refl

  -- One more row behind the others is one more bookmark.
  pub read_rows-append :
      (lines : List Line) (row : List String) (bs : List AddressBookmark) (b : AddressBookmark)
      → read_rows lib wire texts lines ≡ ok bs
      → is_header row ≡ false
      → read_line lib wire texts row ≡ ok b
      → read_rows lib wire texts (lines ++ ok row ∷ []) ≡ ok (bs ++ b ∷ [])
  unfolding read_rows
  read_rows-append [] row bs b h plain k =
      rw plain (read_rest-append [] row bs b (unfold read_rest in h) k)
  read_rows-append (err e ∷ lines) row bs b h plain k = cc
  read_rows-append (ok line ∷ lines) row bs b h plain k = elim (Bool-cases (is_header line)) [
    | inl e ↦ rw e (read_rest-append lines row bs b (rw e at h) k)
    | inr e ↦ rw e (read_rest-append (ok line ∷ lines) row bs b (rw e at h) k)
  ]

  read_rest-ok :
      (lines : List Line) (bs : List AddressBookmark)
      → read_rest lib wire texts lines ≡ ok bs
      → any is_failed lines ≡ false
  unfolding read_rest
  read_rest-ok [] bs h = refl
  read_rest-ok (err e ∷ lines) bs h = cc
  read_rest-ok (ok line ∷ lines) bs h =
      let (first, e1, h') = bind-eq_ok (read_line lib wire texts line) _ h in
      let (more, e2, e3) = bind-eq_ok (read_rest lib wire texts lines) _ h' in
      read_rest-ok lines more e2

  -- A reading that succeeds met no row that could not be read.
  pub read_rows-ok :
      (lines : List Line) (bs : List AddressBookmark)
      → read_rows lib wire texts lines ≡ ok bs
      → any is_failed lines ≡ false
  unfolding read_rows
  read_rows-ok [] bs h = refl
  read_rows-ok (err e ∷ lines) bs h = cc
  read_rows-ok (ok line ∷ lines) bs h = elim (Bool-cases (is_header line)) [
    | inl e ↦ read_rest-ok lines bs (rw e at h)
    | inr e ↦ read_rest-ok (ok line ∷ lines) bs (rw e at h)
  ]
