-- ===== src/Storage/AddressBook/Lookups.antt =====
-- What `get` of src/storage/addressbook.rs returns after the other operations.
use emerald_rs.Prelude.{
  ℕ, ◌≡◌, refl, ◌==◌, ==_iff, inl, inr, String, Bool, false, Option, none, some, List, [], ◌∷◌,
  ◌++◌, ok, err, arith, Bool-cases,
}
use emerald_rs.Structs.{Uuid, incorrect_id_error}
use emerald_rs.Convert.Crates.{ConvertLib, Wire}
use emerald_rs.Convert.Messages.{ProtoBookItem}
use emerald_rs.Convert.Books.{book_to_bytes}
use emerald_rs.Storage.Csv.{CsvFiles, IsCsvFiles, IsReliableCsv}
use emerald_rs.Storage.Bookmarks.{BookTexts, AddressBookmark, find_bookmark}
use emerald_rs.Storage.Bookmarks.RoundTrip.{IsStorable, book_in_millis}
use emerald_rs.Storage.AddressBook.{get, add, remove}
use emerald_rs.Storage.AddressBook.Tables.{IsBook, add-IsBook}
use emerald_rs.Storage.AddressBook.Loop.{without, has_id}
use emerald_rs.Storage.AddressBook.Updates.{remove-IsBook}
use emerald_rs.Storage.AddressBook.Totals.{get_all_total, add_total}

find_bookmark-append :
    (bs : List AddressBookmark) (b : AddressBookmark)
    → has_id b.id bs ≡ false
    → find_bookmark b.id (bs ++ b ∷ []) ≡ some b
unfolding find_bookmark
find_bookmark-append [] b h = rw ((==_iff b.id b.id).1 refl) refl
find_bookmark-append (a ∷ rest) b h = elim (Bool-cases (a.id == b.id)) [
  | inl same ↦ absurd (cc (rw same at h))
  | inr other ↦ rw other (find_bookmark-append rest b (rw other at h))
]

find_bookmark-without :
    (id : Uuid) (bs : List AddressBookmark) → find_bookmark id (without id bs) ≡ none
unfolding find_bookmark
find_bookmark-without id [] = refl
find_bookmark-without id (a ∷ rest) = elim (Bool-cases (a.id == id)) [
  | inl same ↦ rw same (find_bookmark-without id rest)
  | inr other ↦ rw (other, other) (find_bookmark-without id rest)
]

module _ {S PathBuf : Type 0} (lib : ConvertLib) (wire : Wire ProtoBookItem) (texts : BookTexts)
    (csv : CsvFiles S PathBuf) (content : S → PathBuf → Option (List (List String)))
    (path : PathBuf) (flushed : S → Bool) (laws : IsCsvFiles csv content flushed)
    (reliable : IsReliableCsv csv content flushed) where
  pub get_eq :
      (s : S) (bs : List AddressBookmark) (id : Uuid)
      → IsBook lib wire texts csv content path flushed s bs
      → (get lib wire texts csv path id s).0
        ≡ (elim (find_bookmark id bs) [ none ↦ err incorrect_id_error | some b ↦ ok b ])
  unfolding get
  get_eq s bs id h =
      rw (get_all_total lib wire texts csv content path flushed laws reliable s bs h) (ground arith)

  -- On files that do not fail, a storable bookmark whose bytes can be made is added, and is then what
  -- its identifier gives, with its date in milliseconds, if no bookmark had the identifier.
  pub get-add :
      (s : S) (bs : List AddressBookmark) (b : AddressBookmark) (bytes : List ℕ)
      → IsBook lib wire texts csv content path flushed s bs
      → IsStorable lib b
      → has_id b.id bs ≡ false
      → book_to_bytes lib wire b.details ≡ ok bytes
      → ((add lib wire texts csv path b s).0 ≡ ok b.id)
        × ((get lib wire texts csv path b.id (add lib wire texts csv path b s).1).0
            ≡ ok (book_in_millis b))
  get-add s bs b bytes h k fresh encoded =
      let added =
        add_total lib wire texts csv content path flushed laws reliable s b bytes encoded in
      let (same, h1) =
        add-IsBook lib wire texts csv content path flushed laws s bs b b.id h k added in
      (
        added,
        rw
            (
              get_eq _ (bs ++ book_in_millis b ∷ []) b.id h1,
              find_bookmark-append bs (book_in_millis b) fresh,
            )
            refl,
      )

  -- On files that do not fail, an identifier that was removed gives an error.
  pub get-remove :
      (s : S) (bs : List AddressBookmark) (id : Uuid) (found : Bool)
      → IsBook lib wire texts csv content path flushed s bs
      → (remove lib wire texts csv path id s).0 ≡ ok found
      → (get lib wire texts csv path id (remove lib wire texts csv path id s).1).0
        ≡ err incorrect_id_error
  get-remove s bs id found h done =
      let (f, h1) =
        remove-IsBook lib wire texts csv content path flushed laws s bs id found h done in
      rw (get_eq _ (without id bs) id h1, find_bookmark-without id bs) refl
