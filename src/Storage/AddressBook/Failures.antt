-- ===== src/Storage/AddressBook/Failures.antt =====
-- What is left when a removal of src/storage/addressbook.rs fails.
use emerald_rs.Prelude.{
  ◌≡◌, ◌≢◌, refl, sym, ◌∙◌, inl, inr, String, Bool, true, false, Option, none, some, List, map, ok,
  err, All, Result-cases, Option-cases,
}
use emerald_rs.Structs.{Uuid, VaultError, ConversionError}
use emerald_rs.Convert.Crates.{ConvertLib, Wire}
use emerald_rs.Convert.Messages.{ProtoBookItem}
use emerald_rs.Storage.Csv.{CsvFiles, IsCsvFiles, IsReliableCsv, IsRow}
use emerald_rs.Storage.Bookmarks.{BookTexts, AddressBookmark, read_rows}
use emerald_rs.Storage.Bookmarks.RoundTrip.{IsStored}
use emerald_rs.Storage.AddressBook.{get_all, rewrite, remove, conclude, restore}
use emerald_rs.Storage.AddressBook.Tables.{IsTable, IsBook, get_all-IsBook}
use emerald_rs.Storage.AddressBook.Updates.{rebuild}
use emerald_rs.Storage.AddressBook.Loop.{rewrite_total, rewrite_other}
use emerald_rs.Storage.AddressBook.Totals.{
  get_all_total, rebuild_eq, remove_unnamed, remove_stuck, remove_moved,
}

module _ {S PathBuf : Type 0} (lib : ConvertLib) (wire : Wire ProtoBookItem) (texts : BookTexts)
    (csv : CsvFiles S PathBuf) (content : S → PathBuf → Option (List (List String)))
    (path : PathBuf) (flushed : S → Bool) (laws : IsCsvFiles csv content flushed)
    (reliable : IsReliableCsv csv content flushed) where
  abbrev Book : S → List AddressBookmark → Type 0
  Book s bs = IsBook lib wire texts csv content path flushed s bs

  -- A state that agrees with another one on the file of the book holds the same book.
  IsBook-same :
      (s t : S) (bs : List AddressBookmark)
      → flushed t ≡ flushed s
      → content t path ≡ content s path
      → csv.exists t path ≡ csv.exists s path
      → Book s bs
      → Book t bs
  IsBook-same s t bs clear same there h = record {
    flushed_is = clear ∙ h.flushed_is;
    storable = h.storable;
    held = elim h.held [
      | inl (gone, none_held) ↦ inl (there ∙ gone, none_held)
      | inr k ↦ inr (record {
        rows = k.rows;
        content_is = same ∙ k.content_is;
        rows_valid = k.rows_valid;
        read_is = k.read_is;
      })
    ];
  }

  -- The backup takes the place of the file that was being written.
  restore-IsBook :
      (bak : PathBuf) (s : S) (bs : List AddressBookmark) (rows : List (List String))
      → bak ≢ path
      → flushed s ≡ true
      → content s bak ≡ some rows
      → All IsRow rows
      → read_rows lib wire texts (map ok rows) ≡ ok bs
      → All (IsStored lib) bs
      → Book (restore lib wire texts csv path bak s) bs
  restore-IsBook bak s bs rows apart clear backup valid reads h =
      let s1 = (csv.remove_file path s).1 in
      let still = laws.remove_file_other path bak s apart ∙ backup in
      record {
        flushed_is = laws.rename_flushed bak path s1 ∙ (laws.remove_file_flushed path s ∙ clear);
        storable = h;
        held = inr (record {
          rows = rows;
          content_is =
              laws.rename_ok bak path s1 apart (reliable.rename_total bak path s1 rows still)
              ∙ still;
          rows_valid = valid;
          read_is = reads;
        });
      }

  conclude-eq_err :
      (bak : PathBuf) (outcome : Bool × Option ConversionError) (s : S) (e : VaultError)
      → (conclude lib wire texts csv path bak outcome s).0 ≡ err e
      → (conclude lib wire texts csv path bak outcome s).1 ≡ restore lib wire texts csv path bak s
  conclude-eq_err bak (found, none) s e h = cc
  conclude-eq_err bak (found, some _) s e h = refl

  -- A removal that fails behind the backup has restored the file.
  rebuild_failed :
      (id : Uuid) (bs : List AddressBookmark) (bak : PathBuf) (s : S) (rows : List (List String))
      (e : VaultError)
      → bak ≢ path
      → content s bak ≡ some rows
      → All IsRow rows
      → read_rows lib wire texts (map ok rows) ≡ ok bs
      → All (IsStored lib) bs
      → (rebuild lib wire texts csv content path flushed laws id bs bak s).0 ≡ err e
      → Book (rebuild lib wire texts csv content path flushed laws id bs bak s).1 bs
  rebuild_failed id bs bak s rows e apart backup valid reads h failed =
      let s1 = (csv.writer path s).1 in
      let opened = reliable.writer_total path s in
      let (outcome, ended) =
        rewrite_total lib wire texts csv path content flushed laws reliable id bs false none s1 in
      let s2 = (rewrite lib wire texts csv path id bs false none s1).1 in
      let clear = reliable.flush_total path s2 in
      let s3 = (csv.flush path s2).1 in
      let kept : content s3 bak ≡ some rows =
        (laws.flush_ok path bak s2 clear).1
        ∙ rewrite_other lib wire texts csv path content flushed laws id bs false none s1 bak apart
        ∙ laws.writer_other path bak s apart
        ∙ backup in
      let book =
        restore-IsBook bak s3 bs rows apart (laws.flush_ok path path s2 clear).0 kept valid reads
          h in
      let ran =
        rebuild_eq lib wire texts csv content path flushed laws reliable id bs bak s outcome
          ended in
      let left = conclude-eq_err bak outcome s3 e (rw ran at failed) in rw (ran, left) book

  still_there :
      (s : S) (bs : List AddressBookmark) (bak : PathBuf)
      → Book s bs
      → (csv.rename path bak s).0 ≡ ok tt
      → IsTable lib wire texts csv content path s bs
  still_there s bs bak h moved = elim h.held [
    | inl (gone, none_held) ↦ absurd (laws.rename_missing path bak s gone moved)
    | inr t ↦ t
  ]

  -- On files that do not fail, a removal that fails leaves all bookmarks as they were: the file that
  -- was being written is replaced by its backup.
  pub remove_failed :
      (s : S) (bs : List AddressBookmark) (id : Uuid) (e : VaultError)
      → ((bak : PathBuf) → csv.set_extension path ".bak" ≡ some bak → bak ≢ path)
      → Book s bs
      → (remove lib wire texts csv path id s).0 ≡ err e
      → Book (remove lib wire texts csv path id s).1 bs
  remove_failed s bs id e apart h failed =
      let all_read = get_all_total lib wire texts csv content path flushed laws reliable s bs h in
      let s1 = (get_all lib wire texts csv path s).1 in
      let h1 = (get_all-IsBook lib wire texts csv content path flushed laws s bs bs h all_read).1 in
      elim (Option-cases (csv.set_extension path ".bak")) [
        | inl unnamed ↦
            rw
              (remove_unnamed lib wire texts csv content path flushed laws reliable s bs id all_read
                unnamed)
              h1
        | inr (bak, named) ↦ elim (Result-cases (csv.rename path bak s1).0) [
          | inl (u, moved) ↦
              let ran =
                remove_moved lib wire texts csv content path flushed laws reliable s bs id all_read
                  bak named moved in
              let t = still_there s1 bs bak h1 moved in
              let backup =
                laws.rename_ok path bak s1 (λ same. apart bak named (sym same)) moved
                ∙ t.content_is in
              rw ran (
                rebuild_failed id bs bak (csv.rename path bak s1).1 t.rows e (apart bak named)
                  backup t.rows_valid t.read_is h1.storable (rw ran at failed))
          | inr (text, stuck) ↦
              let left = laws.rename_failed path bak path s1 text stuck in
              rw
                (remove_stuck lib wire texts csv content path flushed laws reliable s bs id all_read
                  bak text named stuck)
                (IsBook-same s1 (csv.rename path bak s1).1 bs (laws.rename_flushed path bak s1)
                  left.0 left.1 h1)
        ]
      ]
