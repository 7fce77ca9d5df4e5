-- ===== src/Storage/AddressBook/Loop.antt =====
-- The loop of `remove` in src/storage/addressbook.rs: its rounds, the rows that it writes, and that it
-- ends on files that do not fail.
use mathlib.Core.List.{append-nil, append_assoc}
use emerald_rs.Prelude.{
  subst, ℕ, ◌≡◌, ◌≢◌, refl, ap, ◌∙◌, ◌==◌, ◌||◌, inl, inr, String, Bool, true, false, Option, none,
  some, List, [], ◌∷◌, ◌++◌, Result, ok, err, All, arith, map_err-eq_ok, if◌then◌else◌, Bool-cases,
  Result-cases,
}
use emerald_rs.Structs.{Uuid, VaultError, ConversionError}
use emerald_rs.Convert.Crates.{ConvertLib, Wire}
use emerald_rs.Convert.Messages.{ProtoBookItem}
use emerald_rs.Convert.Books.{book_to_bytes}
use emerald_rs.Storage.Access.{◌>>◌, bind-eq_ok, bind-keeps}
use emerald_rs.Storage.Csv.{CsvFiles, IsCsvFiles, IsReliableCsv}
use emerald_rs.Storage.Bookmarks.{BookTexts, AddressBookmark, row_of, record_of}
use emerald_rs.Storage.Bookmarks.RoundTrip.{IsStored}
use emerald_rs.Storage.AddressBook.{write, rewrite}
use emerald_rs.Storage.AddressBook.Tables.{IsTable, write-IsTable}

-- The bookmarks that do not have the identifier, in their order.
abbrev pub without : Uuid → List AddressBookmark → List AddressBookmark
without id [] = []
without id (b ∷ bs) = if b.id == id then without id bs else b ∷ without id bs

abbrev pub has_id : Uuid → List AddressBookmark → Bool
has_id id [] = false
has_id id (b ∷ bs) = (b.id == id) || has_id id bs

pub All-without :
    (P : AddressBookmark → Type 0) (id : Uuid) (bs : List AddressBookmark)
    → All P bs
    → All P (without id bs)
All-without P id [] h = tt
All-without P id (b ∷ bs) h = elim (Bool-cases (b.id == id)) [
  | inl e ↦ rw e (All-without P id bs h.1)
  | inr e ↦ rw e (h.0, All-without P id bs h.1)
]

-- The conversion of the bookmark to bytes succeeds.
abbrev pub HasBytes : ConvertLib → Wire ProtoBookItem → AddressBookmark → Type 0
HasBytes lib wire b = (bytes : List ℕ) × (book_to_bytes lib wire b.details ≡ ok bytes)

module _ {S PathBuf : Type 0} (lib : ConvertLib) (wire : Wire ProtoBookItem) (texts : BookTexts)
    (csv : CsvFiles S PathBuf) (path : PathBuf) where
  abbrev Loop : Type 0
  Loop = S → Result VaultError (Bool × Option ConversionError) × S

  abbrev loop : Uuid → List AddressBookmark → Bool → Option ConversionError → Loop
  loop id items found error s = rewrite lib wire texts csv path id items found error s

  abbrev row : AddressBookmark → List ℕ → List String
  row b bytes = row_of (record_of texts b.id bytes)

  abbrev write_row : AddressBookmark → List ℕ → S → Result VaultError (Unit {0}) × S
  write_row b bytes s = write lib wire texts csv path (record_of texts b.id bytes) s

  module _ (id : Uuid) (b : AddressBookmark) (items : List AddressBookmark) (found : Bool)
      (error : Option ConversionError) (s : S) where
    rewrite_dropped :
        b.id == id ≡ true → loop id (b ∷ items) found error s ≡ loop id items true error s
    unfolding rewrite
    rewrite_dropped same = rw (rewrite, same) refl

    rewrite_kept :
        (bytes : List ℕ)
        → b.id == id ≡ false
        → book_to_bytes lib wire b.details ≡ ok bytes
        → loop id (b ∷ items) found error s ≡ (do write_row b bytes; loop id items found error) s
    unfolding rewrite
    rewrite_kept bytes other encoded = ground (arith, other, encoded)

    rewrite_failed :
        (e : ConversionError)
        → b.id == id ≡ false
        → book_to_bytes lib wire b.details ≡ err e
        → loop id (b ∷ items) found error s ≡ loop id items found (some e) s
    unfolding rewrite
    rewrite_failed e other failed = ground (arith, other, failed)

  module _ (content : S → PathBuf → Option (List (List String))) (flushed : S → Bool)
      (laws : IsCsvFiles csv content flushed) where
    abbrev Table : S → List AddressBookmark → Type 0
    Table s bs = IsTable lib wire texts csv content path s bs

    -- What holds of the loop when it ends without an error.
    pub record IsRewritten (id : Uuid) (items bs : List AddressBookmark) (found : Bool)
        (error : Option ConversionError) (s : S) (result : Bool) : Type 0 where
      pub none_before : error ≡ none
      pub result_is : result ≡ (found || has_id id items)
      pub table : Table (loop id items found error s).1 (bs ++ without id items)

    -- A loop that met no error has written the bookmarks that it keeps behind those that were there.
    pub rewrite-IsTable :
        (id : Uuid) (items bs : List AddressBookmark) (found : Bool)
        (error : Option ConversionError) (s : S) (result : Bool)
        → Table s bs
        → All (IsStored lib) items
        → (loop id items found error s).0 ≡ ok (result, none)
        → IsRewritten id items bs found error s result
    unfolding write
    rewrite-IsTable id [] bs found error s result t h done = record {
      none_before = unfold rewrite in cc (done);
      result_is = unfold rewrite in ground arith;
      table = unfold rewrite in rw append-nil t;
    }
    rewrite-IsTable id (b ∷ items) bs found error s result t h done =
        elim (Bool-cases (b.id == id)) [
          | inl same ↦
              let step = rewrite_dropped id b items found error s same in
              let r = rewrite-IsTable id items bs true error s result t h.1 (rw step at done) in
              record {
                none_before = r.none_before;
                result_is = ground (arith, same, r.result_is);
                table = rw (step, same) r.table;
              }
          | inr other ↦ elim (Result-cases (book_to_bytes lib wire b.details)) [
            | inl (bytes, encoded) ↦
                let step = rewrite_kept id b items found error s bytes other encoded in
                let (u, e1, e2, e3) = bind-eq_ok (write_row b bytes) _ s (rw step at done) in
                let wrote = map_err-eq_ok _ (csv.write_record path (row b bytes) s).0 e1 in
                let t' =
                  write-IsTable lib wire texts csv content path flushed laws s bs b bytes t h.0.0
                    encoded wrote in
                let r =
                  rewrite-IsTable id items (bs ++ b ∷ []) found error _ result
                    (subst (λ c. Table (write_row b bytes s).1 (bs ++ c ∷ [])) h.0.1 t') h.1 e2 in
                record {
                  none_before = r.none_before;
                  result_is = ground (arith, other, r.result_is);
                  table = rw (step, e3, other) (rw append_assoc at r.table);
                }
            | inr (e, failed) ↦
                let step = rewrite_failed id b items found error s e other failed in
                let r =
                  rewrite-IsTable id items bs found (some e) s result t h.1 (rw step at done) in
                absurd (cc r.none_before)
          ]
        ]

    write_row_total :
        IsReliableCsv csv content flushed
        → (b : AddressBookmark) (bytes : List ℕ) (s : S) → (write_row b bytes s).0 ≡ ok tt
    unfolding write
    write_row_total reliable b bytes s = rw (reliable.write_record_total path s (row b bytes)) refl

    write_row_other :
        (b : AddressBookmark) (bytes : List ℕ) (s : S) (q : PathBuf)
        → q ≢ path
        → content (write_row b bytes s).1 q ≡ content s q
    unfolding write
    write_row_other b bytes s q apart = laws.write_record_other path q s (row b bytes) apart

    -- The loop leaves the other files alone.
    pub rewrite_other :
        (id : Uuid) (items : List AddressBookmark) (found : Bool) (error : Option ConversionError)
        (s : S) (q : PathBuf)
        → q ≢ path
        → content (loop id items found error s).1 q ≡ content s q
    rewrite_other id [] found error s q apart = unfold rewrite in refl
    rewrite_other id (b ∷ items) found error s q apart = elim (Bool-cases (b.id == id)) [
      | inl same ↦
          rw (rewrite_dropped id b items found error s same)
            (rewrite_other id items true error s q apart)
      | inr other ↦ elim (Result-cases (book_to_bytes lib wire b.details)) [
        | inl (bytes, encoded) ↦ rw (rewrite_kept id b items found error s bytes other encoded) (
            bind-keeps (write_row b bytes) (λ _. loop id items found error) (λ t. content t q) s
              (write_row_other b bytes s q apart)
              (λ _. rewrite_other id items found error _ q apart))
        | inr (e, failed) ↦
            rw (rewrite_failed id b items found error s e other failed)
              (rewrite_other id items found (some e) s q apart)
      ]
    ]

    -- On files that do not fail, the loop ends.
    pub rewrite_total :
        IsReliableCsv csv content flushed
        → (id : Uuid) (items : List AddressBookmark) (found : Bool) (error : Option ConversionError)
          (s : S)
        → (outcome : Bool × Option ConversionError) × ((loop id items found error s).0 ≡ ok outcome)
    rewrite_total reliable id [] found error s = unfold rewrite in ((found, error), refl)
    rewrite_total reliable id (b ∷ items) found error s = elim (Bool-cases (b.id == id)) [
      | inl same ↦
          rw (rewrite_dropped id b items found error s same)
            (rewrite_total reliable id items true error s)
      | inr other ↦ elim (Result-cases (book_to_bytes lib wire b.details)) [
        | inl (bytes, encoded) ↦
            rw
              (
                rewrite_kept id b items found error s bytes other encoded,
                write_row_total reliable b bytes s,
              )
              (rewrite_total reliable id items found error _)
        | inr (e, failed) ↦
            rw (rewrite_failed id b items found error s e other failed)
              (rewrite_total reliable id items found (some e) s)
      ]
    ]

    rewrite_wrote :
        IsReliableCsv csv content flushed
        → (id : Uuid) (b : AddressBookmark) (items : List AddressBookmark) (found : Bool) (s : S)
          (bytes : List ℕ)
        → b.id == id ≡ false
        → book_to_bytes lib wire b.details ≡ ok bytes
        → (loop id (b ∷ items) found none s).0
          ≡ (loop id items found none (write_row b bytes s).1).0
    rewrite_wrote reliable id b items found s bytes other encoded =
        rw
          (
            rewrite_kept id b items found none s bytes other encoded,
            write_row_total reliable b bytes s,
          )
          refl

    -- The loop meets no error where all bookmarks have bytes.
    pub rewrite_clean :
        IsReliableCsv csv content flushed
        → (id : Uuid) (items : List AddressBookmark) (found : Bool) (s : S)
        → All (HasBytes lib wire) items
        → (loop id items found none s).0 ≡ ok (found || has_id id items, none)
    rewrite_clean reliable id [] found s h = unfold rewrite in ap (λ b. ok (b, none)) (ground arith)
    rewrite_clean reliable id (b ∷ items) found s h = elim (Bool-cases (b.id == id)) [
      | inl same ↦
          ap (λ r. r.0) (rewrite_dropped id b items found none s same)
          ∙ rewrite_clean reliable id items true s h.1
          ∙ ap (λ f. ok (f, none)) (ground (arith, same))
      | inr other ↦
          rewrite_wrote reliable id b items found s h.0.0 other h.0.1
          ∙ (rewrite_clean reliable id items found _ h.1
              ∙ ap (λ f. ok (f, none)) (ground (arith, other)))
    ]
