-- ===== src/Storage/Csv.antt =====
-- What the address book uses of the `csv` crate and of `std::fs`, with what the code relies on.
use emerald_rs.Prelude.{
  ◌≡◌, ◌≢◌, String, Bool, true, false, Option, some, List, [], ◌∷◌, ◌++◌, map, Result, ok, err,
  length, All, any,
}

-- A file of rows that one reader or writer of the `csv` crate has open at a time. An operation can
-- fail at any time.
pub record CsvFiles (S PathBuf : Type 0) : Type 0 where
  pub exists : S → PathBuf → Bool
  -- `ReaderBuilder::from_path` and then what `records` yields
  pub records : PathBuf → S → Result (Unit {0}) (List (Result (Unit {0}) (List String))) × S
  -- `OpenOptions::open` with `create` and `append`, and a writer on the file
  pub open_append : PathBuf → S → Result String (Unit {0}) × S
  -- `WriterBuilder::from_path`, which empties the file
  pub writer : PathBuf → S → Result (Unit {0}) (Unit {0}) × S
  pub write_record : PathBuf → List String → S → Result (Unit {0}) (Unit {0}) × S
  pub flush : PathBuf → S → Result String (Unit {0}) × S
  pub set_extension : PathBuf → String → Option PathBuf
  pub rename : PathBuf → PathBuf → S → Result String (Unit {0}) × S
  pub remove_file : PathBuf → S → Result String (Unit {0}) × S

abbrev pub is_failed : Result (Unit {0}) (List String) → Bool
is_failed (ok _) = false
is_failed (err _) = true

-- Rows of one length that is not 0, as the reader wants them.
abbrev pub IsRow : List String → Type 0
IsRow row = length row ≡ 3

-- `content s p` is what the file `p` holds, as the writer writes rows, once the open writer has
-- written out what it keeps back; `flushed s` that it keeps nothing back. Nothing is promised of
-- what a failed step leaves at its own path.
pub record IsCsvFiles {S PathBuf : Type 0} (csv : CsvFiles S PathBuf)
    (content : S → PathBuf → Option (List (List String))) (flushed : S → Bool) : Type 0 where
  pub exists_content :
      (p : PathBuf) (s : S) (rows : List (List String))
      → content s p ≡ some rows
      → csv.exists s p ≡ true
  pub records_content : (p q : PathBuf) (s : S) → content (csv.records p s).1 q ≡ content s q
  pub records_flushed : (p : PathBuf) (s : S) → flushed (csv.records p s).1 ≡ flushed s
  pub records_exists : (p q : PathBuf) (s : S) → csv.exists (csv.records p s).1 q ≡ csv.exists s q
  -- The rows are as they were written, if no read of one of them failed.
  pub records_ok :
      (p : PathBuf) (s : S) (rows : List (List String))
      (lines : List (Result (Unit {0}) (List String)))
      → flushed s ≡ true
      → content s p ≡ some rows
      → All IsRow rows
      → (csv.records p s).0 ≡ ok lines
      → any is_failed lines ≡ false
      → lines ≡ map ok rows
  pub open_append_new :
      (p : PathBuf) (s : S)
      → csv.exists s p ≡ false
      → (csv.open_append p s).0 ≡ ok tt
      → content (csv.open_append p s).1 p ≡ some []
  pub open_append_old :
      (p : PathBuf) (s : S) (rows : List (List String))
      → content s p ≡ some rows
      → (csv.open_append p s).0 ≡ ok tt
      → content (csv.open_append p s).1 p ≡ some rows
  pub writer_ok :
      (p : PathBuf) (s : S) → (csv.writer p s).0 ≡ ok tt → content (csv.writer p s).1 p ≡ some []
  pub writer_other : (p q : PathBuf) (s : S) → q ≢ p → content (csv.writer p s).1 q ≡ content s q
  pub write_record_ok :
      (p : PathBuf) (s : S) (rows : List (List String)) (row : List String)
      → content s p ≡ some rows
      → IsRow row
      → (csv.write_record p row s).0 ≡ ok tt
      → content (csv.write_record p row s).1 p ≡ some (rows ++ row ∷ [])
  pub write_record_other :
      (p q : PathBuf) (s : S) (row : List String)
      → q ≢ p
      → content (csv.write_record p row s).1 q ≡ content s q
  pub flush_ok :
      (p q : PathBuf) (s : S)
      → (csv.flush p s).0 ≡ ok tt
      → (flushed (csv.flush p s).1 ≡ true) × (content (csv.flush p s).1 q ≡ content s q)
  pub rename_ok :
      (from to : PathBuf) (s : S)
      → from ≢ to
      → (csv.rename from to s).0 ≡ ok tt
      → content (csv.rename from to s).1 to ≡ content s from
  pub rename_failed :
      (from to q : PathBuf) (s : S) (e : String)
      → (csv.rename from to s).0 ≡ err e
      → (content (csv.rename from to s).1 q ≡ content s q)
        × (csv.exists (csv.rename from to s).1 q ≡ csv.exists s q)
  pub rename_missing :
      (from to : PathBuf) (s : S) → csv.exists s from ≡ false → ¬ ((csv.rename from to s).0 ≡ ok tt)
  pub rename_flushed : (from to : PathBuf) (s : S) → flushed (csv.rename from to s).1 ≡ flushed s
  pub remove_file_other :
      (p q : PathBuf) (s : S) → q ≢ p → content (csv.remove_file p s).1 q ≡ content s q
  pub remove_file_flushed : (p : PathBuf) (s : S) → flushed (csv.remove_file p s).1 ≡ flushed s

-- Files on which the steps that the address book takes do not fail.
pub record IsReliableCsv {S PathBuf : Type 0} (csv : CsvFiles S PathBuf)
    (content : S → PathBuf → Option (List (List String))) (flushed : S → Bool) : Type 0 where
  pub records_total :
      (p : PathBuf) (s : S) (rows : List (List String))
      → flushed s ≡ true
      → content s p ≡ some rows
      → All IsRow rows
      → (csv.records p s).0 ≡ ok (map ok rows)
  pub open_append_total : (p : PathBuf) (s : S) → (csv.open_append p s).0 ≡ ok tt
  pub writer_total : (p : PathBuf) (s : S) → (csv.writer p s).0 ≡ ok tt
  pub write_record_total :
      (p : PathBuf) (s : S) (row : List String) → (csv.write_record p row s).0 ≡ ok tt
  pub flush_total : (p : PathBuf) (s : S) → (csv.flush p s).0 ≡ ok tt
  pub rename_total :
      (from to : PathBuf) (s : S) (rows : List (List String))
      → content s from ≡ some rows
      → (csv.rename from to s).0 ≡ ok tt
