-- ===== src/Tests/Books.antt =====
-- The address book on files in memory, with texts that count in the letter "a", and its theorems at
-- concrete inputs.
use Prim.Native.String.{◌++◌ as append, [] as empty, ◌∷◌ as char_then}
use Prim.Native.String.append
use Prim.Native.Char.{code}
use emerald_rs.Prelude.{
  ℕ, zero, suc, ◌+◌, ◌≡◌, ◌≢◌, refl, sym, ap, ◌∙◌, ◌==◌, ==_iff, String, Bool, true, false, inl,
  inr, if◌then◌else◌, Option, none, some, List, [], ◌∷◌, ◌++◌, map, Result, ok, err, Bool-cases,
}
use emerald_rs.Storage.Bookmarks.{BookTexts}
use emerald_rs.Storage.Csv.{CsvFiles, IsCsvFiles, IsReliableCsv}
use emerald_rs.Tests.Disk.{uuid_text}

abbrev count_of : Bool → Option ℕ → Option ℕ
count_of true (some n) = some (suc n)
count_of _ _ = none

unfoldable pub letters : String → Option ℕ
letters empty = some 0
letters (char_then c s) = let rest = letters s in count_of (code c == 97) rest

pub letters-uuid_text : (n : ℕ) → letters (uuid_text n) ≡ some n
unfolding letters
letters-uuid_text zero = refl
letters-uuid_text (suc n) = rw (letters-uuid_text n) refl

abbrev pub list_text : List ℕ → String
list_text [] = ""
list_text (n ∷ ns) = char_then "b" (append (uuid_text n) (list_text ns))

abbrev step_of : Bool → ℕ × List ℕ → ℕ × List ℕ
step_of true (k, ns) = (suc k, ns)
step_of false (k, ns) = (0, k ∷ ns)

unfoldable pub numbers : String → ℕ × List ℕ
numbers empty = (0, [])
numbers (char_then c s) = let rest = numbers s in step_of (code c == 97) rest

numbers_letters :
    (n : ℕ) (t : String) (ns : List ℕ)
    → numbers t ≡ (0, ns)
    → numbers (append (uuid_text n) t) ≡ (n, ns)
unfolding numbers
numbers_letters zero t ns h = (ap numbers (append.nil t)) ∙ h
numbers_letters (suc n) t ns h =
    let step : append (char_then "a" (uuid_text n)) t ≡ char_then "a" (append (uuid_text n) t) =
      (λ i. append.cons "a" (uuid_text n) t i) in
    rw (step, numbers_letters n t ns h) refl

pub numbers-list_text : (ns : List ℕ) → numbers (list_text ns) ≡ (0, ns)
unfolding numbers
numbers-list_text [] = refl
numbers-list_text (n ∷ ns) = rw (numbers_letters n (list_text ns) ns (numbers-list_text ns)) refl

abbrev pub texts : BookTexts
unfolding letters numbers
texts = record {
  parse_str = letters;
  uuid_to_string = uuid_text;
  base64_decode = λ s. some (numbers s).1;
  base64_encode = list_text;
  parse_str-uuid_to_string = λ id h. letters-uuid_text id;
  parse_str-id = refl;
  base64_decode-base64_encode = λ bs. ap (λ r. some r.1) (numbers-list_text bs);
}

abbrev pub State : Type 0
State = ℕ → Option (List (List String))

abbrev put : State → ℕ → Option (List (List String)) → State
put s p rows q = if q == p then rows else s q

put_same : (s : State) (p : ℕ) (rows : Option (List (List String))) → put s p rows p ≡ rows
put_same s p rows = rw ((==_iff p p).1 refl) refl

put_other :
    (s : State) (p q : ℕ) (rows : Option (List (List String))) → q ≢ p → put s p rows q ≡ s q
put_other s p q rows apart = elim (Bool-cases (q == p)) [
  | inl same ↦ absurd (apart ((==_iff q p).0 same))
  | inr differ ↦ rw differ refl
]

abbrev is_there : Option (List (List String)) → Bool
is_there none = false
is_there (some _) = true

abbrev read_file :
    Option (List (List String)) → Result (Unit {0}) (List (Result (Unit {0}) (List String)))
read_file none = err tt
read_file (some rows) = ok (map ok rows)

abbrev opened : Option (List (List String)) → Option (List (List String))
opened none = some []
opened (some rows) = some rows

abbrev appended : List String → Option (List (List String)) → Option (List (List String))
appended row none = some (row ∷ [])
appended row (some rows) = some (rows ++ row ∷ [])

abbrev moved : Option (List (List String)) → State → State → Result String (Unit {0}) × State
moved none s t = (err "missing", s)
moved (some _) s t = (ok tt, t)

abbrev pub csv : CsvFiles State ℕ
csv = record {
  exists = λ s p. is_there (s p);
  records = λ p s. (read_file (s p), s);
  open_append = λ p s. (ok tt, put s p (opened (s p)));
  writer = λ p s. (ok tt, put s p (some []));
  write_record = λ p row s. (ok tt, put s p (appended row (s p)));
  flush = λ p s. (ok tt, s);
  set_extension = λ p text. some (p + 1);
  rename = λ from to s. moved (s from) s (put (put s from none) to (s from));
  remove_file = λ p s. (ok tt, put s p none);
}

abbrev pub content : State → ℕ → Option (List (List String))
content s p = s p

-- The writers keep nothing back.
abbrev pub flushed : State → Bool
flushed s = true

there_if_some :
    (o : Option (List (List String))) (rows : List (List String))
    → o ≡ some rows
    → is_there o ≡ true
there_if_some o rows h = rw h refl

none_if_gone : (o : Option (List (List String))) → is_there o ≡ false → o ≡ none
none_if_gone none h = refl
none_if_gone (some _) h = cc

moved_ok :
    (o : Option (List (List String))) (s t : State) → (moved o s t).0 ≡ ok tt → (moved o s t).1 ≡ t
moved_ok none s t h = cc
moved_ok (some _) s t h = refl

moved_failed :
    (o : Option (List (List String))) (s t : State) (e : String)
    → (moved o s t).0 ≡ err e
    → (moved o s t).1 ≡ s
moved_failed none s t e h = refl
moved_failed (some _) s t e h = cc

pub csv-IsCsvFiles : IsCsvFiles csv content flushed
csv-IsCsvFiles = record {
  exists_content = λ p s rows h. there_if_some (s p) rows h;
  records_content = λ p q s. refl;
  records_flushed = λ p s. refl;
  records_exists = λ p q s. refl;
  records_ok = λ p s rows lines clear h valid done complete.
      (let found : ok lines ≡ ok (map ok rows) = sym done ∙ ap read_file h in cc);
  open_append_new =
      λ p s gone done. put_same s p (opened (s p)) ∙ ap opened (none_if_gone (s p) gone);
  open_append_old = λ p s rows h done. put_same s p (opened (s p)) ∙ ap opened h;
  writer_ok = λ p s done. put_same s p (some []);
  writer_other = λ p q s apart. put_other s p q _ apart;
  write_record_ok =
      λ p s rows row h valid done. put_same s p (appended row (s p)) ∙ ap (appended row) h;
  write_record_other = λ p q s row apart. put_other s p q _ apart;
  flush_ok = λ p q s done. (refl, refl);
  rename_ok = λ from to s apart done.
      ap (λ t. t to) (moved_ok (s from) s _ done) ∙ put_same (put s from none) to (s from);
  rename_failed = λ from to q s e h. (
    ap (λ t. t q) (moved_failed (s from) s _ e h),
    ap (λ t. is_there (t q)) (moved_failed (s from) s _ e h),
  );
  rename_missing =
      λ from to s gone done. missing_stays (s from) s _ (none_if_gone (s from) gone) done;
  rename_flushed = λ from to s. refl;
  remove_file_other = λ p q s apart. put_other s p q none apart;
  remove_file_flushed = λ p s. refl;
}
  where
    missing_stays :
        (o : Option (List (List String))) (s t : State) → o ≡ none → ¬ ((moved o s t).0 ≡ ok tt)
    missing_stays o s t h done = absurd (cc (rw h at done))

pub csv-IsReliableCsv : IsReliableCsv csv content flushed
csv-IsReliableCsv = record {
  records_total = λ p s rows clear h valid. ap read_file h;
  open_append_total = λ p s. refl;
  writer_total = λ p s. refl;
  write_record_total = λ p s row. refl;
  flush_total = λ p s. refl;
  rename_total = λ from to s rows h. moves (s from) s _ rows h;
}
  where
    moves :
        (o : Option (List (List String))) (s t : State) (rows : List (List String))
        → o ≡ some rows
        → (moved o s t).0 ≡ ok tt
    moves o s t rows h = rw h refl
