-- ===== src/Tests/Disk.antt =====
-- A disk in memory: a function from paths to what they hold. It can be full, when a write leaves an
-- empty file.
use Prim.Native.String.{◌++◌ as append, [] as empty, ◌∷◌ as char_then}
use Prim.Native.String.append
use Prim.Native.Char.{code}
use emerald_rs.Prelude.{
  ℕ, zero, suc, ◌+◌, ◌≡◌, ◌≢◌, ◌↔◌, refl, sym, ap, ◌∙◌, ◌==◌, ==_iff, ◌&&◌, ◌||◌, ltb, arith,
  String, str_eq, eq_iff, Bool, true, false, if◌then◌else◌, Option, none, some, List, [], Result,
  ok, err, Bool-cases, inl, inr,
}
use emerald_rs.Structs.{Uuid}
use emerald_rs.Storage.Disk.{
  Node, file, directory, FileSystem, IsFileSystem, Paths, VaultSuffix, key, wallet, seed,
  suffix_text,
}
use emerald_rs.Storage.Files.View.{IsVaultPaths, path_of, backup_of}
use emerald_rs.Storage.Files.Liveness.{IsReliable}
use emerald_rs.Storage.Archive.{archive_dir}
use emerald_rs.Storage.Recovery.{is_backup_name}
use emerald_rs.Storage.Recovery.Steps.{IsBackupPaths}

-- The shapes: 0 the vault, 1 an item, 2 a backup, 3 and more the archives and the rest.
pub record TestPath : Type 0 where
  pub shape : ℕ
  pub kind : ℕ
  pub id : ℕ
  pub name : String

abbrev pub equal : TestPath → TestPath → Bool
equal p q = (p.shape == q.shape) && ((p.kind == q.kind) && ((p.id == q.id) && str_eq p.name q.name))

and_both : (a b : Bool) → a && b ≡ true → (a ≡ true) × (b ≡ true)
and_both a b h = ground arith

pub equal_iff : (p q : TestPath) → (equal p q ≡ true) ↔ (p ≡ q)
equal_iff p q = (there p q, back p q)
  where
    there : (p q : TestPath) → equal p q ≡ true → p ≡ q
    there p q h =
        let (shape, h2) = and_both (p.shape == q.shape) _ h in
        let (kind, h3) = and_both (p.kind == q.kind) _ h2 in
        let (id, name) = and_both (p.id == q.id) _ h3 in
        let s = (==_iff p.shape q.shape).0 shape in
        let k = (==_iff p.kind q.kind).0 kind in
        let i = (==_iff p.id q.id).0 id in
        let n = (eq_iff p.name q.name).0 name in
        (λ t. record { shape = s t; kind = k t; id = i t; name = n t })

    back : (p q : TestPath) → p ≡ q → equal p q ≡ true
    back p q h =
        rw
          (
            h,
            (==_iff q.shape q.shape).1 refl,
            (==_iff q.kind q.kind).1 refl,
            (==_iff q.id q.id).1 refl,
            (eq_iff q.name q.name).1 refl,
          )
          refl

abbrev kind_number : VaultSuffix → ℕ
kind_number key = 0
kind_number wallet = 1
kind_number seed = 2

kind_number_injective : (x y : VaultSuffix) → kind_number x ≡ kind_number y → x ≡ y
kind_number_injective x y h = ground arith

abbrev pub item_path : VaultSuffix → Uuid → TestPath
item_path k i = record { shape = 1; kind = kind_number k; id = i; name = "" }

abbrev pub backup_path : VaultSuffix → Uuid → TestPath
backup_path k i = record { shape = 2; kind = kind_number k; id = i; name = "" }

abbrev pub uuid_text : ℕ → String
uuid_text zero = ""
uuid_text (suc n) = char_then "a" (uuid_text n)

abbrev kind_of : String → Option (ℕ × VaultSuffix)
kind_of s =
    if str_eq s "key"
    then some (0, key)
    else if str_eq s "wallet"
    then some (0, wallet)
    else if str_eq s "seed"
    then some (0, seed)
    else none

abbrev one_more : Option (ℕ × VaultSuffix) → Option (ℕ × VaultSuffix)
one_more none = none
one_more (some (n, k)) = some (suc n, k)

unfoldable pub read_name : String → Option (ℕ × VaultSuffix)
read_name empty = none
read_name (char_then c s) =
    let rest = read_name s in if code c == 46 then kind_of s else one_more rest

pub read_name_lem :
    (k : VaultSuffix) (n : ℕ)
    → read_name (append (uuid_text n) (append "." (suffix_text k))) ≡ some (n, k)
unfolding read_name
read_name_lem key zero = refl
read_name_lem wallet zero = refl
read_name_lem seed zero = refl
read_name_lem k (suc n) =
    let step : append (char_then "a" (uuid_text n)) (append "." (suffix_text k))
        ≡ char_then "a" (append (uuid_text n) (append "." (suffix_text k))) =
      (λ i. append.cons "a" (uuid_text n) (append "." (suffix_text k)) i) in
    rw (step, read_name_lem k n) refl

abbrev pub root : TestPath
root = record { shape = 0; kind = 0; id = 0; name = "" }

abbrev named : String → Option (ℕ × VaultSuffix) → TestPath
named name (some (id, k)) = item_path k id
named name none = record { shape = 3; kind = 0; id = 0; name = name }

-- An archive is below a path of shape 3, and a file of an archive below that.
abbrev pub join : TestPath → String → TestPath
join p name =
    if p.shape == 0
    then named name (read_name name)
    else record { shape = p.shape + 1; kind = 0; id = 0; name = name }

abbrev text_of_kind : ℕ → String
text_of_kind n = if n == 0 then "key" else if n == 1 then "wallet" else "seed"

abbrev name_of : TestPath → String
name_of p = append (uuid_text p.id) (append "." (text_of_kind p.kind))

abbrev pub paths : Paths TestPath
paths = record {
  equal = equal;
  join = join;
  parent = λ p. if p.shape == 1 then some root else none;
  file_name = λ p.
      if p.shape == 2
      then some "backup"
      else if p.shape == 1
      then some (name_of p)
      else some p.name;
  file_stem = λ p. if p.shape == 2 then some (name_of p) else none;
  extension = λ p. if p.shape == 1 then some (text_of_kind p.kind) else none;
  with_extension = λ p ext. record p { shape = p.shape + 1 };
  uuid_text = uuid_text;
  uuid_of = λ text. none;
  captures = λ name. none;
  is_backup = λ name. str_eq name "backup";
  related = λ d p. equal d p || (ltb 2 p.shape || (p.shape == 0));
}

path_of-item_path : (k : VaultSuffix) (i : Uuid) → path_of paths root k i ≡ item_path k i
path_of-item_path k i = rw (read_name_lem k i) refl

backup_of-backup_path : (k : VaultSuffix) (i : Uuid) → backup_of paths root k i ≡ backup_path k i
backup_of-backup_path k i = rw (path_of-item_path k i) refl

text_of_kind_eq : (k : VaultSuffix) → text_of_kind (kind_number k) ≡ suffix_text k
text_of_kind_eq k = ground arith

text_of_kind_lem : (k : VaultSuffix) → some (text_of_kind (kind_number k)) ≡ some (suffix_text k)
text_of_kind_lem k = ground arith

pub names : IsVaultPaths paths root
unfolding read_name
names = record {
  path_of_id =
      λ k o i j h. ap (λ p. p.id) (sym (path_of-item_path k i) ∙ h ∙ path_of-item_path o j);
  path_of_kind = λ k o i j h.
      kind_number_injective k o
        (ap (λ p. p.kind) (sym (path_of-item_path k i) ∙ h ∙ path_of-item_path o j));
  extension_of = λ k i. rw (path_of-item_path k i) (text_of_kind_lem k);
  backup_apart = λ k o i j h.
      cc (ap (λ p. p.shape) (sym (path_of-item_path k i) ∙ h ∙ backup_of-backup_path o j));
  archive_apart = λ now k i. rw (path_of-item_path k i) refl;
  archive_inside = λ now name. refl;
}

pub backups : IsBackupPaths paths root
unfolding read_name
backups = record {
  equal_path = equal_iff;
  stem_of = λ k i.
      ap paths.file_stem (backup_of-backup_path k i)
      ∙ (ap (λ t. some (append (uuid_text i) (append "." t))) (text_of_kind_eq k));
  backup_named =
      λ k i. ap (λ p. is_backup_name paths (paths.file_name p)) (backup_of-backup_path k i);
  archive_apart = λ now k i.
      ap (paths.related (paths.join (paths.join root archive_dir) now)) (backup_of-backup_path k i);
}

abbrev pub State : Type 0
State = TestPath → Option Node

abbrev pub put : State → TestPath → Option Node → State
put s p n q = if equal q p then n else s q

pub put_same : (s : State) (p : TestPath) (n : Option Node) → put s p n p ≡ n
put_same s p n = rw ((equal_iff p p).1 refl) refl

pub put_other : (s : State) (p q : TestPath) (n : Option Node) → q ≢ p → put s p n q ≡ s q
put_other s p q n apart = elim (Bool-cases (equal q p)) [
  | inl same ↦ absurd (apart ((equal_iff q p).0 same))
  | inr differ ↦ rw differ refl
]

abbrev pub done : Result String (Unit {0})
done = ok tt

abbrev read_node : Option Node → Result String (List ℕ)
read_node (some (file bs)) = ok bs
read_node (some directory) = err "directory"
read_node none = err "missing"

-- What is moved with `moved`, where it is there.
abbrev move : Option Node → State → State → Result String (Unit {0}) × State
move none s moved = (err "missing", s)
move (some _) s moved = (done, moved)

abbrev moved_to : TestPath → TestPath → TestPath
moved_to from dir = record { shape = 5; kind = from.kind; id = from.id; name = dir.name }

abbrev pub disk : Bool → List (Result String TestPath) → FileSystem State TestPath
disk full entries = record {
  node = λ s p. s p;
  read = λ p s. (read_node (s p), s);
  write = λ p bs s.
      if full then (err "full", put s p (some (file []))) else (done, put s p (some (file bs)));
  rename = λ from to s. move (s from) s (put (put s to (s from)) from none);
  remove_file = λ p s. (done, put s p none);
  create_dir_all = λ p s. (done, put s p (some directory));
  move_items = λ from dir s. move (s from) s (put (put s (moved_to from dir) (s from)) from none);
  read_dir = λ p s. (ok entries, s);
  create = λ p s. (done, put s p (some (file [])));
  write_all = λ p text s. (done, put s p (some (file [])));
}

abbrev pub related : TestPath → TestPath → Bool
related = paths.related

unrelated : (d p : TestPath) → related d p ≡ false → (p ≢ d) × (ltb 2 p.shape ≡ false)
unrelated d p h = (λ same. absurd (apart same), ground arith)
  where
    apart : p ≡ d → ⊥
    apart same = let e : equal d p ≡ true = (equal_iff d p).1 (sym same) in ground arith

read_node_ok : (n : Option Node) (bs : List ℕ) → read_node n ≡ ok bs → n ≡ some (file bs)
read_node_ok none bs h = cc
read_node_ok (some directory) bs h = cc
read_node_ok (some (file cs)) bs h = ground arith

move_other :
    (n : Option Node) (s moved : State) (q : TestPath) → moved q ≡ s q → (move n s moved).1 q ≡ s q
move_other none s moved q h = refl
move_other (some _) s moved q h = h

move_ok :
    (n : Option Node) (s moved : State) → (move n s moved).0 ≡ done → (move n s moved).1 ≡ moved
move_ok none s moved h = cc
move_ok (some _) s moved h = refl

move_failed :
    (n : Option Node) (s moved : State) (q : TestPath) (e : String)
    → (move n s moved).0 ≡ err e
    → (move n s moved).1 q ≡ s q
move_failed none s moved q e h = refl
move_failed (some _) s moved q e h = cc

write_other :
    (full : Bool) (es : List (Result String TestPath)) (p q : TestPath) (bs : List ℕ) (s : State)
    → q ≢ p
    → ((disk full es).write p bs s).1 q ≡ s q
write_other true es p q bs s apart = put_other s p q _ apart
write_other false es p q bs s apart = put_other s p q _ apart

write_ok :
    (full : Bool) (es : List (Result String TestPath)) (p : TestPath) (bs : List ℕ) (s : State)
    → ((disk full es).write p bs s).0 ≡ done
    → ((disk full es).write p bs s).1 p ≡ some (file bs)
write_ok true es p bs s h = cc
write_ok false es p bs s h = put_same s p _

archived_far : (q : TestPath) → q.shape ≡ 5 → ltb 2 q.shape ≡ false → ⊥
archived_far q five low = absurd (cc (rw five at low))

pub disk-IsFileSystem :
    (full : Bool) (es : List (Result String TestPath)) → IsFileSystem (disk full es) related
disk-IsFileSystem full es = record {
  read_node = λ p q s. refl;
  read_ok = λ p s bs h. read_node_ok (s p) bs h;
  read_dir_node = λ p q s. refl;
  write_other = write_other full es;
  write_ok = λ p bs s h. write_ok full es p bs s h;
  rename_other = λ from to q s a b.
      move_other (s from) s _ q
        (put_other (put s to (s from)) from q none a ∙ put_other s to q (s from) b);
  rename_ok = λ from to s apart h. (
    ap (λ t. t to) (move_ok (s from) s _ h)
        ∙ (put_other (put s to (s from)) from to none (λ same. apart (sym same))
            ∙ put_same s to (s from)),
    ap (λ t. t from) (move_ok (s from) s _ h) ∙ put_same (put s to (s from)) from none,
  );
  rename_failed = λ from to q s e h. move_failed (s from) s _ q e h;
  remove_other = λ p q s apart. put_other s p q none apart;
  move_other = λ from dir q s a far. move_other (s from) s _ q (
      put_other (put s (moved_to from dir) (s from)) from q none a
      ∙ put_other s (moved_to from dir) q (s from)
          (λ same. archived_far q (ap (λ x. x.shape) same) (unrelated dir q far).1));
  move_ok = λ from dir s far h.
      ap (λ t. t from) (move_ok (s from) s _ h)
      ∙ put_same (put s (moved_to from dir) (s from)) from none;
  create_dir_other = λ dir q s far. put_other s dir q _ ((unrelated dir q far).0);
  create_other = λ p q s apart. put_other s p q _ apart;
  write_all_other = λ p q text s apart. put_other s p q _ apart;
}

rename_total :
    (n : Option Node) (s moved : State) (bs : List ℕ)
    → n ≡ some (file bs)
    → (move n s moved).0 ≡ done
rename_total n s moved bs h = rw h refl

-- A disk that is not full is reliable.
pub disk-IsReliable : (es : List (Result String TestPath)) → IsReliable (disk false es)
disk-IsReliable es = record {
  read_total = λ p s bs h. ap read_node h;
  rename_total = λ from to s bs h free. rename_total (s from) s _ bs h;
  write_total = λ p bs s h. refl;
}
