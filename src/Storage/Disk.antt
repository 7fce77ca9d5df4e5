-- ===== src/Storage/Disk.antt =====
-- What the storage uses of `std::fs`, `std::path`, `fs_extra` and `regex`, over the state `S` of the disk,
-- with what the code relies on. A path is a value of the type `PathBuf`.
use emerald_rs.Prelude.{
  ℕ, ◌≡◌, ◌≢◌, String, Bool, true, false, Option, none, some, List, Result, ok, err,
}
use emerald_rs.Structs.{Uuid}

-- What a path of the disk holds.
pub data Node : Type 0 where
  file : List ℕ → Node
  directory : Node

pub record FileSystem (S PathBuf : Type 0) : Type 0 where
  pub node : S → PathBuf → Option Node
  pub read : PathBuf → S → Result String (List ℕ) × S
  pub write : PathBuf → List ℕ → S → Result String (Unit {0}) × S
  pub rename : PathBuf → PathBuf → S → Result String (Unit {0}) × S
  pub remove_file : PathBuf → S → Result String (Unit {0}) × S
  pub create_dir_all : PathBuf → S → Result String (Unit {0}) × S
  -- what is moved, and the directory that it is moved to
  pub move_items : PathBuf → PathBuf → S → Result String (Unit {0}) × S
  pub read_dir : PathBuf → S → Result String (List (Result String PathBuf)) × S
  -- `File::create` and `write_all`
  pub create : PathBuf → S → Result String (Unit {0}) × S
  pub write_all : PathBuf → String → S → Result String (Unit {0}) × S

module _ {S PathBuf : Type 0} (fs : FileSystem S PathBuf) where
  abbrev pub is_some_node : Option Node → Bool
  is_some_node none = false
  is_some_node (some _) = true

  -- `PathBuf::exists`, `is_dir` and `is_file`
  abbrev pub exists : S → PathBuf → Bool
  exists s p = is_some_node (fs.node s p)

  abbrev is_dir_node : Option Node → Bool
  is_dir_node (some directory) = true
  is_dir_node _ = false

  abbrev pub is_dir : S → PathBuf → Bool
  is_dir s p = is_dir_node (fs.node s p)

  abbrev is_file_node : Option Node → Bool
  is_file_node (some (file _)) = true
  is_file_node _ = false

  abbrev pub is_file : S → PathBuf → Bool
  is_file s p = is_file_node (fs.node s p)

-- What an operation does to the paths that it names, and that it leaves the other ones alone.
-- `related dir p` tells that one of the two paths is the other one or above it.
pub record IsFileSystem {S PathBuf : Type 0} (fs : FileSystem S PathBuf)
    (related : PathBuf → PathBuf → Bool) : Type 0 where
  pub read_node : (p q : PathBuf) (s : S) → fs.node (fs.read p s).1 q ≡ fs.node s q
  pub read_ok :
      (p : PathBuf) (s : S) (bs : List ℕ) → (fs.read p s).0 ≡ ok bs → fs.node s p ≡ some (file bs)
  pub read_dir_node : (p q : PathBuf) (s : S) → fs.node (fs.read_dir p s).1 q ≡ fs.node s q
  pub write_other :
      (p q : PathBuf) (bs : List ℕ) (s : S) → q ≢ p → fs.node (fs.write p bs s).1 q ≡ fs.node s q
  pub write_ok :
      (p : PathBuf) (bs : List ℕ) (s : S)
      → (fs.write p bs s).0 ≡ ok tt
      → fs.node (fs.write p bs s).1 p ≡ some (file bs)
  pub rename_other :
      (from to q : PathBuf) (s : S)
      → q ≢ from
      → q ≢ to
      → fs.node (fs.rename from to s).1 q ≡ fs.node s q
  pub rename_ok :
      (from to : PathBuf) (s : S)
      → from ≢ to
      → (fs.rename from to s).0 ≡ ok tt
      → (fs.node (fs.rename from to s).1 to ≡ fs.node s from)
        × (fs.node (fs.rename from to s).1 from ≡ none)
  pub rename_failed :
      (from to q : PathBuf) (s : S) (e : String)
      → (fs.rename from to s).0 ≡ err e
      → fs.node (fs.rename from to s).1 q ≡ fs.node s q
  pub remove_other :
      (p q : PathBuf) (s : S) → q ≢ p → fs.node (fs.remove_file p s).1 q ≡ fs.node s q
  pub move_other :
      (from dir q : PathBuf) (s : S)
      → q ≢ from
      → related dir q ≡ false
      → fs.node (fs.move_items from dir s).1 q ≡ fs.node s q
  pub move_ok :
      (from dir : PathBuf) (s : S)
      → related dir from ≡ false
      → (fs.move_items from dir s).0 ≡ ok tt
      → fs.node (fs.move_items from dir s).1 from ≡ none
  pub create_dir_other :
      (dir q : PathBuf) (s : S)
      → related dir q ≡ false
      → fs.node (fs.create_dir_all dir s).1 q ≡ fs.node s q
  pub create_other : (p q : PathBuf) (s : S) → q ≢ p → fs.node (fs.create p s).1 q ≡ fs.node s q
  pub write_all_other :
      (p q : PathBuf) (text : String) (s : S)
      → q ≢ p
      → fs.node (fs.write_all p text s).1 q ≡ fs.node s q

-- The paths, and the patterns that the code matches names with.
pub record Paths (PathBuf : Type 0) : Type 0 where
  pub equal : PathBuf → PathBuf → Bool
  pub join : PathBuf → String → PathBuf
  pub parent : PathBuf → Option PathBuf
  pub file_name : PathBuf → Option String
  pub file_stem : PathBuf → Option String
  pub extension : PathBuf → Option String
  pub with_extension : PathBuf → String → PathBuf
  -- `format!("{}", id)` and `Uuid::from_str`
  pub uuid_text : Uuid → String
  pub uuid_of : String → Option Uuid
  -- the groups `id` and `suffix` of the pattern of a stored item
  pub captures : String → Option (String × String)
  pub is_backup : String → Bool
  pub related : PathBuf → PathBuf → Bool

-- The extensions that `VaultStorage::create` gives to its files.
pub data VaultSuffix : Type 0 where
  key wallet seed : VaultSuffix

abbrev pub suffix_text : VaultSuffix → String
suffix_text key = "key"
suffix_text wallet = "wallet"
suffix_text seed = "seed"
