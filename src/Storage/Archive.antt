-- ===== src/Storage/Archive.antt =====
-- src/storage/archive.rs: the directory that takes what is replaced or removed.
pub mod Frame
use Prim.Native.String.{◌++◌ as append}
use emerald_rs.Prelude.{
  ◌==◌, ◌||◌, if◌then◌else◌, not, str_eq, String, Bool, true, false, Option, none, some, List, [],
  ◌∷◌, Result, ok, err, map_err,
}
use emerald_rs.Storage.Disk.{FileSystem, Paths, exists}

pub data ArchiveType : Type 0 where
  migrate delete update recover other : ArchiveType

pub record Archive (PathBuf : Type 0) : Type 0 where
  pub dir : PathBuf
  pub archive_type : ArchiveType

-- `ARCHIVE_DIR`
abbrev pub archive_dir : String
archive_dir = ".archive"

pub record DescriptionBlock : Type 0 where
  pub title : String
  pub message : String

pub record ArchiveDescription : Type 0 where
  pub title : String
  pub content : List DescriptionBlock

unfoldable pub block_to_string : DescriptionBlock → String
block_to_string b = append "== " (append b.title (append "\n\n" b.message))

unfoldable pub blocks_to_string : List DescriptionBlock → String
unfolding block_to_string
blocks_to_string [] = ""
blocks_to_string (b ∷ bs) =
    append "\n" (append (block_to_string b) (append "\n" (blocks_to_string bs)))

-- `trim_end` of the standard library comes in as an argument.
unfoldable pub description_to_string : (String → String) → ArchiveDescription → String
unfolding blocks_to_string
description_to_string trim_end d =
    trim_end (append "= " (append d.title (append "\n\n" (blocks_to_string d.content))))

abbrev described : String → String → Option ArchiveDescription
described title message =
    some
      (record { title = title; content = record { title = "DESCRIPTION"; message = message } ∷ [] })

unfoldable pub readme : ArchiveType → Option ArchiveDescription
readme delete = described "Delete" "Files removed from the vault"
readme update = described "Update" "File updated. Save a backup copy of the original data"
readme recover =
    described "Recover corrupted vault" "Recover from stale or corrupted data in the vault"
readme migrate = none
readme other = none

module _ {PathBuf : Type 0} (paths : Paths PathBuf) where
  -- `Archive::create`; `now` is the text of the time with `-` for `:`.
  abbrev pub create : PathBuf → ArchiveType → String → Archive PathBuf
  create base archive_type now = record {
    dir = paths.join (paths.join base archive_dir) now;
    archive_type = archive_type;
  }

  module _ {S : Type 0} (fs : FileSystem S PathBuf) (self : Archive PathBuf) where
    -- A failure is only logged.
    unfoldable pub check_opened : S → S
    check_opened s = if exists fs s self.dir then s else (fs.create_dir_all self.dir s).1

    unfoldable pub submit : PathBuf → S → Result String (Unit {0}) × S
    unfolding check_opened
    submit from s =
        let (r, s') = fs.move_items from self.dir (check_opened s) in
        (map_err (append "Failed to copy to archive. Error: ") r, s')

    abbrev is_parent : Option PathBuf → Bool
    is_parent (some p) = paths.equal p self.dir
    is_parent none = false

    abbrev is_name : Option String → String → Bool
    is_name (some name) file_name = str_eq name file_name
    is_name none file_name = false

    write_created : PathBuf → String → Result String (Unit {0}) × S → Result String (Unit {0}) × S
    write_created path content (err e, s) = (err (append "Failed to create file. Error: " e), s)
    write_created path content (ok _, s) =
        let (r, s') = fs.write_all path content s in
        (map_err (append "Failed to write to archive. Error: ") r, s')

    unfoldable pub write : String → String → S → Result String (Unit {0}) × S
    unfolding check_opened write_created
    write file_name content s =
        let opened = check_opened s in
        let path = paths.join self.dir file_name in
        if not (is_parent (paths.parent path)) || not (is_name (paths.file_name path) file_name)
        then (err "File should be on the first level", opened)
        else if exists fs opened path
        then (err "File already exists", opened)
        else write_created path content (fs.create path opened)

    -- The outcome of the write is only logged.
    unfoldable pub finalize : (String → String) → S → S
    unfolding write readme description_to_string
    finalize trim_end s = elim (readme self.archive_type) [
      | some description ↦ (write "README.txt" (description_to_string trim_end description) s).1
      | none ↦ s
    ]
