-- ===== src/Tests/Files.antt =====
-- The theorems on the files of a vault at concrete disks.
use emerald_rs.Prelude.{
  ℕ, ◌≡◌, refl, ap, none, some, List, [], ◌∷◌, All, true, false, Result, ok, err, arith, String,
  inl, inr,
}
use emerald_rs.Structs.{ConversionError, invalid_length, PrivateKeyHolder, Seed, next_entry_id}
use emerald_rs.Storage.Access.{VaultAccess, get_each, IsVault, Keeps}
use emerald_rs.Storage.Disk.{file, key, wallet, seed}
use emerald_rs.Storage.Archive.{Archive, ArchiveType, create, submit}
use emerald_rs.Storage.Files.{Item, safe_update, vault_files, get, update}
use emerald_rs.Storage.Files.Safety.{IsKept, safe_update-IsKept}
use emerald_rs.Storage.Files.View.{vault_kind, view, read_back}
use emerald_rs.Storage.Files.Refinement.{vault_files-IsVault}
use emerald_rs.Storage.Files.Keeping.{vault_files-Keeps}
use emerald_rs.Storage.Recovery.{revert_backups}
use emerald_rs.Storage.Recovery.Restores.{revert_backups-restores}
use emerald_rs.Storage.VaultStorage.{
  VaultStorage, IsVaultStorage, get_wallet_files, other_ids, key_refs, other_key_refs,
  exclusive_refs,
}
use emerald_rs.Storage.Standard.{remove_wallet, submit_all, vault_at}
use emerald_rs.Storage.Standard.Laws.{vault_at-IsVaultStorage}
use emerald_rs.Storage.Standard.Removes.{remove_wallet-removes, remove_wallet-other}
use emerald_rs.Storage.Items.{key_item, seed_item, wallet_item, get-update_wallet, stored}
use emerald_rs.Tests.Disk.{
  TestPath, State, paths, root, names, backups, disk, disk-IsFileSystem, disk-IsReliable, put,
  item_path, backup_path, equal_iff, read_name,
}
use emerald_rs.Tests.Messages.{convert_lib, wallet_wire, key_wire, seed_wire}
use emerald_rs.Tests.Stored.{
  wallet_bytes, wallet_written, wallet-IsStorableWallet, wallet as stored_wallet, ledger_seed,
}
use emerald_rs.Tests.Phrases.{holder}

abbrev trimmed : String → String
trimmed text = text

abbrev files_at : State
files_at = put (λ p. none) (item_path wallet 5) (some (file (1 ∷ 2 ∷ [])))

abbrev archive : Archive TestPath
archive = create paths root ArchiveType.update "now"

-- On a full disk the update fails.
safe_update-IsKept_example :
    IsKept paths
      (disk true [])
      (disk-IsFileSystem true [])
      archive
      (item_path wallet 5)
      (backup_path wallet 5)
      (1 ∷ 2 ∷ [])
      (7 ∷ [])
      (safe_update paths (disk true []) (item_path wallet 5) (7 ∷ []) (some archive) files_at)
unfolding read_name
safe_update-IsKept_example =
    safe_update-IsKept paths (disk true []) (disk-IsFileSystem true []) archive (item_path wallet 5)
      (backup_path wallet 5) (λ h. cc (ap (λ p. p.shape) h)) refl (1 ∷ 2 ∷ []) (7 ∷ []) "wallet"
      files_at refl refl refl

abbrev number_of : List ℕ → Result ConversionError ℕ
number_of (n ∷ []) = ok n
number_of _ = err invalid_length

abbrev numbers : Item ℕ
numbers = record { get_id = λ n. n; try_from = number_of; try_into = λ n. ok (n ∷ []) }

vault_files-IsVault_example :
    IsVault
      (vault_files paths
        (disk true [])
        (vault_kind root wallet)
        (wallet_item convert_lib wallet_wire)
        trimmed
        "now")
      (view paths (disk true []) root wallet (wallet_item convert_lib wallet_wire))
      (λ w. w.id)
      (read_back (wallet_item convert_lib wallet_wire))
unfolding wallet_item
vault_files-IsVault_example =
    vault_files-IsVault paths (disk true []) (disk-IsFileSystem true []) root names wallet
      (wallet_item convert_lib wallet_wire) trimmed "now"

vault_at-IsVaultStorage_example :
    IsVaultStorage
      (vault_at paths
        (disk true [])
        (key_item convert_lib key_wire)
        (wallet_item convert_lib wallet_wire)
        (seed_item convert_lib seed_wire)
        trimmed
        "now"
        root)
      (view paths (disk true []) root key (key_item convert_lib key_wire))
      (view paths (disk true []) root seed (seed_item convert_lib seed_wire))
      (view paths (disk true []) root wallet (wallet_item convert_lib wallet_wire))
      (read_back (key_item convert_lib key_wire))
      (read_back (seed_item convert_lib seed_wire))
      (read_back (wallet_item convert_lib wallet_wire))
vault_at-IsVaultStorage_example =
    vault_at-IsVaultStorage paths (disk true []) (disk-IsFileSystem true []) root names convert_lib
      key_wire wallet_wire seed_wire trimmed "now"

vault_files-Keeps_example :
    Keeps
      (vault_files paths (disk true []) (vault_kind root seed) numbers trimmed "now")
      (view paths (disk true []) root wallet numbers)
vault_files-Keeps_example =
    vault_files-Keeps paths (disk true []) (disk-IsFileSystem true []) root names seed wallet
      (λ h. cc) numbers trimmed "now" numbers

true-false : false ≡ true → ⊥
true-false h = ground arith

abbrev listing : List (Result String TestPath)
listing = ok (item_path key 9) ∷ ok (backup_path wallet 5) ∷ []

abbrev broken_off : State
broken_off = put (λ p. none) (backup_path wallet 5) (some (file (1 ∷ 2 ∷ [])))

revert_backups-restores_example :
    ((n : ℕ) × ((revert_backups paths (disk false listing) root trimmed "now" broken_off).0 ≡ ok n))
    × ((revert_backups paths (disk false listing) root trimmed "now" broken_off).1
          (item_path wallet 5)
        ≡ some (file (1 ∷ 2 ∷ [])))
unfolding read_name
revert_backups-restores_example =
    revert_backups-restores paths (disk false listing) (disk-IsFileSystem false listing) root names
      backups "now" wallet 5 (disk-IsReliable listing) trimmed listing (1 ∷ 2 ∷ []) broken_off refl
      (inr (inl refl)) ((λ h. absurd (true-false h)), ((λ h. (wallet, 5, refl)), tt)) refl refl

abbrev with_wallet : State
with_wallet = put (λ p. none) (item_path wallet 5) (some (file (0 ∷ [])))

get-update_wallet_example :
    ((update paths
        (disk false [])
        (vault_kind root wallet)
        (wallet_item convert_lib wallet_wire)
        trimmed
        "now"
        stored_wallet
        with_wallet).0
      ≡ ok true)
    × ((get paths
          (disk false [])
          (vault_kind root wallet)
          (wallet_item convert_lib wallet_wire)
          5
          (update paths
            (disk false [])
            (vault_kind root wallet)
            (wallet_item convert_lib wallet_wire)
            trimmed
            "now"
            stored_wallet
            with_wallet).1).0
        ≡ ok (stored convert_lib stored_wallet))
    × (next_entry_id (stored convert_lib stored_wallet) ≡ next_entry_id stored_wallet)
unfolding read_name
get-update_wallet_example =
    get-update_wallet convert_lib paths (disk false []) (disk-IsFileSystem false []) root names
      wallet_wire (disk-IsReliable []) trimmed "now" with_wallet stored_wallet (0 ∷ []) wallet_bytes
      wallet-IsStorableWallet wallet_written refl refl

-- A vault of the one wallet.
abbrev nothing : {P : Type 0} → P → VaultAccess State P
nothing p = record {
  list = λ s. (ok [], s);
  get = λ id s. (ok p, s);
  add = λ q s. (ok 0, s);
  remove = λ id s. (ok true, s);
  update = λ q s. (ok true, s);
}

abbrev vault : PrivateKeyHolder → Seed → VaultStorage State TestPath
vault k s = record {
  keys = nothing k;
  wallets = nothing stored_wallet;
  seeds = nothing s;
  key_filename = item_path key;
  wallet_filename = item_path wallet;
}

abbrev both_files : State
both_files = put with_wallet (item_path key 9) (some (file (3 ∷ [])))

abbrev names_of : List TestPath
names_of = item_path key 9 ∷ item_path wallet 5 ∷ []

files_found : (get_wallet_files (vault holder ledger_seed) 5 true both_files).0 ≡ ok names_of
unfolding get_wallet_files get_each other_ids key_refs other_key_refs exclusive_refs
files_found = refl

wallet_removed :
    (remove_wallet paths
      (disk false [])
      (vault holder ledger_seed)
      trimmed
      "now"
      root
      5
      both_files).0
    ≡ ok true
unfolding remove_wallet get_wallet_files get_each other_ids key_refs other_key_refs exclusive_refs
    submit_all read_name submit
wallet_removed = refl

remove_wallet-removes_example :
    All
      (λ f.
        (remove_wallet paths
            (disk false [])
            (vault holder ledger_seed)
            trimmed
            "now"
            root
            5
            both_files).1
          f
        ≡ none)
      names_of
unfolding read_name
remove_wallet-removes_example =
    remove_wallet-removes paths (disk false []) (disk-IsFileSystem false []) "now" root
      (names.archive_inside "now") equal_iff (vault holder ledger_seed) trimmed 5 names_of
      both_files files_found (refl, (refl, tt)) wallet_removed

remove_wallet-other_example :
    (remove_wallet paths
        (disk true [])
        (vault holder ledger_seed)
        trimmed
        "now"
        root
        5
        both_files).1
      (item_path key 2)
    ≡ none
unfolding read_name get_wallet_files get_each other_ids
remove_wallet-other_example =
    remove_wallet-other paths (disk true []) (disk-IsFileSystem true []) "now" root
      (names.archive_inside "now") (vault holder ledger_seed) trimmed 5 names_of (item_path key 2)
      both_files files_found refl ((λ h. cc (ap (λ p. p.id) h)), ((λ h. cc (ap (λ p. p.id) h)), tt))
      refl
