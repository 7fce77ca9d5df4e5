-- ===== src/Tests/Migrated.antt =====
-- A key file of an old vault is migrated into a vault in memory that holds nothing, and so are the two
-- files of an old vault.
use emerald_rs.Prelude.{
  ◌≡◌, refl, String, true, Option, none, some, [], ◌∷◌, ok, false, ◌++◌, map, All, ◌≢◌,
  if◌then◌else◌, arith, str_eq, Result,
}
use emerald_rs.Chains.{ethereum_classic}
use emerald_rs.Structs.{Uuid, PrivateKeyHolder, Seed, Wallet}
use emerald_rs.Storage.VaultStorage.{VaultStorage, IsVaultStorage}
use emerald_rs.Migration.{MigrationResult, LogMessage, has_log}
use emerald_rs.Migration.KeyFiles.{KeyFileV2, core, hmac_sha256_v2, pbkdf2_v2, encrypted_from_v2}
use emerald_rs.Migration.AddToVault.{MigrationLib, add_to_vault}
use emerald_rs.Storage.Disk.{FileSystem, Paths, directory}
use emerald_rs.Storage.Archive.{submit, check_opened}
use emerald_rs.Storage.Standard.{create_vault}
use emerald_rs.Migration.V1.Migrate.{
  MigrationError, started, migrate, migrate_opened, migrate_chain,
}
use emerald_rs.Migration.V1.{
  OldVault, migrate_wallets, blockchain_path, process_file, process_files,
}
use emerald_rs.Migration.Complete.Run.{migrate_complete, after_files}
use emerald_rs.Migration.Complete.{migrate_wallets_complete, IsMigrated, wallet_id_of}
use emerald_rs.Tests.Memory.{memory, memory-IsVault, memory-Keeps}
use emerald_rs.Tests.Messages.{hex}

abbrev State : Type 0
State = (Uuid → Option Wallet) × ((Uuid → Option PrivateKeyHolder) × (Uuid → Option Seed))

abbrev wallets_of : State → Uuid → Option Wallet
wallets_of s = s.0

abbrev keys_of : State → Uuid → Option PrivateKeyHolder
keys_of s = s.1.0

abbrev seeds_of : State → Uuid → Option Seed
seeds_of s = s.1.1

abbrev put_wallets : State → (Uuid → Option Wallet) → State
put_wallets s v = (v, s.1)

abbrev put_keys : State → (Uuid → Option PrivateKeyHolder) → State
put_keys s v = (s.0, (v, s.1.1))

abbrev put_seeds : State → (Uuid → Option Seed) → State
put_seeds s v = (s.0, (s.1.0, v))

abbrev empty : State
empty = (λ _. none, (λ _. none, λ _. none))

abbrev vault : VaultStorage State String
vault = record {
  keys = memory keys_of put_keys (λ k. k.id) (λ s v. refl) [];
  seeds = memory seeds_of put_seeds (λ k. k.id) (λ s v. refl) [];
  wallets = memory wallets_of put_wallets (λ w. w.id) (λ s v. refl) [];
  key_filename = λ _. "key";
  wallet_filename = λ _. "wallet";
}

abbrev lib : MigrationLib
lib = record {
  hex = hex;
  path_of_text = λ _. none;
  sha256 = λ bs. bs;
  address_text = λ _. "0x01";
  debug = λ _. "error";
}

target_laws :
    IsVaultStorage vault keys_of seeds_of wallets_of (λ k. some k) (λ s. some s) (λ w. some w)
target_laws = record {
  keys_law = memory-IsVault keys_of put_keys (λ k. k.id) (λ s v. refl) [];
  seeds_law = memory-IsVault seeds_of put_seeds (λ k. k.id) (λ s v. refl) [];
  wallets_law = memory-IsVault wallets_of put_wallets (λ w. w.id) (λ s v. refl) [];
  keys_keep = memory-Keeps keys_of put_keys (λ k. k.id) (λ s v. refl) wallets_of (λ s v. refl) [];
  seeds_keep =
      memory-Keeps seeds_of put_seeds (λ k. k.id) (λ s v. refl) wallets_of (λ s v. refl) [];
  keys_keep_seeds =
      memory-Keeps keys_of put_keys (λ k. k.id) (λ s v. refl) seeds_of (λ s v. refl) [];
  seeds_keep_keys =
      memory-Keeps seeds_of put_seeds (λ k. k.id) (λ s v. refl) keys_of (λ s v. refl) [];
  wallets_keep_keys =
      memory-Keeps wallets_of put_wallets (λ w. w.id) (λ s v. refl) keys_of (λ s v. refl) [];
  wallets_keep_seeds =
      memory-Keeps wallets_of put_wallets (λ w. w.id) (λ s v. refl) seeds_of (λ s v. refl) [];
}

abbrev wallet_id : Uuid
wallet_id = 6

abbrev key_file : KeyFileV2
key_file = record {
  visible = none;
  name = some "savings";
  description = none;
  address = some (1 ∷ []);
  uuid = 3;
  crypto = core (record {
    cipher_text = [];
    iv = 7 ∷ [];
    kdf_params = record { kdf = pbkdf2_v2 hmac_sha256_v2 1024; dklen = 32; salt = 8 ∷ [] };
    mac = 9 ∷ [];
  });
}

-- An old vault with two files.
abbrev old : OldVault State String
old = record {
  join = λ name. name;
  exists = λ _ _. true;
  is_dir = λ _ _. true;
  glob_json = λ dir _. "a.json" ∷ "b.json" ∷ [];
  read = λ _ _. some [];
  from_slice = λ _. some (record {
    version = 3;
    id = 3;
    address = key_file.address;
    name = key_file.name;
    description = none;
    visible = none;
    crypto = record {
      cipher_text = [];
      iv = 7 ∷ [];
      kdf_params = record { kdf = pbkdf2_v2 hmac_sha256_v2 1024; dklen = 32; salt = 8 ∷ [] };
      mac = 9 ∷ [];
    };
  });
  debug_path = λ path. path;
  debug_name = λ path. path;
  new_ids = λ path. if str_eq path "a.json" then (5, 6) else (7, 8);
}

-- A disk on which every operation succeeds and is not seen.
abbrev unseen : FileSystem State String
unseen = record {
  node = λ _ _. some directory;
  read = λ _ s. (ok [], s);
  write = λ _ _ s. (ok tt, s);
  rename = λ _ _ s. (ok tt, s);
  remove_file = λ _ s. (ok tt, s);
  create_dir_all = λ _ s. (ok tt, s);
  move_items = λ _ _ s. (ok tt, s);
  read_dir = λ _ s. (ok [], s);
  create = λ _ s. (ok tt, s);
  write_all = λ _ _ s. (ok tt, s);
}

abbrev texts : Paths String
texts = record {
  equal = str_eq;
  join = λ _ name. name;
  parent = λ _. none;
  file_name = λ p. some p;
  file_stem = λ p. some p;
  extension = λ _. none;
  with_extension = λ p _. p;
  uuid_text = λ _. "";
  uuid_of = λ _. none;
  captures = λ _. none;
  is_backup = λ _. false;
  related = λ _ _. true;
}

abbrev run : Result MigrationError MigrationResult × State
run = migrate texts unseen old lib 100 (λ _. "error") vault "vault" "2021" empty

abbrev outcome : MigrationResult
outcome = record {
  wallets = 6 ∷ 8 ∷ [];
  logs =
      LogMessage.info "Start migration from Vault V1"
      ∷ LogMessage.info "Migrate EthereumClassic"
      ∷ LogMessage.info "Process Key File a.json"
      ∷ LogMessage.info "Process Key File b.json"
      ∷ LogMessage.info "Done migrating EthereumClassic"
      ∷ LogMessage.info "Moving to archive keys for EthereumClassic"
      ∷ LogMessage.info "Migration finished"
      ∷ [];
}

ran : run.0 ≡ ok outcome
unfolding migrate migrate_opened migrate_chain create_vault submit check_opened migrate_wallets
    blockchain_path process_files process_file add_to_vault encrypted_from_v2
ran = refl

found : blockchain_path old ethereum_classic empty ≡ some "mainnet"
unfolding blockchain_path
found = refl

silent :
    has_log (migrate_wallets old lib vault 100 ethereum_classic started empty).0.migration ≡ false
unfolding migrate_wallets blockchain_path process_files process_file add_to_vault encrypted_from_v2
    has_log
silent = refl

migrate_wallets_complete_example :
    ((migrate_wallets old lib vault 100 ethereum_classic started empty).0.created_wallets
      ≡ started.created_wallets ++ map (wallet_id_of old) (old.glob_json "mainnet" empty))
    × All
        (IsMigrated old lib vault 100 ethereum_classic wallets_of
          (λ w. some w)
          (migrate_wallets old lib vault 100 ethereum_classic started empty).1)
        (old.glob_json "mainnet" empty)
    × ((j : Uuid)
        → All (λ path. wallet_id_of old path ≢ j) (old.glob_json "mainnet" empty)
        → wallets_of (migrate_wallets old lib vault 100 ethereum_classic started empty).1 j
          ≡ wallets_of empty j)
migrate_wallets_complete_example =
    migrate_wallets_complete old lib vault 100 ethereum_classic keys_of seeds_of wallets_of
      (λ k. some k) (λ s. some s) (λ w. some w) target_laws "mainnet" started empty found
      (((λ same. omega (arith, same)), tt), (tt, tt)) silent

complete_found :
    blockchain_path old ethereum_classic (create_vault texts unseen vault "vault" empty).1
    ≡ some "mainnet"
unfolding blockchain_path
complete_found = refl

complete_silent : has_log outcome ≡ false
unfolding has_log
complete_silent = refl

migrate_complete_example :
    (outcome.wallets
      ≡ map
          (wallet_id_of old)
          (old.glob_json "mainnet" (create_vault texts unseen vault "vault" empty).1))
    × All
        (IsMigrated old lib vault 100 ethereum_classic wallets_of
          (λ w. some w)
          (after_files texts unseen old lib vault 100 keys_of seeds_of wallets_of
            (λ k. some k)
            (λ s. some s)
            (λ w. some w)
            target_laws
            (create_vault texts unseen vault "vault" empty).1))
        (old.glob_json "mainnet" (create_vault texts unseen vault "vault" empty).1)
migrate_complete_example =
    migrate_complete texts unseen old lib vault 100 keys_of seeds_of wallets_of (λ k. some k)
      (λ s. some s) (λ w. some w) target_laws (λ _. "error") "vault" "2021" empty "mainnet" outcome
      ran complete_found (((λ same. omega (arith, same)), tt), (tt, tt)) complete_silent
