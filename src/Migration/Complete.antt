-- ===== src/Migration/Complete.antt =====
-- The loop of src/migration/source/v1.rs loses no key file without a line in the log.
pub mod Run
use mathlib.Core.List.{append-nil, append_assoc}
use emerald_rs.Prelude.{
  arith, ℕ, ◌≡◌, ◌≢◌, refl, sym, ap, ◌∙◌, ◌++◌, String, subst, false, Option, none, some, List, [],
  ◌∷◌, Result, ok, err, any, map, All,
}
use emerald_rs.Chains.{Blockchain}
use emerald_rs.Structs.{Uuid, Instant, PrivateKeyHolder, Seed, Wallet, PkType}
use emerald_rs.Storage.Access.{written_same, written_other}
use emerald_rs.Storage.VaultStorage.{VaultStorage, IsVaultStorage}
use emerald_rs.Migration.{LogMessage, has_log, is_problem}
use emerald_rs.Migration.KeyFiles.{SerializableKeyFileV2, CoreCryptoV2, KeyFileV2, core_key_file}
use emerald_rs.Migration.AddToVault.{MigrationLib, wallet_of, entry_of}
use emerald_rs.Migration.Created.{add_to_vault_ok}
use emerald_rs.Migration.V1.{
  OldVault, Progress, note_added, add_file, add_body, add_read, process_file, process_files,
  migrate_wallets, blockchain_path,
}

pub problem-append :
    (ls : List LogMessage) (l : LogMessage)
    → any is_problem (ls ++ l ∷ []) ≡ false
    → (any is_problem ls ≡ false) × (is_problem l ≡ false)
problem-append [] l h = (refl, ground arith)
problem-append (m ∷ ls) l h = ground (arith, problem-append ls l)

-- Nothing was wrong before, and one wallet is new.
note_added_lem :
    (r : Result String Uuid) (w : Progress)
    → has_log (note_added r w).migration ≡ false
    → (id : Uuid) × (r ≡ ok id)
      × (has_log w.migration ≡ false)
      × ((note_added r w).created_wallets ≡ w.created_wallets ++ id ∷ [])
unfolding has_log
note_added_lem (ok id) w h = (id, refl, h, refl)
note_added_lem (err msg) w h =
    absurd (cc ((problem-append w.migration.logs (LogMessage.error _) h).1))

abbrev pub wallet_id_of : {S PathBuf : Type 0} → OldVault S PathBuf → PathBuf → Uuid
wallet_id_of old path = (old.new_ids path).1

-- The new identifiers differ from file to file.
abbrev pub HasDistinct : {S PathBuf : Type 0} → OldVault S PathBuf → List PathBuf → Type 0
HasDistinct old [] = Unit
HasDistinct old (path ∷ paths) =
    All (λ other. wallet_id_of old other ≢ wallet_id_of old path) paths × HasDistinct old paths

module _ {S PathBuf : Type 0} (old : OldVault S PathBuf) (lib : MigrationLib)
    (vault : VaultStorage S PathBuf) (now : Instant) (blockchain : Blockchain)
    (view_wallets : S → Uuid → Option Wallet) (canon_wallet : Wallet → Option Wallet) where
  -- The wallet that the key file of this path becomes, with `key`.
  abbrev pub wallet_from : PathBuf → SerializableKeyFileV2 CoreCryptoV2 → PkType → Wallet
  wallet_from path file key =
      wallet_of lib vault blockchain now (core_key_file file)
        (entry_of lib vault blockchain now (core_key_file file) key) (wallet_id_of old path)

  -- The file was read and parsed, and the storage of wallets holds what is read back of the wallet
  -- that it becomes.
  abbrev pub IsMigrated : S → PathBuf → Type 0
  IsMigrated t path =
      (u : S) × (body : List ℕ) × (file : SerializableKeyFileV2 CoreCryptoV2) × (key : PkType)
      × (old.read path u ≡ some body)
      × (old.from_slice body ≡ some file)
      × (view_wallets t (wallet_id_of old path) ≡ canon_wallet (wallet_from path file key))

module _ {S PathBuf : Type 0} (old : OldVault S PathBuf) (lib : MigrationLib)
    (vault : VaultStorage S PathBuf) (now : Instant) (blockchain : Blockchain)
    (view_keys : S → Uuid → Option PrivateKeyHolder) (view_seeds : S → Uuid → Option Seed)
    (view_wallets : S → Uuid → Option Wallet)
    (canon_key : PrivateKeyHolder → Option PrivateKeyHolder) (canon_seed : Seed → Option Seed)
    (canon_wallet : Wallet → Option Wallet)
    (laws : IsVaultStorage vault view_keys view_seeds view_wallets canon_key canon_seed
      canon_wallet) where
  abbrev Migrated : S → PathBuf → Type 0
  Migrated t path = IsMigrated old lib vault now blockchain view_wallets canon_wallet t path

  -- The file of this path became a wallet, and no other wallet has changed.
  abbrev Gains : PathBuf → Progress → S → Progress × S → Type 0
  Gains path w s (w', s') =
      (has_log w.migration ≡ false)
      × (w'.created_wallets ≡ w.created_wallets ++ wallet_id_of old path ∷ [])
      × Migrated s' path
      × ((j : Uuid) → wallet_id_of old path ≢ j → view_wallets s' j ≡ view_wallets s j)

  add_file_lem :
      (path : PathBuf) (body : List ℕ) (file : SerializableKeyFileV2 CoreCryptoV2) (w : Progress)
      (s : S)
      → old.read path s ≡ some body
      → old.from_slice body ≡ some file
      → has_log (add_file old lib vault now blockchain file (old.new_ids path) w s).0.migration
        ≡ false
      → Gains path w s (add_file old lib vault now blockchain file (old.new_ids path) w s)
  add_file_lem path body file w s read parsed h =
      let (new_id, wallet_id) = old.new_ids path in
      let kf : KeyFileV2 = core_key_file file in
      let (id, added, silent, grown) = note_added_lem _ w h in
      let (same, _, key, _, holds) =
        add_to_vault_ok lib vault blockchain now view_keys view_seeds view_wallets canon_key
          canon_seed canon_wallet laws kf new_id wallet_id id s added in
      (
        silent,
        grown ∙ ap (λ i. w.created_wallets ++ i ∷ []) same,
        (
          s,
          body,
          file,
          key,
          read,
          parsed,
          ap (λ v. v wallet_id) holds ∙ written_same (view_wallets s) wallet_id _,
        ),
        λ j apart. ap (λ v. v j) holds ∙ written_other (view_wallets s) wallet_id j _ apart,
      )

  add_body_lem :
      (path : PathBuf) (body : List ℕ) (parsed : Option (SerializableKeyFileV2 CoreCryptoV2))
      (w : Progress) (s : S)
      → old.read path s ≡ some body
      → old.from_slice body ≡ parsed
      → has_log (add_body old lib vault now blockchain path parsed w s).0.migration ≡ false
      → Gains path w s (add_body old lib vault now blockchain path parsed w s)
  unfolding has_log
  add_body_lem path body (some file) w s read parse h = add_file_lem path body file w s read parse h
  add_body_lem path body none w s read parse h =
      absurd (cc ((problem-append w.migration.logs (LogMessage.warning _) h).1))

  add_read_lem :
      (path : PathBuf) (body : Option (List ℕ)) (w : Progress) (s : S)
      → old.read path s ≡ body
      → has_log (add_read old lib vault now blockchain path body w s).0.migration ≡ false
      → Gains path w s (add_read old lib vault now blockchain path body w s)
  unfolding has_log
  add_read_lem path (some body) w s read h =
      add_body_lem path body (old.from_slice body) w s read refl h
  add_read_lem path none w s read h =
      absurd (cc ((problem-append w.migration.logs (LogMessage.warning _) h).1))

  process_file_lem :
      (path : PathBuf) (w : Progress) (s : S)
      → has_log (process_file old lib vault now blockchain path w s).0.migration ≡ false
      → Gains path w s (process_file old lib vault now blockchain path w s)
  unfolding process_file has_log
  process_file_lem path w s h =
      let (silent, grown, first, others) = add_read_lem path (old.read path s) _ s refl h in
      ((problem-append w.migration.logs (LogMessage.info _) silent).0, grown, first, others)

  -- A wallet that a file became stays when no other wallet has its identifier.
  stays :
      (path : PathBuf) (s t : S)
      → view_wallets t (wallet_id_of old path) ≡ view_wallets s (wallet_id_of old path)
      → Migrated s path
      → Migrated t path
  stays path s t kept (u, body, file, key, read, parsed, holds) =
      (u, body, file, key, read, parsed, kept ∙ holds)

  -- The files of these paths became wallets, and no other wallet has changed.
  abbrev pub GainsAll : List PathBuf → Progress → S → Progress × S → Type 0
  GainsAll paths w s (w', s') =
      (has_log w.migration ≡ false)
      × (w'.created_wallets ≡ w.created_wallets ++ map (wallet_id_of old) paths)
      × All (Migrated s') paths
      × ((j : Uuid)
          → All (λ path. wallet_id_of old path ≢ j) paths
          → view_wallets s' j ≡ view_wallets s j)

  process_files_lem :
      (paths : List PathBuf) (w : Progress) (s : S)
      → HasDistinct old paths
      → has_log (process_files old lib vault now blockchain paths w s).0.migration ≡ false
      → GainsAll paths w s (process_files old lib vault now blockchain paths w s)
  unfolding process_files
  process_files_lem [] w s apart h = (h, sym (append-nil w.created_wallets), tt, λ j _. refl)
  process_files_lem (path ∷ paths) w s (apart, distinct) h =
      let (w', s') = process_file old lib vault now blockchain path w s in
      let (_, t) = process_files old lib vault now blockchain paths w' s' in
      let (silent, grown, migrated, kept) = process_files_lem paths w' s' distinct h in
      let (before, one, first, others) = process_file_lem path w s silent in
      (
        before,
        grown
            ∙ ap (λ l. l ++ map (wallet_id_of old) paths) one
            ∙ append_assoc w.created_wallets _ _,
        (stays path s' t (kept _ apart) first, migrated),
        λ j outside. kept j outside.1 ∙ others j outside.0,
      )

  -- When the directory of the chain is there, the new identifiers of its key files are distinct, and
  -- the log has no error and no warning after their migration, then each of the files that were found
  -- was read and parsed, and the storage of wallets holds under its new identifier what is read back
  -- of the wallet with one entry that `add_to_vault` makes of it. These identifiers are added to the
  -- list of created wallets, in the order of the files, and what the storage holds under any other
  -- identifier is as before. Each storage is one as its clients expect it, and leaves alone what the
  -- others hold.
  pub migrate_wallets_complete :
      (dir : PathBuf) (w : Progress) (s : S)
      → blockchain_path old blockchain s ≡ some dir
      → HasDistinct old (old.glob_json dir s)
      → has_log (migrate_wallets old lib vault now blockchain w s).0.migration ≡ false
      → ((migrate_wallets old lib vault now blockchain w s).0.created_wallets
          ≡ w.created_wallets ++ map (wallet_id_of old) (old.glob_json dir s))
        × All
            (IsMigrated old lib vault now blockchain view_wallets canon_wallet
              (migrate_wallets old lib vault now blockchain w s).1)
            (old.glob_json dir s)
        × ((j : Uuid)
            → All (λ path. wallet_id_of old path ≢ j) (old.glob_json dir s)
            → view_wallets (migrate_wallets old lib vault now blockchain w s).1 j
              ≡ view_wallets s j)
  unfolding migrate_wallets
  migrate_wallets_complete dir w s found distinct h =
      let begun : Progress = record w { migrated = false } in
      let ran : migrate_wallets old lib vault now blockchain w s
          ≡ process_files old lib vault now blockchain (old.glob_json dir s) begun s =
        rw (migrate_wallets, found) refl in
      let (_, grown, migrated, kept) = subst (GainsAll (old.glob_json dir s) begun s) (sym ran) (
        process_files_lem (old.glob_json dir s) begun s distinct
          (ap (λ r. has_log r.0.migration) (sym ran) ∙ h)) in
      (grown, migrated, kept)
