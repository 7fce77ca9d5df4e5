-- ===== src/Storage/Standard/Laws.antt =====
-- The vault in a directory, as `VaultStorage::create` of src/storage/vault.rs makes it, with the items
-- of src/convert/proto.
use emerald_rs.Prelude.{String}
use emerald_rs.Storage.VaultStorage.{IsVaultStorage}
use emerald_rs.Storage.Disk.{FileSystem, IsFileSystem, Paths, key, wallet, seed}
use emerald_rs.Storage.Files.View.{IsVaultPaths, read_back, view}
use emerald_rs.Storage.Files.Refinement.{vault_files-IsVault}
use emerald_rs.Storage.Files.Keeping.{vault_files-Keeps}
use emerald_rs.Storage.Standard.{vault_at}
use emerald_rs.Storage.Items.{key_item, wallet_item, seed_item}
use emerald_rs.Convert.Crates.{ConvertLib, Wire}
use emerald_rs.Convert.Messages.{ProtoWallet, ProtoPrivateKey, ProtoSeed}

module _ {S PathBuf : Type 0} (paths : Paths PathBuf) (fs : FileSystem S PathBuf)
    (laws : IsFileSystem fs paths.related) (dir : PathBuf) (names : IsVaultPaths paths dir)
    (lib : ConvertLib) (key_wire : Wire ProtoPrivateKey) (wallet_wire : Wire ProtoWallet)
    (seed_wire : Wire ProtoSeed) where
  -- The keys, the wallets and the seeds in the files of a directory are storages as their clients
  -- expect them, whatever operations of the disk fail, and each leaves alone what the others hold. An
  -- identifier holds what its file reads as, and what is read back of an item is what its bytes
  -- are converted to, if it has bytes and they can be converted.
  pub vault_at-IsVaultStorage :
      (trim_end : String → String) (now : String)
      → IsVaultStorage
          (vault_at paths fs
            (key_item lib key_wire)
            (wallet_item lib wallet_wire)
            (seed_item lib seed_wire)
            trim_end
            now
            dir)
          (view paths fs dir key (key_item lib key_wire))
          (view paths fs dir seed (seed_item lib seed_wire))
          (view paths fs dir wallet (wallet_item lib wallet_wire))
          (read_back (key_item lib key_wire))
          (read_back (seed_item lib seed_wire))
          (read_back (wallet_item lib wallet_wire))
  unfolding vault_at key_item wallet_item seed_item
  vault_at-IsVaultStorage trim_end now =
      let keys_item = key_item lib key_wire in
      let wallets_item = wallet_item lib wallet_wire in
      let seeds_item = seed_item lib seed_wire in
      record {
        keys_law = vault_files-IsVault paths fs laws dir names key keys_item trim_end now;
        seeds_law = vault_files-IsVault paths fs laws dir names seed seeds_item trim_end now;
        wallets_law = vault_files-IsVault paths fs laws dir names wallet wallets_item trim_end now;
        keys_keep =
            vault_files-Keeps paths fs laws dir names key wallet (λ h. cc) keys_item trim_end now
              wallets_item;
        seeds_keep =
            vault_files-Keeps paths fs laws dir names seed wallet (λ h. cc) seeds_item trim_end now
              wallets_item;
        keys_keep_seeds =
            vault_files-Keeps paths fs laws dir names key seed (λ h. cc) keys_item trim_end now
              seeds_item;
        seeds_keep_keys =
            vault_files-Keeps paths fs laws dir names seed key (λ h. cc) seeds_item trim_end now
              keys_item;
        wallets_keep_keys =
            vault_files-Keeps paths fs laws dir names wallet key (λ h. cc) wallets_item trim_end now
              keys_item;
        wallets_keep_seeds =
            vault_files-Keeps paths fs laws dir names wallet seed (λ h. cc) wallets_item trim_end
              now seeds_item;
      }
