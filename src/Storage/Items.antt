-- ===== src/Storage/Items.antt =====
-- Wallets, keys and seeds as the items of the files of a vault: `HasUuid` of src/structs/types.rs with the
-- conversions of src/convert/proto.
use emerald_rs.Prelude.{
  ℕ, ◌≡◌, refl, ap, ◌∙◌, String, true, none, some, List, [], ◌∷◌, map, Result, ok, err, arith,
  ==_iff,
}
use emerald_rs.Structs.{
  ConversionError, other_error, Wallet, PrivateKeyHolder, Seed, WalletEntry, max_id, next_entry_id,
}
use emerald_rs.Convert.Paths.{in_millis}
use emerald_rs.Convert.Messages.{ProtoWallet, ProtoPrivateKey, ProtoSeed}
use emerald_rs.Convert.Crates.{ConvertLib, Wire}
use emerald_rs.Convert.Wallets.{
  ReadError, conversion, panic, wallet_from_bytes, wallet_to_bytes, reserve_all,
}
use emerald_rs.Convert.Wallets.RoundTrip.{
  IsStorableWallet, entry_in_millis, wallet_from_bytes-wallet_to_bytes,
}
use emerald_rs.Convert.Keys.{pk_from_bytes, pk_to_bytes}
use emerald_rs.Convert.Seeds.{seed_from_bytes, seed_to_bytes}
use emerald_rs.Storage.Disk.{file, FileSystem, IsFileSystem, Paths, wallet}
use emerald_rs.Storage.Files.{Item, get, update}
use emerald_rs.Storage.Files.View.{path_of, backup_of, IsVaultPaths, vault_kind}
use emerald_rs.Storage.Files.Liveness.{IsReliable, update-succeeds, get-succeeds}
use emerald_rs.Storage.Files.Writes.{update-written}

-- The panic on the date of an entry is not told from an error here.
abbrev read_result : {P : Type 0} → Result ReadError P → Result ConversionError P
read_result (ok p) = ok p
read_result (err (conversion e)) = err e
read_result (err panic) = err other_error

module _ (lib : ConvertLib) where
  unfoldable pub wallet_item : Wire ProtoWallet → Item Wallet
  unfolding wallet_from_bytes wallet_to_bytes
  wallet_item wire = record {
    get_id = λ w. w.id;
    try_from = λ bs. read_result (wallet_from_bytes lib wire bs);
    try_into = wallet_to_bytes lib wire;
  }

  unfoldable pub key_item : Wire ProtoPrivateKey → Item PrivateKeyHolder
  unfolding pk_from_bytes pk_to_bytes
  key_item wire = record {
    get_id = λ k. k.id;
    try_from = pk_from_bytes lib wire;
    try_into = pk_to_bytes lib wire;
  }

  unfoldable pub seed_item : Wire ProtoSeed → Item Seed
  unfolding seed_from_bytes seed_to_bytes
  seed_item wire = record {
    get_id = λ s. s.id;
    try_from = seed_from_bytes lib wire;
    try_into = seed_to_bytes lib wire;
  }

  -- A wallet as it is stored, with its dates in milliseconds.
  abbrev pub stored : Wallet → Wallet
  stored w = record w {
    entries = map entry_in_millis w.entries;
    entry_seq = next_entry_id w;
    reserved = reserve_all lib w.entries w.reserved;
    created_at = in_millis w.created_at;
  }

  max_id-in_millis : (es : List WalletEntry) → max_id (map entry_in_millis es) ≡ max_id es
  unfolding max_id
  max_id-in_millis [] = refl
  max_id-in_millis (e ∷ es) = rw (max_id-in_millis es) refl

  next_entry_id-stored : (w : Wallet) → next_entry_id (stored w) ≡ next_entry_id w
  unfolding next_entry_id
  next_entry_id-stored w = ground (arith, max_id-in_millis w.entries)

  module _ {S PathBuf : Type 0} (paths : Paths PathBuf) (fs : FileSystem S PathBuf)
      (laws : IsFileSystem fs paths.related) (dir : PathBuf) (names : IsVaultPaths paths dir)
      (wire : Wire ProtoWallet) where
    wallet-codec :
        (w : Wallet)
        → IsStorableWallet lib w
        → (bs : List ℕ) → wallet_to_bytes lib wire w ≡ ok bs
        → read_result (wallet_from_bytes lib wire bs) ≡ ok (stored w)
    wallet-codec w h bs made = rw (wallet_from_bytes-wallet_to_bytes lib wire w bs h made) refl

    -- On a disk on which nothing fails, the update of a storable wallet that has a file and no backup
    -- succeeds, and a later read of its identifier returns the wallet in its stored form, with its
    -- dates in milliseconds, which gives the next entry the same identifier.
    pub get-update_wallet :
        (reliable : IsReliable fs) (trim_end : String → String) (now : String) (s : S) (w : Wallet)
        (old bs : List ℕ)
        → IsStorableWallet lib w
        → wallet_to_bytes lib wire w ≡ ok bs
        → fs.node s (path_of paths dir wallet w.id) ≡ some (file old)
        → fs.node s (backup_of paths dir wallet w.id) ≡ none
        → ((update paths fs (vault_kind dir wallet) (wallet_item wire) trim_end now w s).0
            ≡ ok true)
          × ((get paths fs
                (vault_kind dir wallet)
                (wallet_item wire)
                w.id
                (update paths fs (vault_kind dir wallet) (wallet_item wire) trim_end now w s).1).0
              ≡ ok (stored w))
          × (next_entry_id (stored w) ≡ next_entry_id w)
    unfolding wallet_item
    get-update_wallet reliable trim_end now s w old bs h made there free =
        let done =
          update-succeeds paths fs laws dir names reliable wallet (wallet_item wire) trim_end now w
            bs old s made there free in
        let after =
          update-written paths fs laws dir names wallet (wallet_item wire) trim_end now s w
            (some (stored w)) true (λ bs made. rw (wallet-codec w h bs made) refl) done in
        let held = ap (λ v. v w.id) (after.1) ∙ rw ((==_iff w.id w.id).1 refl) refl in
        (
          done,
          get-succeeds paths fs laws dir names reliable wallet (wallet_item wire) _ w.id (stored w)
              held refl,
          next_entry_id-stored w,
        )
