-- ===== src/Migration/Created.antt =====
-- The wallet that a migrated key file becomes, in src/migration/source/common.rs, can be used: its
-- entry refers to a key or a seed that is stored.
use emerald_rs.Prelude.{
  ◌≡◌, refl, sym, ap, ◌∙◌, String, Option, none, some, List, [], ◌∷◌, Result, ok, err, map_err, All,
  map_err-eq_ok, true, subst, inl, inr, ◌⊎◌,
}
use emerald_rs.Chains.{Blockchain}
use emerald_rs.Structs.{
  Uuid, Instant, PrivateKeyHolder, Seed, SeedSource, bytes, ledger, PkType, private_key_ref,
  seed_hd, Wallet, WalletEntry, ethereum_pk, Encrypted,
}
use emerald_rs.Storage.Access.{written, written_same, list_entries}
use emerald_rs.Storage.Access.Listing.{IsStored, list_entries-IsStored}
use emerald_rs.Storage.VaultStorage.{VaultStorage, IsVaultStorage}
use emerald_rs.Storage.VaultStorage.Removal.{list_entries-same}
use emerald_rs.Migration.KeyFiles.{
  KeyFileV2, CoreCryptoV2, HdwalletCryptoV2, CryptoTypeV2, core, hd_wallet, encrypted_from_v2,
}
use emerald_rs.Migration.AddToVault.{
  Step, MigrationLib, find_ledger, cmp_seeds, parsed_path, fingerprints_of, add_key, seed_for,
  add_hd, entry_for, entry_of, wallet_of, add_to_vault, continue, is_ledger, lift, renamed, ◌>>=◌,
}

-- A block that succeeds ran its first step with success.
step-eq_ok :
    {S A B : Type 0} (m : Step S A) (f : A → Step S B) (s : S) {b : B}
    → ((m >>= f) s).0 ≡ ok b
    → (a : A) × ((m s).0 ≡ ok a) × ((f a (m s).1).0 ≡ ok b) × (((m >>= f) s).1 ≡ (f a (m s).1).1)
step-eq_ok {S} {A} m f s {b} h = go (m s) h
  where
    go :
        (r : Result String A × S)
        → (continue r f).0 ≡ ok b
        → (a : A) × (r.0 ≡ ok a) × ((f a r.1).0 ≡ ok b) × ((continue r f).1 ≡ (f a r.1).1)
    go (ok a, t) h = (a, refl, h, refl)
    go (err e, t) h = cc

found_ledger :
    (Q : Seed → Type 0) (all : List Seed) (s : Seed) → All Q all → find_ledger all ≡ some s → Q s
unfolding find_ledger
found_ledger Q [] s h e = cc
found_ledger Q (x ∷ xs) s h e = go x.source refl (found_ledger Q xs s h.1)
  where
    go : (source : SeedSource) → x.source ≡ source → (find_ledger xs ≡ some s → Q s) → Q s
    go (ledger l) kind rest = let same : x ≡ s = cc (rw (find_ledger, kind) at e) in rw (← same) h.0
    go (bytes b) kind rest = rest (rw (find_ledger, kind) at e)

found_is_ledger :
    (all : List Seed) (s : Seed) → find_ledger all ≡ some s → is_ledger s.source ≡ true
unfolding find_ledger
found_is_ledger [] s e = cc
found_is_ledger (x ∷ xs) s e = go x.source refl (found_is_ledger xs s)
  where
    go :
        (source : SeedSource)
        → x.source ≡ source
        → (find_ledger xs ≡ some s → is_ledger s.source ≡ true)
        → is_ledger s.source ≡ true
    go (ledger l) kind rest =
        let same : x ≡ s = cc (rw (find_ledger, kind) at e) in
        ap (λ s. is_ledger s.source) (sym same) ∙ ap is_ledger kind
    go (bytes b) kind rest = rest (rw (find_ledger, kind) at e)

-- The private key that a key file becomes.
abbrev pub holder_of : KeyFileV2 → Encrypted → Uuid → Instant → PrivateKeyHolder
holder_of kf key id now = record {
  id = id;
  pk = ethereum_pk (record { address = kf.address; key = key });
  created_at = now;
}

-- What an entry of the key file refers to is there, when the keys hold `keys` and the seeds `seeds`:
-- the encrypted key of the file, as it is read back, or the seed of a Ledger, which is a new one, as it
-- is read back, or was there.
module _ (lib : MigrationLib) (canon_key : PrivateKeyHolder → Option PrivateKeyHolder)
    (canon_seed : Seed → Option Seed) (kf : KeyFileV2) (now : Instant) where
  abbrev pub HasSeed : (Uuid → Option Seed) → Uuid → Type 0
  HasSeed seeds id =
      (seed : Seed) × (seed.id ≡ id)
      × (is_ledger seed.source ≡ true)
      × ((seeds id ≡ some seed) ⊎ (seeds id ≡ canon_seed seed))

  abbrev pub HasSource : (Uuid → Option PrivateKeyHolder) → (Uuid → Option Seed) → PkType → Type 0
  HasSource keys seeds (private_key_ref id) =
      (file : CoreCryptoV2) × (key : Encrypted) × (kf.crypto ≡ core file)
      × (encrypted_from_v2 lib.hex file ≡ ok key)
      × (keys id ≡ canon_key (holder_of kf key id now))
  HasSource keys seeds (seed_hd r) = HasSeed seeds r.seed_id

module _ {S PathBuf : Type 0} (lib : MigrationLib) (vault : VaultStorage S PathBuf)
    (blockchain : Blockchain) (now : Instant) (view_keys : S → Uuid → Option PrivateKeyHolder)
    (view_seeds : S → Uuid → Option Seed) (view_wallets : S → Uuid → Option Wallet)
    (canon_key : PrivateKeyHolder → Option PrivateKeyHolder) (canon_seed : Seed → Option Seed)
    (canon_wallet : Wallet → Option Wallet)
    (laws : IsVaultStorage vault view_keys view_seeds view_wallets canon_key canon_seed
      canon_wallet) where
  abbrev Sourced : S → KeyFileV2 → PkType → Type 0
  Sourced t kf key = HasSource lib canon_key canon_seed kf now (view_keys t) (view_seeds t) key

  -- What holds after the first part of `add_to_vault`, from which the entry comes.
  record IsPrepared (s t : S) (kf : KeyFileV2) (e : WalletEntry) : Type 0 where
    source : Sourced t kf e.key
    wallets_same : view_wallets t ≡ view_wallets s
    entry_is : e ≡ entry_of lib vault blockchain now kf e.key

  -- The entry refers to `key`.
  entry_of-IsPrepared :
      (s t : S) (kf : KeyFileV2) (e : WalletEntry) (key : PkType)
      → entry_of lib vault blockchain now kf key ≡ e
      → Sourced t kf key
      → view_wallets t ≡ view_wallets s
      → IsPrepared s t kf e
  entry_of-IsPrepared s t kf e key h source wallets_same =
      rw (← h) (record { source = source; wallets_same = wallets_same; entry_is = refl })

  add_key-IsPrepared :
      (kf : KeyFileV2) (file : CoreCryptoV2) (new_id : Uuid) (s : S) (e : WalletEntry)
      → kf.crypto ≡ core file
      → (add_key lib vault blockchain now kf file new_id s).0 ≡ ok e
      → IsPrepared s (add_key lib vault blockchain now kf file new_id s).1 kf e
  add_key-IsPrepared kf file new_id s e is h =
      let (key, converted, h1, t1) =
        step-eq_ok (lift (map_err (λ _. _) (encrypted_from_v2 lib.hex file))) _ s h in
      let pk : PrivateKeyHolder = holder_of kf key new_id now in
      let (id, a, h2, t2) = step-eq_ok (renamed (λ _. _) (vault.keys.add pk)) _ s h1 in
      let (_, _, now_holds) = laws.keys_law.add_ok s pk id (map_err-eq_ok _ _ a) in
      let t : S = (add_key lib vault blockchain now kf file new_id s).1 in
      let there : view_keys t new_id ≡ canon_key pk =
        ap (λ v. v new_id) (ap view_keys (t1 ∙ t2) ∙ now_holds)
        ∙ written_same (view_keys s) new_id (canon_key pk) in
      entry_of-IsPrepared s t kf e (private_key_ref new_id) (cc)
        (file, key, is, map_err-eq_ok _ _ converted, there)
        (ap view_wallets (t1 ∙ t2) ∙ laws.keys_keep.add_keeps s pk)

  abbrev Seeded : S → KeyFileV2 → Uuid → Type 0
  Seeded t kf id = HasSeed lib canon_key canon_seed kf now (view_seeds t) id

  seed_prepared :
      (kf : KeyFileV2) (file : HdwalletCryptoV2) (new_id : Uuid) (held : Option Seed) (s : S)
      (id : Uuid)
      → ((seed : Seed)
          → held ≡ some seed
          → (view_seeds s seed.id ≡ some seed) × (is_ledger seed.source ≡ true))
      → (seed_for lib vault blockchain now kf file new_id held s).0 ≡ ok id
      → Seeded (seed_for lib vault blockchain now kf file new_id held s).1 kf id
        × (view_wallets (seed_for lib vault blockchain now kf file new_id held s).1
            ≡ view_wallets s)
  seed_prepared kf file new_id (some seed) s id stored h =
      let same : seed.id ≡ id = cc in
      let (there, kind) = stored seed refl in
      ((seed, same, kind, inl (ap (view_seeds s) (sym same) ∙ there)), refl)
  seed_prepared kf file new_id none s id stored h =
      let (fingerprints, _, h1, t1) =
        step-eq_ok (lift (fingerprints_of lib file kf.address)) _ s h in
      let seed : Seed = record {
        id = new_id;
        source = ledger (record { fingerprints = fingerprints });
        label = none;
        created_at = now;
      } in
      let (new, a, h2, t2) = step-eq_ok (renamed (λ _. _) (vault.seeds.add seed)) _ s h1 in
      let (_, _, now_holds) = laws.seeds_law.add_ok s seed new (map_err-eq_ok _ _ a) in
      let same : new_id ≡ id = cc in
      let t : S = (seed_for lib vault blockchain now kf file new_id none s).1 in
      let there : view_seeds t new_id ≡ canon_seed seed =
        ap (λ v. v new_id) (ap view_seeds (t1 ∙ t2) ∙ now_holds)
        ∙ written_same (view_seeds s) new_id (canon_seed seed) in
      (
        (seed, same, refl, inr (ap (view_seeds t) (sym same) ∙ there)),
        ap view_wallets (t1 ∙ t2) ∙ laws.seeds_keep.add_keeps s seed,
      )

  add_hd-IsPrepared :
      (kf : KeyFileV2) (file : HdwalletCryptoV2) (new_id : Uuid) (s : S) (e : WalletEntry)
      → (add_hd lib vault blockchain now kf file new_id s).0 ≡ ok e
      → IsPrepared s (add_hd lib vault blockchain now kf file new_id s).1 kf e
  add_hd-IsPrepared kf file new_id s e h =
      let (all, read, h1, t1) =
        step-eq_ok (renamed (λ _. _) (list_entries vault.seeds cmp_seeds)) _ s h in
      let (stored, same) =
        list_entries-IsStored vault.seeds view_seeds (λ s. s.id) canon_seed laws.seeds_law cmp_seeds
          s all (map_err-eq_ok _ _ read) in
      let s1 : S = (list_entries vault.seeds cmp_seeds s).1 in
      let (id, a, h2, t2) =
        step-eq_ok (seed_for lib vault blockchain now kf file new_id (find_ledger all)) _ s1 h1 in
      let s2 : S = (seed_for lib vault blockchain now kf file new_id (find_ledger all) s1).1 in
      let (hd_path, parsed, h3, t3) = step-eq_ok (lift (parsed_path lib file.hd_path)) _ s2 h2 in
      let (there, wallets) =
        seed_prepared kf file new_id (find_ledger all) s1 id
          (λ seed found. (
            ap (λ v. v seed.id) same
                ∙ found_ledger (IsStored (λ s. s.id) (view_seeds s)) all seed stored found,
            found_is_ledger all seed found,
          ))
          a in
      let t : S = (add_hd lib vault blockchain now kf file new_id s).1 in
      entry_of-IsPrepared s t kf e (seed_hd (record { seed_id = id; hd_path = hd_path })) (cc)
        (subst (λ t. Seeded t kf id) (sym (t1 ∙ t2 ∙ t3)) there)
        (ap view_wallets (t1 ∙ t2 ∙ t3)
          ∙ wallets
          ∙ list_entries-same vault.seeds view_wallets laws.seeds_keep.list_keeps
              laws.seeds_keep.get_keeps cmp_seeds s)

  -- The addition of a wallet keeps what the entry refers to.
  source_kept :
      (kf : KeyFileV2) (key : PkType) (s t : S) {wallet : Wallet}
      → t ≡ (vault.wallets.add wallet s).1
      → Sourced s kf key
      → Sourced t kf key
  source_kept kf key s t {wallet} step h =
      subst (λ keys. HasSource lib canon_key canon_seed kf now keys (view_seeds t) key)
        (sym (ap view_keys step ∙ laws.wallets_keep_keys.add_keeps s wallet))
        (subst (λ seeds. HasSource lib canon_key canon_seed kf now (view_keys s) seeds key)
          (sym (ap view_seeds step ∙ laws.wallets_keep_seeds.add_keeps s wallet)) h)

  entry_for-IsPrepared :
      (kf : KeyFileV2) (new_id : Uuid) (crypto : CryptoTypeV2) (s : S) (e : WalletEntry)
      → kf.crypto ≡ crypto
      → (entry_for lib vault blockchain now kf new_id crypto s).0 ≡ ok e
      → IsPrepared s (entry_for lib vault blockchain now kf new_id crypto s).1 kf e
  entry_for-IsPrepared kf new_id (core file) s e is h = add_key-IsPrepared kf file new_id s e is h
  entry_for-IsPrepared kf new_id (hd_wallet file) s e is h = add_hd-IsPrepared kf file new_id s e h

  pub add_to_vault_ok :
      (kf : KeyFileV2) (new_id wallet_id id : Uuid) (s : S)
      → (add_to_vault lib vault blockchain now kf new_id wallet_id s).0 ≡ ok id
      → (id ≡ wallet_id)
        × (view_wallets s wallet_id ≡ none)
        × (key : PkType) × HasSource lib canon_key canon_seed kf now
            (view_keys (add_to_vault lib vault blockchain now kf new_id wallet_id s).1)
            (view_seeds (add_to_vault lib vault blockchain now kf new_id wallet_id s).1)
            key
        × (view_wallets (add_to_vault lib vault blockchain now kf new_id wallet_id s).1
            ≡ written (view_wallets s) wallet_id (
                canon_wallet (
                  wallet_of lib vault blockchain now kf
                    (entry_of lib vault blockchain now kf key)
                    wallet_id)))
  unfolding add_to_vault
  add_to_vault_ok kf new_id wallet_id id s h =
      let (e, made, h1, t1) =
        step-eq_ok (entry_for lib vault blockchain now kf new_id kf.crypto) _ s h in
      let prepared = entry_for-IsPrepared kf new_id kf.crypto s e refl made in
      let s1 : S = (entry_for lib vault blockchain now kf new_id kf.crypto s).1 in
      let wallet : Wallet = wallet_of lib vault blockchain now kf e wallet_id in
      let (new, a, h2, t2) = step-eq_ok (renamed (λ _. _) (vault.wallets.add wallet)) _ s1 h1 in
      let (_, fresh, now_holds) = laws.wallets_law.add_ok s1 wallet new (map_err-eq_ok _ _ a) in
      let t : S = (add_to_vault lib vault blockchain now kf new_id wallet_id s).1 in
      let same : view_wallets t ≡ written (view_wallets s) wallet_id (canon_wallet wallet) =
        ap view_wallets (t1 ∙ t2)
        ∙ now_holds
        ∙ ap (λ v. written v wallet_id (canon_wallet wallet)) prepared.wallets_same in
      (
        cc,
        ap (λ v. v wallet_id) (sym prepared.wallets_same) ∙ fresh,
        e.key,
        source_kept kf e.key s1 t (t1 ∙ t2) prepared.source,
        same
            ∙ ap
                (λ e.
                  written (view_wallets s) wallet_id
                    (canon_wallet (wallet_of lib vault blockchain now kf e wallet_id)))
                prepared.entry_is,
      )
