-- ===== src/Storage/VaultStorage/Removal.antt =====
-- `VaultStorage::remove_entry`: what it leaves in the storages when it succeeds.
use emerald_rs.Prelude.{
  ℕ, ◌≡◌, refl, sym, ap, ◌∙◌, Bool, true, false, Option, none, some, List, [], ◌∷◌, Result, ok, err,
  arith, ◌⊎◌, inl, inr, Option-cases, if◌then◌else◌, Ordering,
}
use emerald_rs.Structs.{
  Uuid, VaultError, PrivateKeyHolder, PkType, private_key_ref, seed_hd, Wallet, WalletEntry,
}
use emerald_rs.Structs.Wallets.{IsUnused}
use emerald_rs.Storage.Access.{
  Io, VaultAccess, IsVault, Keeps, removed, bind-eq_ok, pure, continue, ◌>>=◌, ◌>>◌, get_each,
  list_entries, sort_by,
}
use emerald_rs.Storage.VaultStorage.{
  VaultStorage, take_first, with_entries, remove_entry, remove_found, drop_key, drop_unused,
  cmp_wallets, used_elsewhere,
}

take_first-none : (id : ℕ) (es : List WalletEntry) → take_first id es ≡ none → IsUnused id es
unfolding take_first
take_first-none id [] h = tt
take_first-none id (e ∷ es) h = elim (Option-cases (take_first id es)) [
  | inl out ↦ ground (arith, out, take_first-none id es out)
  | inr (d, found) ↦ absurd (ground (arith, found))
]

-- What neither `list` nor `get` changes, `list_entries` does not change.
module _ {S P V : Type 0} (a : VaultAccess S P) (view : S → V)
    (list_same : (s : S) → view (a.list s).1 ≡ view s)
    (get_same : (s : S) (id : Uuid) → view (a.get id s).1 ≡ view s) where
  get_each-same : (ids : List Uuid) (s : S) → view (get_each a ids s).1 ≡ view s
  unfolding get_each
  get_each-same [] s = refl
  get_each-same (id ∷ ids) s = get_each-same ids (a.get id s).1 ∙ get_same s id

  pub list_entries-same : (cmp : P → P → Ordering) (s : S) → view (list_entries a cmp s).1 ≡ view s
  unfolding list_entries
  list_entries-same cmp s = go (a.list s) refl
    where
      go :
          (r : Result VaultError (List Uuid) × S)
          → a.list s ≡ r
          → view
              (continue r (λ ids. (λ s. let (ps, s') = get_each a ids s in (ok ps, s')) >>= λ all.
                pure (sort_by cmp all))).1
            ≡ view s
      go (ok ids, t) eq = get_each-same ids t ∙ ap (λ r. view r.1) (sym eq) ∙ list_same s
      go (err e, t) eq = ap (λ r. view r.1) (sym eq) ∙ list_same s

module _ {S PathBuf : Type 0} (self : VaultStorage S PathBuf)
    (view_wallets : S → Uuid → Option Wallet) (view_keys : S → Uuid → Option PrivateKeyHolder)
    (canon_wallet : Wallet → Option Wallet) (canon_key : PrivateKeyHolder → Option PrivateKeyHolder)
    (wallets_law : IsVault self.wallets view_wallets (λ w. w.id) canon_wallet)
    (keys_law : IsVault self.keys view_keys (λ k. k.id) canon_key)
    (wallets_keep : Keeps self.wallets view_keys) (keys_keep : Keeps self.keys view_wallets) where
  -- The keys are as before, or lack the one that `key` refers to, if no wallet but this one that
  -- can be read refers to it.
  abbrev pub KeyDropped : S → S → Uuid → PkType → Type 0
  KeyDropped s t wallet_id key =
      (view_keys t ≡ view_keys s)
      ⊎ ((uuid : Uuid) × (all : List Wallet) × (key ≡ private_key_ref uuid)
          × ((list_entries self.wallets cmp_wallets s).0 ≡ ok all)
          × (used_elsewhere wallet_id uuid all ≡ false)
          × (view_keys t ≡ removed (view_keys s) uuid))

  abbrev drop_if : Uuid → Bool → Bool → Io S Bool
  drop_if uuid updated used = if used then pure updated else self.keys.remove uuid >> pure updated

  drop_if_lem :
      (uuid : Uuid) (updated b used : Bool) (s : S)
      → (drop_if uuid updated used s).0 ≡ ok b
      → (b ≡ updated)
        × (view_wallets (drop_if uuid updated used s).1 ≡ view_wallets s)
        × ((view_keys (drop_if uuid updated used s).1 ≡ view_keys s)
            ⊎ ((used ≡ false)
                × (view_keys (drop_if uuid updated used s).1 ≡ removed (view_keys s) uuid)))
  drop_if_lem uuid updated b true s h = (cc, refl, inl refl)
  drop_if_lem uuid updated b false s h =
      let (r, gone, end, st) = bind-eq_ok (self.keys.remove uuid) (λ _. pure updated) s h in
      (
        cc,
        ap view_wallets st ∙ keys_keep.remove_keeps s uuid,
        inr (refl, ap view_keys st ∙ keys_law.remove_ok s uuid r gone),
      )

  drop_key_lem :
      (wallet_id : Uuid) (key : PkType) (updated b : Bool) (s : S)
      → (drop_key self wallet_id key updated s).0 ≡ ok b
      → (b ≡ updated)
        × (view_wallets (drop_key self wallet_id key updated s).1 ≡ view_wallets s)
        × KeyDropped s (drop_key self wallet_id key updated s).1 wallet_id key
  unfolding drop_key drop_unused
  drop_key_lem wallet_id (seed_hd _) updated b s h = (cc, refl, inl refl)
  drop_key_lem wallet_id (private_key_ref uuid) updated b s h =
      let (all, read, next, st) = bind-eq_ok (list_entries self.wallets cmp_wallets) _ s h in
      let s1 : S = (list_entries self.wallets cmp_wallets s).1 in
      let used = used_elsewhere wallet_id uuid all in
      let (same, ws, ks) = drop_if_lem uuid updated b used s1 next in
      let ks1 : view_keys s1 ≡ view_keys s =
        list_entries-same self.wallets view_keys wallets_keep.list_keeps wallets_keep.get_keeps
          cmp_wallets s in
      let ws1 : view_wallets s1 ≡ view_wallets s =
        list_entries-same self.wallets view_wallets wallets_law.list_view wallets_law.get_view
          cmp_wallets s in
      (
        same,
        ap view_wallets st ∙ ws ∙ ws1,
        elim ks [
          | inl kept ↦ inl (ap view_keys st ∙ kept ∙ ks1)
          | inr (unused, gone) ↦
              inr (
                uuid,
                all,
                refl,
                read,
                unused,
                ap view_keys st ∙ gone ∙ ap (λ v. removed v uuid) ks1,
              )
        ],
      )

  found_none :
      (w : Wallet) (wallet_id : Uuid) (o : Option (WalletEntry × List WalletEntry)) (s : S)
      → (remove_found self w wallet_id o s).0 ≡ ok false
      → (o ≡ none) × ((remove_found self w wallet_id o s).1 ≡ s)
  unfolding remove_found
  found_none w wallet_id none s h = (refl, refl)
  found_none w wallet_id (some (e, rest)) s h =
      let w' = with_entries w rest in
      let (b, done, next, st) =
        bind-eq_ok (self.wallets.update w') (drop_key self wallet_id e.key) s h in
      let u : S = (self.wallets.update w' s).1 in
      let is_false : false ≡ b = (drop_key_lem wallet_id e.key b false u next).0 in
      let is_true : b ≡ true = (wallets_law.update_ok s w' b done).0 in cc

  -- When `remove_entry` says `false`, the wallet was there without an entry of that identifier, and
  -- neither a wallet nor a key has changed.
  pub remove_entry-false :
      (wallet_id : Uuid) (entry_id : ℕ) (s : S)
      → (remove_entry self wallet_id entry_id s).0 ≡ ok false
      → (w : Wallet) × (view_wallets s wallet_id ≡ some w)
        × IsUnused entry_id w.entries
        × (view_wallets (remove_entry self wallet_id entry_id s).1 ≡ view_wallets s)
        × (view_keys (remove_entry self wallet_id entry_id s).1 ≡ view_keys s)
  unfolding remove_entry
  remove_entry-false wallet_id entry_id s h =
      let (w, got, next, st) = bind-eq_ok (self.wallets.get wallet_id) _ s h in
      let s1 : S = (self.wallets.get wallet_id s).1 in
      let (out, same) = found_none w wallet_id (take_first entry_id w.entries) s1 next in
      (
        w,
        (wallets_law.get_ok s wallet_id w got).0,
        take_first-none entry_id w.entries out,
        ap view_wallets (st ∙ same) ∙ wallets_law.get_view s wallet_id,
        ap view_keys (st ∙ same) ∙ wallets_keep.get_keeps s wallet_id,
      )
