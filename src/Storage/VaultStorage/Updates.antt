-- ===== src/Storage/VaultStorage/Updates.antt =====
-- `UpdateEntry`: what a change of an entry leaves in the storage when it succeeds.
use emerald_rs.Prelude.{
  ℕ, ◌==◌, ◌≡◌, refl, ap, ap₂, subst, ◌∙◌, true, false, Option, none, some, List, [], ◌∷◌, map, ok,
  arith, inl, inr, Bool-cases, Option-cases, if◌then◌else◌, ==_iff,
}
use emerald_rs.Structs.{Uuid, Wallet, WalletEntry}
use emerald_rs.Structs.Wallets.{IsUnused}
use emerald_rs.Storage.Access.{IsVault, written, bind-eq_ok}
use emerald_rs.Storage.AddEntry.Ids.{HasUniqueIds}
use emerald_rs.Storage.VaultStorage.{
  UpdateEntry, modify_first, with_entries, store_modified, update,
}

modify_first-none :
    (id : ℕ) (f : WalletEntry → WalletEntry) (es : List WalletEntry)
    → modify_first id f es ≡ none
    → IsUnused id es
unfolding modify_first
modify_first-none id f [] h = tt
modify_first-none id f (e ∷ es) h = elim (Option-cases (modify_first id f es)) [
  | inl out ↦ ground (arith, out, modify_first-none id f es out)
  | inr (d, found) ↦ absurd (ground (arith, found))
]

-- `f` on the entry with the identifier
abbrev pub change : ℕ → (WalletEntry → WalletEntry) → WalletEntry → WalletEntry
change id f e = if e.id == id then f e else e

map-unused :
    (id : ℕ) (f : WalletEntry → WalletEntry) (es : List WalletEntry)
    → IsUnused id es
    → map (change id f) es ≡ es
map-unused id f [] u = refl
map-unused id f (e ∷ es) (ne, u) = ground (arith, ne, map-unused id f es u)

-- Where the identifiers differ, the change hits the entry with the identifier and no other.
modify_first_unique :
    (id : ℕ) (f : WalletEntry → WalletEntry) (es es' : List WalletEntry)
    → HasUniqueIds es
    → modify_first id f es ≡ some es'
    → es' ≡ map (change id f) es
unfolding modify_first
modify_first_unique id f [] es' u h = cc
modify_first_unique id f (e ∷ es) es' u h = elim (Bool-cases (e.id == id)) [
  | inl eq ↦
      let same : e.id ≡ id = (==_iff e.id id).0 eq in
      let unused : IsUnused id es = subst (λ i. IsUnused i es) same u.0 in
      grind (arith, h, eq, map-unused id f es unused)
  | inr ne ↦ elim (Option-cases (modify_first id f es)) [
    | inl out ↦ absurd (grind (arith, h, ne, out))
    | inr (d, found) ↦ grind (arith, h, ne, found, modify_first_unique id f es d u.1 found)
  ]
]

modify_first-used :
    (id : ℕ) (f : WalletEntry → WalletEntry) (es es' : List WalletEntry)
    → modify_first id f es ≡ some es'
    → ¬ IsUnused id es
unfolding modify_first
modify_first-used id f [] es' h u = cc
modify_first-used id f (e ∷ es) es' h (ne, u) = elim (Option-cases (modify_first id f es)) [
  | inl out ↦ ground (arith, h, out, ne)
  | inr (d, found) ↦ modify_first-used id f es d found u
]

module _ {S : Type 0} (self : UpdateEntry S) (view : S → Uuid → Option Wallet)
    (canon : Wallet → Option Wallet) (law : IsVault self.wallets view (λ w. w.id) canon) where
  stored_true :
      (w : Wallet) (s : S) (o : Option (List WalletEntry))
      → (store_modified self w o s).0 ≡ ok true
      → (es : List WalletEntry) × (o ≡ some es)
        × (view (store_modified self w o s).1 ≡ written (view s) w.id (canon (with_entries w es)))
  stored_true w s none h = cc
  stored_true w s (some es) h = (es, refl, (law.update_ok s (with_entries w es) true h).1)

  stored_false :
      (w : Wallet) (s : S) (o : Option (List WalletEntry))
      → (store_modified self w o s).0 ≡ ok false
      → (o ≡ none) × (view (store_modified self w o s).1 ≡ view s)
  stored_false w s none h = (refl, refl)
  stored_false w s (some es) h =
      absurd (grind (arith, (law.update_ok s (with_entries w es) false h).0))

  -- If the identifiers of the stored wallet differ and an update says `true`, the wallet was there with
  -- an entry of that identifier, and what it now holds is that wallet with the change made to this
  -- entry and to no other one. No other wallet changes.
  pub update_true :
      (f : WalletEntry → WalletEntry) (s : S)
      → ((w : Wallet) → view s self.wallet_id ≡ some w → HasUniqueIds w.entries)
      → (update self f s).0 ≡ ok true
      → (w : Wallet) × (view s self.wallet_id ≡ some w)
        × (¬ IsUnused self.entry_id w.entries)
        × (view (update self f s).1
            ≡ written
                (view s)
                self.wallet_id
                (canon (with_entries w (map (change self.entry_id f) w.entries))))
  unfolding update
  update_true f s unique h =
      let (w, got, next, st) = bind-eq_ok (self.wallets.get self.wallet_id) _ s h in
      let (seen, id_eq) = law.get_ok s self.wallet_id w got in
      let s1 : S = (self.wallets.get self.wallet_id s).1 in
      let (es, found, vs) = stored_true w s1 (modify_first self.entry_id f w.entries) next in
      let changed = modify_first_unique self.entry_id f w.entries es (unique w seen) found in
      (
        w,
        seen,
        modify_first-used self.entry_id f w.entries es found,
        ap view st
            ∙ vs
            ∙ ap₂ (λ v i. written v i (canon (with_entries w es))) (law.get_view s self.wallet_id)
                id_eq
            ∙ ap (λ l. written (view s) self.wallet_id (canon (with_entries w l))) changed,
      )

  -- When an update says `false`, the wallet was there without an entry of that identifier, and no
  -- wallet has changed.
  pub update_false :
      (f : WalletEntry → WalletEntry) (s : S)
      → (update self f s).0 ≡ ok false
      → (w : Wallet) × (view s self.wallet_id ≡ some w)
        × IsUnused self.entry_id w.entries
        × (view (update self f s).1 ≡ view s)
  unfolding update
  update_false f s h =
      let (w, got, next, st) = bind-eq_ok (self.wallets.get self.wallet_id) _ s h in
      let s1 : S = (self.wallets.get self.wallet_id s).1 in
      let (out, vs) = stored_false w s1 (modify_first self.entry_id f w.entries) next in
      (
        w,
        (law.get_ok s self.wallet_id w got).0,
        modify_first-none self.entry_id f w.entries out,
        ap view st ∙ vs ∙ law.get_view s self.wallet_id,
      )
