-- ===== src/Storage/VaultStorage/Files.antt =====
-- `VaultStorage::get_wallet_files`: which keys belong to a wallet alone.
use emerald_rs.Prelude.{
  ◌==◌, ◌≡◌, refl, ap, true, not, ◌&&◌, List, [], ◌∷◌, any, Bool-cases, inl, inr, arith, ==_iff,
}
use emerald_rs.Structs.{Uuid}
use emerald_rs.Storage.VaultStorage.{exclusive_refs}

-- The keys that `exclusive_only` leaves are those of the wallet that no other wallet refers to.
pub exclusive_refs_lem :
    (pk : Uuid) (others pks : List Uuid)
    → any (λ x. x == pk) (exclusive_refs true others pks)
      ≡ any (λ x. x == pk) pks && not (any (λ x. x == pk) others)
unfolding exclusive_refs
exclusive_refs_lem pk others [] = refl
exclusive_refs_lem pk others (q ∷ pks) = elim (Bool-cases (q == pk)) [
  | inl eq ↦
      let same : q ≡ pk = (==_iff q pk).0 eq in
      let used : any (λ x. x == q) others ≡ any (λ x. x == pk) others =
        ap (λ i. any (λ x. x == i) others) same in
      elim (Bool-cases (any (λ x. x == pk) others)) [
        | inl yes' ↦ ground (arith, eq, used, yes', exclusive_refs_lem pk others pks)
        | inr no' ↦ ground (arith, eq, used, no', exclusive_refs_lem pk others pks)
      ]
  | inr ne ↦ elim (Bool-cases (any (λ x. x == q) others)) [
    | inl yes' ↦ rw (yes', ne) (exclusive_refs_lem pk others pks)
    | inr no' ↦ rw (no', ne) (exclusive_refs_lem pk others pks)
  ]
]
