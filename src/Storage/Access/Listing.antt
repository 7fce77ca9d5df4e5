-- ===== src/Storage/Access/Listing.antt =====
-- What `list_entries` returns is stored, and it changes nothing.
use emerald_rs.Prelude.{
  ◌≡◌, refl, sym, ap, ◌∙◌, Option, some, List, [], ◌∷◌, ok, All, Ordering, Result-cases, inl, inr,
}
use emerald_rs.Structs.{Uuid}
use emerald_rs.Storage.Access.{VaultAccess, IsVault, get_each, insert_by, sort_by, list_entries}

module _ {P : Type 0} (cmp : P → P → Ordering) (Q : P → Type 0) where
  insert_by-All : (p : P) (ps : List P) → Q p → All Q ps → All Q (insert_by cmp p ps)
  unfolding insert_by
  insert_by-All p [] h k = (h, tt)
  insert_by-All p (q ∷ qs) h k = go (cmp p q) refl (insert_by-All p qs h k.1)
    where
      go :
          (o : Ordering)
          → cmp p q ≡ o
          → All Q (insert_by cmp p qs)
          → All Q (insert_by cmp p (q ∷ qs))
      go Ordering.gt e rest = rw (insert_by, e) (k.0, rest)
      go Ordering.lt e rest = rw (insert_by, e) (h, k)
      go Ordering.eq e rest = rw (insert_by, e) (h, k)

  sort_by-All : (ps : List P) → All Q ps → All Q (sort_by cmp ps)
  unfolding sort_by
  sort_by-All [] h = tt
  sort_by-All (p ∷ ps) h = insert_by-All p (sort_by cmp ps) h.0 (sort_by-All ps h.1)

-- The item is what its identifier holds.
abbrev pub IsStored : {P : Type 0} → (P → Uuid) → (Uuid → Option P) → P → Type 0
IsStored id_of held p = held (id_of p) ≡ some p

module _ {S P : Type 0} (a : VaultAccess S P) (view : S → Uuid → Option P) (id_of : P → Uuid)
    (canon : P → Option P) (law : IsVault a view id_of canon) where
  get_each-IsStored :
      (ids : List Uuid) (s : S) (held : Uuid → Option P)
      → view s ≡ held
      → All (IsStored id_of held) (get_each a ids s).0 × (view (get_each a ids s).1 ≡ held)
  unfolding get_each
  get_each-IsStored [] s held h = (tt, h)
  get_each-IsStored (id ∷ ids) s held h =
      let (rest, same) = get_each-IsStored ids (a.get id s).1 held (law.get_view s id ∙ h) in
      elim (Result-cases (a.get id s).0) [
        | inl (p, got) ↦
            let (stored, named) = law.get_ok s id p got in
            rw got ((ap (λ v. v (id_of p)) (sym h) ∙ ap (view s) named ∙ stored, rest), same)
        | inr (e, failed) ↦ rw failed (rest, same)
      ]

  pub list_entries-IsStored :
      (cmp : P → P → Ordering) (s : S) (all : List P)
      → (list_entries a cmp s).0 ≡ ok all
      → All (IsStored id_of (view s)) all × (view (list_entries a cmp s).1 ≡ view s)
  unfolding list_entries
  list_entries-IsStored cmp s all h = elim (Result-cases (a.list s).0) [
    | inr (e, failed) ↦ absurd (cc (rw failed at h))
    | inl (ids, listed) ↦
        let (stored, same) = get_each-IsStored ids (a.list s).1 (view s) (law.list_view s) in
        let sorted : sort_by cmp (get_each a ids (a.list s).1).0 ≡ all = cc (rw listed at h) in
        (
          rw (← sorted)
              (sort_by-All cmp (IsStored id_of (view s)) (get_each a ids (a.list s).1).0 stored),
          rw listed same,
        )
  ]
