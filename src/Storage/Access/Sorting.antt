-- ===== src/Storage/Access/Sorting.antt =====
-- The order in which `list_entries` returns items.
use emerald_rs.Prelude.{◌≡◌, ◌≢◌, refl, sym, subst, List, [], ◌∷◌, ok, Ordering}
use emerald_rs.Storage.Access.{VaultAccess, bind-eq_ok, get_each, insert_by, sort_by, list_entries}

module _ {P : Type 0} (cmp : P → P → Ordering) where
  -- No item is greater than the next one.
  abbrev pub IsSorted : List P → Type 0
  IsSorted [] = Unit {0}
  IsSorted (p ∷ []) = Unit {0}
  IsSorted (p ∷ q ∷ qs) = (cmp p q ≢ Ordering.gt) × IsSorted (q ∷ qs)

  module _ (turns : (p q : P) → cmp p q ≡ Ordering.gt → cmp q p ≢ Ordering.gt) where
    eq_le : (p q : P) → cmp p q ≡ Ordering.eq → cmp p q ≢ Ordering.gt
    eq_le p q e g = cc

    lt_le : (p q : P) → cmp p q ≡ Ordering.lt → cmp p q ≢ Ordering.gt
    lt_le p q e g = cc

    -- `rest` is what the recursive call makes of the tail.
    place :
        (q p r : P) (rs : List P)
        → cmp q p ≢ Ordering.gt
        → IsSorted (q ∷ r ∷ rs)
        → (cmp p r ≡ Ordering.gt → IsSorted (r ∷ insert_by cmp p rs))
        → (o : Ordering) → cmp p r ≡ o
        → IsSorted (q ∷ insert_by cmp p (r ∷ rs))
    unfolding insert_by
    place q p r rs le h rest Ordering.gt e =
        let same : insert_by cmp p (r ∷ rs) ≡ r ∷ insert_by cmp p rs = rw (insert_by, e) refl in
        subst (λ l. IsSorted (q ∷ l)) (sym same) (h.0, rest e)
    place q p r rs le h rest Ordering.eq e =
        let same : insert_by cmp p (r ∷ rs) ≡ p ∷ r ∷ rs = rw (insert_by, e) refl in
        subst (λ l. IsSorted (q ∷ l)) (sym same) (le, (eq_le p r e, h.1))
    place q p r rs le h rest Ordering.lt e =
        let same : insert_by cmp p (r ∷ rs) ≡ p ∷ r ∷ rs = rw (insert_by, e) refl in
        subst (λ l. IsSorted (q ∷ l)) (sym same) (le, (lt_le p r e, h.1))

    insert_after :
        (q p : P) (rs : List P)
        → cmp q p ≢ Ordering.gt
        → IsSorted (q ∷ rs)
        → IsSorted (q ∷ insert_by cmp p rs)
    unfolding insert_by
    insert_after q p [] le h = (le, tt)
    insert_after q p (r ∷ rs) le h =
        place q p r rs le h (λ e. insert_after r p rs (turns p r e) h.1) (cmp p r) refl

    first :
        (p q : P) (qs : List P)
        → IsSorted (q ∷ qs)
        → (o : Ordering) → cmp p q ≡ o
        → IsSorted (insert_by cmp p (q ∷ qs))
    unfolding insert_by
    first p q qs h Ordering.gt e =
        let same : insert_by cmp p (q ∷ qs) ≡ q ∷ insert_by cmp p qs = rw (insert_by, e) refl in
        subst IsSorted (sym same) (insert_after q p qs (turns p q e) h)
    first p q qs h Ordering.eq e =
        let same : insert_by cmp p (q ∷ qs) ≡ p ∷ q ∷ qs = rw (insert_by, e) refl in
        subst IsSorted (sym same) (eq_le p q e, h)
    first p q qs h Ordering.lt e =
        let same : insert_by cmp p (q ∷ qs) ≡ p ∷ q ∷ qs = rw (insert_by, e) refl in
        subst IsSorted (sym same) (lt_le p q e, h)

    insert_by-IsSorted : (p : P) (qs : List P) → IsSorted qs → IsSorted (insert_by cmp p qs)
    unfolding insert_by
    insert_by-IsSorted p [] h = tt
    insert_by-IsSorted p (q ∷ qs) h = first p q qs h (cmp p q) refl

    sort_by-IsSorted : (ps : List P) → IsSorted (sort_by cmp ps)
    unfolding sort_by
    sort_by-IsSorted [] = tt
    sort_by-IsSorted (p ∷ ps) = insert_by-IsSorted p (sort_by cmp ps) (sort_by-IsSorted ps)

    -- What `list_entries` returns is sorted, if no two items are each greater than the other.
    pub list_entries-IsSorted :
        {S : Type 0} (a : VaultAccess S P) (s : S) (ps : List P)
        → (list_entries a cmp s).0 ≡ ok ps
        → IsSorted ps
    unfolding list_entries
    list_entries-IsSorted a s ps h =
        let (ids, _, h1, _) = bind-eq_ok a.list _ s h in
        let all : List P = (get_each a ids (a.list s).1).0 in
        let same : sort_by cmp all ≡ ps = cc in subst IsSorted same (sort_by-IsSorted all)
