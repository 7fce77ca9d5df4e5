-- ===== src/Storage/Access.antt =====
-- The trait `VaultAccess` of src/storage/vault.rs as an interface: the operations of a storage of
-- items over a state `S`, and what its clients rely on. An operation returns its result and the
-- state that it leaves, after an error too.
pub mod Sorting
pub mod Listing
use emerald_rs.Prelude.{
  ==_iff, Bool-cases, inl, inr, ℕ, ◌≡◌, ◌≢◌, refl, ◌∙◌, ◌==◌, if◌then◌else◌, Bool, true, false,
  Option, none, some, List, [], ◌∷◌, Result, ok, err, Ordering,
}
use emerald_rs.Structs.{Uuid, VaultError, Instant, cmp_by_date_id}

abbrev pub Io : Type 0 → Type 0 → Type 0
Io S A = S → Result VaultError A × S

module _ {S A : Type 0} where
  abbrev pub pure : A → Io S A
  pure a s = (ok a, s)

  abbrev pub fail : VaultError → Io S A
  fail e s = (err e, s)

  -- `result?` on a result that touches no state
  abbrev pub lift : Result VaultError A → Io S A
  lift r s = (r, s)

module _ {S A B : Type 0} where
  abbrev pub continue : Result VaultError A × S → (A → Io S B) → Result VaultError B × S
  continue (ok a, s) f = f a s
  continue (err e, s) f = (err e, s)

  infixl 5 ◌>>=◌ ◌>>◌
  abbrev pub ◌>>=◌ : Io S A → (A → Io S B) → Io S B
  ◌>>=◌ m f s = continue (m s) f

  abbrev pub ◌>>◌ : Io S A → Io S B → Io S B
  m >> k = m >>= λ _. k

  -- A block that succeeds ran its first step with success.
  pub bind-eq_ok :
      (m : Io S A) (f : A → Io S B) (s : S) {b : B}
      → ((m >>= f) s).0 ≡ ok b
      → (a : A) × ((m s).0 ≡ ok a) × ((f a (m s).1).0 ≡ ok b) × (((m >>= f) s).1 ≡ (f a (m s).1).1)
  bind-eq_ok m f s {b} h = go (m s) h
    where
      go :
          (r : Result VaultError A × S)
          → (continue r f).0 ≡ ok b
          → (a : A) × (r.0 ≡ ok a) × ((f a r.1).0 ≡ ok b) × ((continue r f).1 ≡ (f a r.1).1)
      go (ok a, t) h = (a, refl, h, refl)
      go (err e, t) h = cc

  -- What both steps of a block keep is kept by the block.
  pub bind-keeps :
      {C : Type 0} (m : Io S A) (f : A → Io S B) (view : S → C) (s : S)
      → view (m s).1 ≡ view s
      → ((a : A) → view (f a (m s).1).1 ≡ view (m s).1)
      → view ((m >>= f) s).1 ≡ view s
  bind-keeps m f view s first second = go (m s) first second
    where
      go :
          (r : Result VaultError A × S)
          → view r.1 ≡ view s
          → ((a : A) → view (f a r.1).1 ≡ view r.1)
          → view (continue r f).1 ≡ view s
      go (ok a, t) h k = k a ∙ h
      go (err e, t) h k = h

-- `trait VaultAccess<P>`
pub record VaultAccess (S P : Type 0) : Type 0 where
  pub list : Io S (List Uuid)
  pub get : Uuid → Io S P
  pub add : P → Io S Uuid
  pub remove : Uuid → Io S Bool
  pub update : P → Io S Bool

-- What the identifiers hold after a write that leaves `o` under `id`, and after its removal.
abbrev pub written : {P : Type 0} → (Uuid → Option P) → Uuid → Option P → Uuid → Option P
written view id o j = if id == j then o else view j

abbrev pub removed : {P : Type 0} → (Uuid → Option P) → Uuid → Uuid → Option P
removed view id j = if id == j then none else view j

pub written_same :
    {P : Type 0} (view : Uuid → Option P) (id : Uuid) (o : Option P) → written view id o id ≡ o
written_same view id o = rw ((==_iff id id).1 refl) refl

pub written_other :
    {P : Type 0} (view : Uuid → Option P) (id j : Uuid) (o : Option P)
    → id ≢ j
    → written view id o j ≡ view j
written_other view id j o apart = elim (Bool-cases (id == j)) [
  | inl same ↦ absurd (apart ((==_iff id j).0 same))
  | inr other ↦ rw other refl
]

-- What the clients of a storage rely on. `view` is what each identifier holds, `canon p` what reads
-- back of a stored `p`, which is `none` if it cannot be read. Nothing is promised of a failed write.
pub record IsVault {S P : Type 0} (a : VaultAccess S P) (view : S → Uuid → Option P)
    (id_of : P → Uuid) (canon : P → Option P) : Type 0 where
  pub list_view : (s : S) → view (a.list s).1 ≡ view s
  pub get_view : (s : S) (id : Uuid) → view (a.get id s).1 ≡ view s
  pub get_ok :
      (s : S) (id : Uuid) (p : P) → (a.get id s).0 ≡ ok p → (view s id ≡ some p) × (id_of p ≡ id)
  pub add_ok :
      (s : S) (p : P) (id : Uuid)
      → (a.add p s).0 ≡ ok id
      → (id ≡ id_of p)
        × (view s (id_of p) ≡ none)
        × (view (a.add p s).1 ≡ written (view s) (id_of p) (canon p))
  pub update_ok :
      (s : S) (p : P) (b : Bool)
      → (a.update p s).0 ≡ ok b
      → (b ≡ true) × (view (a.update p s).1 ≡ written (view s) (id_of p) (canon p))
  pub remove_ok :
      (s : S) (id : Uuid) (b : Bool)
      → (a.remove id s).0 ≡ ok b
      → view (a.remove id s).1 ≡ removed (view s) id

-- The operations of a storage leave alone what another one holds.
pub record Keeps {S P Q : Type 0} (a : VaultAccess S P) (other : S → Uuid → Option Q) : Type 0 where
  pub list_keeps : (s : S) → other (a.list s).1 ≡ other s
  pub get_keeps : (s : S) (id : Uuid) → other (a.get id s).1 ≡ other s
  pub add_keeps : (s : S) (p : P) → other (a.add p s).1 ≡ other s
  pub update_keeps : (s : S) (p : P) → other (a.update p s).1 ≡ other s
  pub remove_keeps : (s : S) (id : Uuid) → other (a.remove id s).1 ≡ other s

module _ {S P : Type 0} (a : VaultAccess S P) where
  -- `filter(|it| it.is_ok()).map(|it| it.unwrap())`, one item at a time
  abbrev cons_ok : Result VaultError P → List P → List P
  cons_ok (ok p) ps = p ∷ ps
  cons_ok (err e) ps = ps

  unfoldable pub get_each : List Uuid → S → List P × S
  get_each [] s = ([], s)
  get_each (id ∷ ids) s =
      let (r, s') = a.get id s in let (ps, s'') = get_each ids s' in (cons_ok r ps, s'')

-- `all.sort()`, by the order of the items
unfoldable pub insert_by : {P : Type 0} → (P → P → Ordering) → P → List P → List P
insert_by cmp p [] = p ∷ []
insert_by cmp p (q ∷ qs) = elim (cmp p q) [ Ordering.gt ↦ q ∷ insert_by cmp p qs | _ ↦ p ∷ q ∷ qs ]

unfoldable pub sort_by : {P : Type 0} → (P → P → Ordering) → List P → List P
unfolding insert_by
sort_by cmp [] = []
sort_by cmp (p ∷ ps) = insert_by cmp p (sort_by cmp ps)

-- The provided method `list_entries`: what cannot be read is left out.
unfoldable pub list_entries : {S P : Type 0} → VaultAccess S P → (P → P → Ordering) → Io S (List P)
unfolding get_each sort_by
list_entries a cmp = do
  ids ← a.list
  all ← λ s. let (ps, s') = get_each a ids s in (ok ps, s')
  pure (sort_by cmp all)
