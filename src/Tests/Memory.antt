-- ===== src/Tests/Memory.antt =====
-- A storage in memory that keeps what the clients of a storage rely on. What it can hold is under
-- the identifiers that it lists.
use emerald_rs.Prelude.{
  ◌≡◌, refl, sym, ap, ◌∙◌, ◌==◌, ==_iff, if◌then◌else◌, Bool, true, Option, none, some, List,
  Result, ok, err, Bool-cases, inl, inr, arith,
}
use emerald_rs.Structs.{Uuid, VaultError, data_not_found, incorrect_id_error, filesystem_error}
use emerald_rs.Storage.Access.{Io, VaultAccess, IsVault, Keeps, written, removed}

module _ {S P : Type 0} (look : S → Uuid → Option P) (put : S → (Uuid → Option P) → S)
    (id_of : P → Uuid) (look-put : (s : S) (v : Uuid → Option P) → look (put s v) ≡ v) where
  abbrev pub got : Uuid → Option P → Result VaultError P
  got id none = err data_not_found
  got id (some p) = if id_of p == id then ok p else err incorrect_id_error

  abbrev pub added : P → Option P → Io S Uuid
  added p none s = (ok (id_of p), put s (written (look s) (id_of p) (some p)))
  added p (some q) s = (err (filesystem_error "Already exists"), s)

  abbrev pub updated : P → Option P → Io S Bool
  updated p none s = (err incorrect_id_error, s)
  updated p (some q) s = (ok true, put s (written (look s) (id_of p) (some p)))

  abbrev pub memory : List Uuid → VaultAccess S P
  memory ids = record {
    list = λ s. (ok ids, s);
    get = λ id s. (got id (look s id), s);
    add = λ p s. added p (look s (id_of p)) s;
    remove = λ id s. (ok true, put s (removed (look s) id));
    update = λ p s. updated p (look s (id_of p)) s;
  }

  got_ok : (id : Uuid) (o : Option P) (p : P) → got id o ≡ ok p → (o ≡ some p) × (id_of p ≡ id)
  got_ok id none p h = cc
  got_ok id (some q) p h = elim (Bool-cases (id_of q == id)) [
    | inl eq ↦
        let same : q ≡ p = ground arith in
        (ap some same, ap id_of (sym same) ∙ (==_iff (id_of q) id).0 eq)
    | inr ne ↦ absurd (ground arith)
  ]

  added_ok :
      (p : P) (o : Option P) (s : S) (id : Uuid)
      → (added p o s).0 ≡ ok id
      → (id ≡ id_of p) × (o ≡ none) × (look (added p o s).1 ≡ written (look s) (id_of p) (some p))
  added_ok p none s id h = (cc, refl, look-put s _)
  added_ok p (some q) s id h = cc

  updated_ok :
      (p : P) (o : Option P) (s : S) (b : Bool)
      → (updated p o s).0 ≡ ok b
      → (b ≡ true) × (look (updated p o s).1 ≡ written (look s) (id_of p) (some p))
  updated_ok p none s b h = cc
  updated_ok p (some q) s b h = (cc, look-put s _)

  pub memory-IsVault : (ids : List Uuid) → IsVault (memory ids) look id_of (λ p. some p)
  memory-IsVault ids = record {
    list_view = λ s. refl;
    get_view = λ s id. refl;
    get_ok = λ s id p h. got_ok id (look s id) p h;
    add_ok = λ s p id h. added_ok p (look s (id_of p)) s id h;
    update_ok = λ s p b h. updated_ok p (look s (id_of p)) s b h;
    remove_ok = λ s id b h. look-put s _;
  }

  module _ {Q : Type 0} (other : S → Uuid → Option Q)
      (other-put : (s : S) (v : Uuid → Option P) → other (put s v) ≡ other s) where
    added_keeps : (p : P) (o : Option P) (s : S) → other (added p o s).1 ≡ other s
    added_keeps p none s = other-put s _
    added_keeps p (some q) s = refl

    updated_keeps : (p : P) (o : Option P) (s : S) → other (updated p o s).1 ≡ other s
    updated_keeps p none s = refl
    updated_keeps p (some q) s = other-put s _

    pub memory-Keeps : (ids : List Uuid) → Keeps (memory ids) other
    memory-Keeps ids = record {
      list_keeps = λ s. refl;
      get_keeps = λ s id. refl;
      add_keeps = λ s p. added_keeps p (look s (id_of p)) s;
      update_keeps = λ s p. updated_keeps p (look s (id_of p)) s;
      remove_keeps = λ s id. other-put s _;
    }
