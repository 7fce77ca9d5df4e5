-- ===== src/Structs/Wallets.antt =====
-- Entries of a wallet: the identifiers that `next_entry_id` gives out are new.
use emerald_rs.Prelude.{
  ℕ, ◌^◌, ◌-◌, ◌≤◌, ◌<◌, ◌≡◌, ◌≢◌, refl, ◌↔◌, List, [], ◌∷◌, Option, none, some, All, All-map, max,
  ltb, tests, Option-cases, ◌∙◌, Bool-cases, inl, inr, arith, ok, err,
}
use emerald_rs.Structs.{
  Wallet, WalletEntry, data_not_found, find_entry, get_entry, max_id, seq_after, next_entry_id,
}

-- No entry of the list has this identifier.
abbrev pub IsUnused : ℕ → List WalletEntry → Type 0
IsUnused id es = All (λ e. e.id ≢ id) es

abbrev pub Below : ℕ → List WalletEntry → Type 0
Below n es = All (λ e. e.id < n) es

pub Below-mono : {n m : ℕ} (es : List WalletEntry) → n ≤ m → Below n es → Below m es
Below-mono {n} {m} es h = All-map (λ e. e.id < n) (λ e. e.id < m) (λ e p. omega arith) es

-- Identifiers after which there is one more in `usize`.
abbrev pub AreSmall : List WalletEntry → Type 0
AreSmall es = Below (2 ^ 64 - 1) es

abbrev IsMaxSmall : Option ℕ → Type 0
IsMaxSmall none = Unit {0}
IsMaxSmall (some m) = m < 2 ^ 64 - 1

pub Below-max_id :
    (es : List WalletEntry)
    → AreSmall es
    → Below (seq_after (max_id es)) es × IsMaxSmall (max_id es)
unfolding max_id
Below-max_id [] h = (tt, tt)
Below-max_id (e ∷ es) (small, h) = go (max_id es) (Below-max_id es h)
  where
    go :
        (o : Option ℕ)
        → Below (seq_after o) es × IsMaxSmall o
        → Below (seq_after (elim o [ none ↦ some e.id | some m ↦ some (max e.id m) ])) (e ∷ es)
          × IsMaxSmall (elim o [ none ↦ some e.id | some m ↦ some (max e.id m) ])
    go none (b, h) = ((omega arith, Below-mono es (omega arith) b), small)
    go (some m) (b, h) = ((omega arith, Below-mono es (omega arith) b), omega arith)

-- In a wallet whose identifiers have a next one in `usize`, the next identifier is above that of every
-- entry, and it is not below the stored sequence.
pub next_entry_id_lem :
    (w : Wallet)
    → AreSmall w.entries
    → Below (next_entry_id w) w.entries × (w.entry_seq ≤ next_entry_id w)
unfolding next_entry_id
next_entry_id_lem w small =
    let (below, _) = Below-max_id w.entries small in
    elim (Bool-cases (ltb (seq_after (max_id w.entries)) w.entry_seq)) [
      | inl lt ↦ rw lt (Below-mono w.entries (omega tests) below, omega arith)
      | inr ge ↦ rw ge (below, ground arith)
    ]

pub Below-IsUnused : (n : ℕ) (es : List WalletEntry) → Below n es → IsUnused n es
Below-IsUnused n es = All-map (λ e. e.id < n) (λ e. e.id ≢ n) (λ e h. omega arith) es

find_entry-none : (id : ℕ) (es : List WalletEntry) → find_entry id es ≡ none → IsUnused id es
unfolding find_entry
find_entry-none id [] h = tt
find_entry-none id (e ∷ es) h = ground (arith, find_entry-none id es)

find_entry-id :
    (id : ℕ) (es : List WalletEntry) (e : WalletEntry) → find_entry id es ≡ some e → e.id ≡ id
unfolding find_entry
find_entry-id id [] e h = cc
find_entry-id id (d ∷ es) e h = ground (arith, find_entry-id id es e)

find_entry-used :
    (id : ℕ) (es : List WalletEntry) (e : WalletEntry)
    → find_entry id es ≡ some e
    → ¬ IsUnused id es
unfolding find_entry
find_entry-used id [] e h u = cc
find_entry-used id (d ∷ es) e h u = ground (arith, find_entry-used id es e)

-- `get_entry` fails exactly when no entry has the identifier.
pub get_entry-missing :
    (w : Wallet) (id : ℕ) → (get_entry w id ≡ err data_not_found) ↔ IsUnused id w.entries
unfolding get_entry
get_entry-missing w id = go (find_entry id w.entries) refl
  where
    go :
        (o : Option WalletEntry)
        → find_entry id w.entries ≡ o
        → (get_entry w id ≡ err data_not_found) ↔ IsUnused id w.entries
    go none f = rw (get_entry, f) (λ _. find_entry-none id w.entries f, λ _. refl)
    go (some e) f = rw (get_entry, f) (λ h. cc, λ u. absurd (find_entry-used id w.entries e f u))

-- What `get_entry` returns has the identifier.
pub get_entry-id : (w : Wallet) (id : ℕ) (e : WalletEntry) → get_entry w id ≡ ok e → e.id ≡ id
unfolding get_entry
get_entry-id w id e h = elim (Option-cases (find_entry id w.entries)) [
  | inl out ↦ absurd (cc (rw (get_entry, out) at h))
  | inr (d, found) ↦ find_entry-id id w.entries e (found ∙ cc (rw (get_entry, found) at h))
]
