-- ===== src/Storage/AddEntry/Ids.antt =====
-- Identifiers of entries: a well-formed wallet stays so when an entry is pushed.
use emerald_rs.Prelude.{◌+◌, ◌-◌, ◌%◌, ◌^◌, ◌<◌, ◌≡◌, ◌≢◌, List, [], ◌∷◌, ◌++◌, All-append, arith}
use emerald_rs.Structs.{Wallet, WalletEntry, next_entry_id}
use emerald_rs.Structs.Wallets.{
  AreSmall, Below, IsUnused, Below-mono, Below-IsUnused, next_entry_id_lem,
}
use emerald_rs.Storage.AddEntry.{push_entry}

-- No two entries have the same identifier.
abbrev pub HasUniqueIds : List WalletEntry → Type 0
HasUniqueIds [] = Unit {0}
HasUniqueIds (e ∷ es) = IsUnused e.id es × HasUniqueIds es

-- The identifiers differ, and lie below the stored sequence.
pub record IsWellFormed (w : Wallet) : Type 0 where
  pub unique : HasUniqueIds w.entries
  pub below : Below w.entry_seq w.entries

HasUniqueIds-push :
    (es : List WalletEntry) (e : WalletEntry)
    → HasUniqueIds es
    → IsUnused e.id es
    → HasUniqueIds (es ++ e ∷ [])
HasUniqueIds-push [] e h u = (tt, tt)
HasUniqueIds-push (d ∷ es) e (h, hs) (u, us) =
    (All-append (λ c. c.id ≢ d.id) es (e ∷ []) h (omega arith, tt), HasUniqueIds-push es e hs us)

-- In a wallet whose identifiers differ, a pushed entry with the next identifier has one that was not
-- used, and leaves a well-formed wallet whose next identifier is larger, if the identifiers and the next
-- one are not the last of `usize`.
pub push_entry-IsWellFormed :
    (w : Wallet) (e : WalletEntry)
    → HasUniqueIds w.entries
    → AreSmall w.entries
    → next_entry_id w < 2 ^ 64 - 1
    → e.id ≡ next_entry_id w
    → IsWellFormed (push_entry w e)
      × IsUnused e.id w.entries
      × (next_entry_id w < next_entry_id (push_entry w e))
push_entry-IsWellFormed w e unique small next_small fresh =
    let (below, _) = next_entry_id_lem w small in
    let below' : Below e.id w.entries = rw fresh below in
    let unused = Below-IsUnused e.id w.entries below' in
    let pushed_small : AreSmall (w.entries ++ e ∷ []) =
      All-append (λ c. c.id < 2 ^ 64 - 1) w.entries (e ∷ []) small (omega arith, tt) in
    (
      record {
        unique = HasUniqueIds-push w.entries e unique unused;
        below =
            All-append (λ c. c.id < (e.id + 1) % 2 ^ 64) w.entries (e ∷ [])
              (Below-mono w.entries (omega arith) below') (omega arith, tt);
      },
      unused,
      omega (arith, (next_entry_id_lem (push_entry w e) pushed_small).1),
    )
