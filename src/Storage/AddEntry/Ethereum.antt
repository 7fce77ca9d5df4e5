-- ===== src/Storage/AddEntry/Ethereum.antt =====
-- What the operations of `AddEthereumEntry` leave in the storages when they succeed, and which
-- requests they refuse.
use mathlib.Core.Option
use emerald_rs.Prelude.{ℕ, ◌≡◌, Option, some}
use emerald_rs.Structs.{Uuid, PrivateKeyHolder, Wallet, WalletEntry, next_entry_id}
use emerald_rs.Storage.Access.{Io, IsVault, Keeps, written, pure, ◌>>=◌}
use emerald_rs.Storage.AddEntry.{AddEthereumEntry, push_entry}

module _ {S : Type 0} (self : AddEthereumEntry S) (view_wallets : S → Uuid → Option Wallet)
    (view_keys : S → Uuid → Option PrivateKeyHolder) (canon_wallet : Wallet → Option Wallet)
    (canon_key : PrivateKeyHolder → Option PrivateKeyHolder)
    (wallets_law : IsVault self.wallets view_wallets (λ w. w.id) canon_wallet)
    (keys_law : IsVault self.keys view_keys (λ k. k.id) canon_key)
    (wallets_keep : Keeps self.wallets view_keys) (keys_keep : Keeps self.keys view_wallets) where
  -- The last two steps of each operation: the wallet is stored with one more entry.
  abbrev finish : Wallet → WalletEntry → Io S ℕ
  finish w e = self.wallets.update (push_entry w e) >>= λ _. pure e.id

  -- The entry `e` was added to the stored wallet under the next identifier, and `id` is that.
  abbrev pub Added : S → S → Wallet → WalletEntry → ℕ → Type 0
  Added s t w e id =
      (view_wallets s self.wallet_id ≡ some w)
      × (e.id ≡ next_entry_id w)
      × (id ≡ e.id)
      × (view_wallets t ≡ written (view_wallets s) self.wallet_id (canon_wallet (push_entry w e)))
