-- ===== src/Tests/Vault.antt =====
-- The theorems on a vault at a vault in memory with one wallet and one key.
use mathlib.Core.Option
use emerald_rs.Prelude.{
  ◌^◌, ◌-◌, ◌*◌, suc, ℕ, ◌<◌, ◌≡◌, ◌≢◌, refl, subst, ◌==◌, if◌then◌else◌, true, false, Option, none,
  some, [], ◌∷◌, ok, err, arith, Ordering,
}
use emerald_rs.Chains.{Blockchain}
use emerald_rs.Structs.{
  Uuid, PrivateKeyHolder, ethereum_pk, aes128_ctr, web3, scrypt, Wallet, WalletEntry,
  private_key_ref, next_entry_id, max_id, Seed, data_not_found, incorrect_id_error, cmp_by_date_id,
}
use emerald_rs.Structs.Wallets.{IsUnused}
use emerald_rs.Crypto.{create_with_salt}
use emerald_rs.Storage.Access.{VaultAccess, list_entries}
use emerald_rs.Storage.AddEntry.{AddEthereumEntry, EthereumJson, push_entry}
use emerald_rs.Storage.AddEntry.Ids.{HasUniqueIds, IsWellFormed, push_entry-IsWellFormed}
use emerald_rs.Storage.VaultStorage.{
  VaultStorage, UpdateEntry, update, set_entry_label, take_first, remove_entry, cmp_wallets,
}
use emerald_rs.Storage.Access.Sorting.{IsSorted, list_entries-IsSorted}
use emerald_rs.Structs.Order.{cmp_by_date_id_total}
use emerald_rs.Tests.Memory.{memory}

abbrev pub State : Type 0
State = (Uuid → Option Wallet) × (Uuid → Option PrivateKeyHolder)

abbrev wallets_of : State → Uuid → Option Wallet
wallets_of s = s.0

abbrev keys_of : State → Uuid → Option PrivateKeyHolder
keys_of s = s.1

abbrev put_wallets : State → (Uuid → Option Wallet) → State
put_wallets s v = (v, s.1)

abbrev put_keys : State → (Uuid → Option PrivateKeyHolder) → State
put_keys s v = (s.0, v)

abbrev wallets : VaultAccess State Wallet
wallets = memory wallets_of put_wallets (λ w. w.id) (λ s v. refl) (1 ∷ 2 ∷ [])

abbrev keys : VaultAccess State PrivateKeyHolder
keys = memory keys_of put_keys (λ k. k.id) (λ s v. refl) (5 ∷ 6 ∷ [])

-- A storage of seeds that holds none.
abbrev no_seeds : VaultAccess State Seed
no_seeds = record {
  list = λ s. (ok [], s);
  get = λ id s. (err data_not_found, s);
  add = λ p s. (err incorrect_id_error, s);
  remove = λ id s. (ok false, s);
  update = λ p s. (err incorrect_id_error, s);
}

abbrev entry_of : ℕ → WalletEntry
entry_of id = record {
  id = id;
  label = none;
  blockchain = Blockchain.ethereum;
  address = none;
  key = private_key_ref 5;
  receive_disabled = false;
  created_at = 1000;
}

abbrev stored_wallet : Wallet
stored_wallet = record {
  id = 1;
  label = none;
  entries = entry_of 0 ∷ entry_of 4 ∷ [];
  entry_seq = 3;
  reserved = [];
  created_at = 1000;
}

abbrev key_of : Uuid → PrivateKeyHolder
key_of id = record {
  id = id;
  pk = ethereum_pk (record {
    address = none;
    key = record {
      cipher = aes128_ctr (record { encrypted = 1 ∷ []; iv = 2 ∷ []; mac = web3 (3 ∷ []) });
      kdf = scrypt (create_with_salt (4 ∷ []));
    };
  });
  created_at = 1000;
}

abbrev start : State
start = (
  λ id. if id == 1 then some stored_wallet else none,
  λ id. if id == 5 then some (key_of 5) else none,
)

stored_HasUniqueIds : HasUniqueIds stored_wallet.entries
stored_HasUniqueIds = ((omega arith, tt), (tt, tt))

next_is_5 : 5 ≡ next_entry_id stored_wallet
unfolding next_entry_id max_id
next_is_5 = refl

next_is_small : next_entry_id stored_wallet < 2 ^ 64 - 1
unfolding next_entry_id max_id
next_is_small = omega arith

push_entry-IsWellFormed_example :
    IsWellFormed (push_entry stored_wallet (entry_of 5))
    × IsUnused 5 stored_wallet.entries
    × (next_entry_id stored_wallet < next_entry_id (push_entry stored_wallet (entry_of 5)))
push_entry-IsWellFormed_example =
    push_entry-IsWellFormed stored_wallet (entry_of 5) stored_HasUniqueIds
      (omega arith, (omega arith, tt)) next_is_small next_is_5

abbrev relabel : ℕ → UpdateEntry State
relabel entry_id = record { wallets = wallets; wallet_id = 1; entry_id = entry_id }

abbrev named : WalletEntry → WalletEntry
named = set_entry_label (some "savings")

named_4 : (update (relabel 4) named start).0 ≡ ok true
unfolding update
named_4 = refl

named_2 : (update (relabel 2) named start).0 ≡ ok false
unfolding update
named_2 = refl

unique_1 : (w : Wallet) → wallets_of start 1 ≡ some w → HasUniqueIds w.entries
unique_1 w h =
    let same : stored_wallet ≡ w = cc in
    subst (λ v. HasUniqueIds v.entries) same stored_HasUniqueIds

abbrev vault : VaultStorage State ℕ
vault = record {
  keys = keys;
  wallets = wallets;
  seeds = no_seeds;
  key_filename = λ id. 2 * id;
  wallet_filename = λ id. suc (2 * id);
}

abbrev one_entry : Wallet
one_entry = record stored_wallet { entries = entry_of 0 ∷ [] }

abbrev single : State
single = (
  λ id. if id == 1 then some one_entry else none,
  λ id. if id == 5 then some (key_of 5) else none,
)

-- The other entry of the wallet refers to the key, which is lost.
shared_key_lost : keys_of (remove_entry vault 1 0 start).1 5 ≡ none
unfolding remove_entry take_first list_entries
shared_key_lost = refl

removed_2 : (remove_entry vault 1 2 single).0 ≡ ok false
unfolding remove_entry take_first
removed_2 = refl

abbrev ethereum_entries : AddEthereumEntry State
ethereum_entries = record { keys = keys; seeds = no_seeds; wallets = wallets; wallet_id = 1 }

abbrev file : EthereumJson
file = record { name = some "imported"; address = none; holder = ok (key_of 0) }

cmp_wallets_turns : (a b : Wallet) → cmp_wallets a b ≡ Ordering.gt → cmp_wallets b a ≢ Ordering.gt
cmp_wallets_turns a b h k =
    let less = (cmp_by_date_id_total (b.id, b.created_at) (a.id, a.created_at)).0.1 h in cc

abbrev undated_wallet : Wallet
undated_wallet = record {
  id = 2;
  label = none;
  entries = [];
  entry_seq = 0;
  reserved = [];
  created_at = 100_000_000;
}

abbrev two : State
two = (
  λ id. if id == 1 then some stored_wallet else if id == 2 then some undated_wallet else none,
  λ id. none,
)

both : (list_entries wallets cmp_wallets two).0 ≡ ok (undated_wallet ∷ stored_wallet ∷ [])
unfolding list_entries cmp_by_date_id
both = refl

list_entries-IsSorted_example : IsSorted cmp_wallets (undated_wallet ∷ stored_wallet ∷ [])
list_entries-IsSorted_example =
    list_entries-IsSorted cmp_wallets cmp_wallets_turns wallets two
      (undated_wallet ∷ stored_wallet ∷ []) both
