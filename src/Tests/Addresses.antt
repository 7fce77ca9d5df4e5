-- ===== src/Tests/Addresses.antt =====
-- The addresses of an account at concrete keys: a child key has its index in front of the parent's.
use emerald_rs.Prelude.{
  ℕ, ◌+◌, ◌^◌, ◌<◌, ◌≡◌, refl, arith, ltb, lt→ltb, if◌then◌else◌, Bool, true, false, Option, none,
  some, List, [], ◌∷◌, ok, All, Bytes_eq,
}
use emerald_rs.Chains.{Blockchain, Network}
use emerald_rs.Structs.{
  XPub, ExtendedPubKey, p2wpkh, extended_pub, witness, AccountHdPath, WalletEntry, seed_hd,
  account_hd,
}
use emerald_rs.Structs.Roles.{change}
use emerald_rs.Bitcoin.Addresses.{
  HdLib, Addresses, EntryAddress, bitcoin_addresses, is_account, for_type, get_address,
  get_addresses, addresses_of, range, find_path, find_loop,
}
use emerald_rs.Bitcoin.Addresses.Search.{path_at, number, for_branch, find_path_sound}
use emerald_rs.Bitcoin.Addresses.Entries.{IsFound, get_addresses-find_path}

abbrev child : ExtendedPubKey → ℕ → Option ExtendedPubKey
child key n =
    if ltb n (2 ^ 31)
    then some (record key { depth = key.depth + 1; public_key = n ∷ key.public_key })
    else none

child_index : (key next : ExtendedPubKey) (n : ℕ) → child key n ≡ some next → n < 2 ^ 31
child_index key next n h = ground arith

abbrev hd : HdLib
hd = record {
  child_pub = child;
  address_at = path_at;
  new_path =
      λ p c a ch i. record { purpose = p; coin_type = c; account = a; change = ch; index = i };
  child_pub_index = child_index;
  address_at_lem = λ account c i h k. refl;
  new_path_lem = λ p. refl;
}

abbrev addresses : Addresses (List ℕ)
addresses = bitcoin_addresses (λ key network. some key)

abbrev account_key : XPub
account_key = record {
  value = record {
    network = Network.bitcoin;
    depth = 3;
    parent_fingerprint = [];
    child_number = 0;
    chain_code = [];
    public_key = 9 ∷ [];
  };
  address_type = p2wpkh;
}

abbrev branch_key : ℕ → XPub
branch_key n = record account_key {
  value = record account_key.value { depth = 4; public_key = n ∷ 9 ∷ [] };
}

abbrev account : AccountHdPath
account = record { purpose = witness; coin_type = 0; account = 2 }

change_found :
    find_path hd addresses account_key account (2 ∷ 1 ∷ 9 ∷ []) 5
    ≡ some (some (path_at account 1 2))
unfolding find_path find_loop is_account for_type get_address
change_found = refl

find_path_sound_example :
    (b : Bool) × (key : XPub) × (i : ℕ) × (for_branch hd addresses b account_key ≡ ok key)
    × (i < 5)
    × (get_address hd addresses key i ≡ ok (2 ∷ 1 ∷ 9 ∷ []))
    × (path_at account 1 2 ≡ path_at account (number hd addresses b) i)
find_path_sound_example =
    find_path_sound hd addresses account_key account (2 ∷ 1 ∷ 9 ∷ []) 5 (path_at account 1 2)
      change_found

abbrev entry : WalletEntry
entry = record {
  id = 0;
  label = none;
  blockchain = Blockchain.bitcoin;
  address = some (extended_pub account_key);
  key = seed_hd (record {
    seed_id = 3;
    hd_path = record { purpose = witness; coin_type = 0; account = 2; change = 0; index = 0 };
  });
  receive_disabled = false;
  created_at = 1;
}

abbrev change_at : ℕ → EntryAddress (List ℕ)
change_at i = record {
  address = i ∷ 1 ∷ 9 ∷ [];
  hd_path = some (path_at account 1 i);
  role = change;
}

two_listed : get_addresses hd addresses entry change 3 2 ≡ ok (change_at 3 ∷ change_at 4 ∷ [])
unfolding get_addresses range addresses_of is_account for_type get_address account_hd
two_listed = refl

entry_account : account_hd entry ≡ some account
unfolding account_hd
entry_account = refl

three_deep : is_account account_key ≡ true
unfolding is_account
three_deep = refl

on_branch : (n : ℕ) → n < 2 ^ 31 → for_type hd account_key n ≡ ok (branch_key n)
unfolding for_type
on_branch n h = rw (lt→ltb n (2 ^ 31) h) refl

get_addresses-find_path_example :
    All
      (IsFound hd addresses account_key
        (branch_key 0)
        (branch_key 1)
        account
        5
        three_deep
        (on_branch 0 (omega arith))
        (on_branch 1 (omega arith))
        (omega arith)
        true
        (branch_key 1)
        3
        5)
      (change_at 3 ∷ change_at 4 ∷ [])
get_addresses-find_path_example =
    get_addresses-find_path hd addresses account_key (branch_key 0) (branch_key 1) account 5
      three_deep (on_branch 0 (omega arith)) (on_branch 1 (omega arith)) (omega arith) true
      (branch_key 1) entry 3 2 (change_at 3 ∷ change_at 4 ∷ []) refl entry_account
      (on_branch 1 (omega arith)) (omega arith) two_listed
