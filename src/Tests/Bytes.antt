-- ===== src/Tests/Bytes.antt =====
-- The theorems on bytes, chains, amounts and versions at concrete inputs.
use emerald_rs.Prelude.{
  ℕ, ◌≤◌, ◌≡◌, ◌≢◌, ◌↔◌, refl, List, [], ◌∷◌, length, get_elem?, some, none, ok, arith, Ordering,
  false,
}
use emerald_rs.Prelude.Bytes.{be_value}
use emerald_rs.Util.{align_bytes, trim_bytes}
use emerald_rs.Util.Laws.{trim_bytes_lem}
use emerald_rs.Chains.{Blockchain, Network}
use emerald_rs.Structs.{
  Uuid, Instant, p2wpkh, witness, Wallet, WalletEntry, private_key_ref, next_entry_id, get_entry,
  cmp_by_date_id,
}
use emerald_rs.Structs.Wallets.{Below, next_entry_id_lem}
use emerald_rs.Bitcoin.{type_of_version, type_of_purpose, Transfer, validate}
use emerald_rs.Bitcoin.Amounts.{Agrees, validate_lem}

abbrev undated : Uuid × Instant
undated = (9, 100_000_000)

abbrev dated : Uuid × Instant
dated = (2, 500)

abbrev padded : List ℕ
padded = 0 ∷ 0 ∷ 7 ∷ 0 ∷ []

trim_bytes_lem_example :
    (be_value (trim_bytes padded) ≡ be_value padded)
    × (get_elem? (trim_bytes padded) 0 ≢ some 0)
    × (align_bytes (trim_bytes padded) (length padded) ≡ padded)
trim_bytes_lem_example = trim_bytes_lem padded

zpub_read : type_of_version 0x04b24746 ≡ ok (Network.bitcoin, p2wpkh)
unfolding type_of_version
zpub_read = refl

witness_read : type_of_purpose witness ≡ ok p2wpkh
unfolding type_of_purpose
witness_read = refl

abbrev payment : Transfer
payment = record { inputs = 5000 ∷ 3000 ∷ []; outputs = 7500 ∷ []; expected_fee = 500 }

validate_lem_example : (validate payment ≡ ok tt) ↔ Agrees payment
validate_lem_example = validate_lem payment (omega arith) (omega arith)

abbrev old_entry : ℕ → WalletEntry
old_entry id = record {
  id = id;
  label = none;
  blockchain = Blockchain.ethereum;
  address = none;
  key = private_key_ref 5;
  receive_disabled = false;
  created_at = 1000;
}

abbrev wallet : Wallet
wallet = record {
  id = 1;
  label = none;
  entries = old_entry 0 ∷ old_entry 4 ∷ [];
  entry_seq = 3;
  reserved = [];
  created_at = 1000;
}

next_entry_id_lem_example :
    Below (next_entry_id wallet) wallet.entries × (wallet.entry_seq ≤ next_entry_id wallet)
next_entry_id_lem_example = next_entry_id_lem wallet (omega arith, (omega arith, tt))

found_4 : get_entry wallet 4 ≡ ok (old_entry 4)
unfolding get_entry
found_4 = refl

earlier : cmp_by_date_id (9, 100) (2, 500) ≡ Ordering.lt
unfolding cmp_by_date_id
earlier = refl

later : cmp_by_date_id (2, 500) (3, 500) ≡ Ordering.lt
unfolding cmp_by_date_id
later = refl
