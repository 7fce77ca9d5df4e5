-- ===== src/Tests/Stored.antt =====
-- The theorems on stored messages at concrete inputs.
use emerald_rs.Prelude.{
  map, ℕ, zero, suc, ◌≡◌, refl, none, some, List, [], ◌∷◌, replicate, false, Result, ok, err, arith,
  All,
}
use emerald_rs.Prelude.Bytes.{IsByte, be_bytes}
use emerald_rs.Chains.{Blockchain, as_u32}
use emerald_rs.Structs.{
  StandardHdPath, pubkey, Wallet, private_key_ref, ethereum_address, Seed, SeedSource,
  ConversionError, next_entry_id, max_id,
}
use emerald_rs.Convert.Books.{BookmarkDetails, IsStorableBook, book_to_bytes, book_to_proto}
use emerald_rs.Convert.Addresses.{address_to_proto}
use emerald_rs.Ethereum.Address.{address_to_string}
use emerald_rs.Tests.Messages.{convert_lib, book_wire, wallet_wire, seed_wire, key_wire}
use emerald_rs.Convert.Wallets.{
  wallet_to_bytes, wallet_from_bytes, wallet_to_proto, entry_to_proto, reserve_all,
}
use emerald_rs.Convert.Wallets.RoundTrip.{
  IsStorableWallet, entry_in_millis, wallet_from_bytes-wallet_to_bytes,
}
use emerald_rs.Convert.Seeds.{seed_to_bytes, seed_from_bytes, seed_to_proto, ledger_to_proto}
use emerald_rs.Convert.Seeds.RoundTrip.{seed_from_bytes-seed_to_bytes}
use emerald_rs.Convert.Keys.{pk_to_bytes, pk_from_bytes, pk_to_proto}
use emerald_rs.Convert.Keys.RoundTrip.{holder_in_millis, decrypt_holder-pk_from_bytes}
use emerald_rs.Convert.Secrets.{encrypted_to_proto}
use emerald_rs.Structs.Secrets.{get_iv, get_message}
use emerald_rs.Crypto.{decrypt_holder, create_with_salt}
use emerald_rs.Tests.Instances.{crypto_lib}
use emerald_rs.Tests.Phrases.{message, salt, iv, holder, holder_made}

IsByte-sevens : (n : ℕ) → All IsByte (replicate n 7)
IsByte-sevens zero = tt
IsByte-sevens (suc n) = (omega arith, IsByte-sevens n)

abbrev path : StandardHdPath
path = record { purpose = pubkey; coin_type = 60; account = 0; change = 0; index = 0 }

abbrev pub written_bytes : Result ConversionError (List ℕ) → List ℕ
written_bytes (ok bs) = bs
written_bytes (err _) = []

abbrev pub bookmark : BookmarkDetails
bookmark = record {
  blockchain = Blockchain.ethereum;
  label = some "main";
  description = none;
  address = ethereum_address (replicate 20 7);
  created_at = 5_000_000;
}

abbrev pub bookmark_bytes : List ℕ
unfolding book_to_bytes book_to_proto address_to_proto
bookmark_bytes = written_bytes (book_to_bytes convert_lib book_wire bookmark)

pub bookmark_written : book_to_bytes convert_lib book_wire bookmark ≡ ok bookmark_bytes
unfolding book_to_bytes book_to_proto address_to_proto address_to_string as_u32 bookmark_bytes
bookmark_written = refl

pub bookmark-IsStorableBook : IsStorableBook convert_lib bookmark
bookmark-IsStorableBook = record {
  label_kept = λ h. cc;
  description_kept = λ h. cc;
  address_kept = (refl, IsByte-sevens 20);
  date_kept = omega arith;
}

abbrev pub wallet : Wallet
wallet = record {
  id = 5;
  label = some "main";
  entries =
      record {
        id = 2;
        label = none;
        blockchain = Blockchain.ethereum;
        address = some (ethereum_address (replicate 20 7));
        key = private_key_ref 9;
        receive_disabled = false;
        created_at = 1_600_000_123_456_789;
      }
      ∷ [];
  entry_seq = 1;
  reserved = [];
  created_at = 1_600_000_123_456_789;
}

abbrev pub wallet_bytes : List ℕ
wallet_bytes = written_bytes (wallet_to_bytes convert_lib wallet_wire wallet)

pub wallet_written : wallet_to_bytes convert_lib wallet_wire wallet ≡ ok wallet_bytes
unfolding wallet_to_bytes wallet_to_proto entry_to_proto address_to_proto address_to_string as_u32
    reserve_all be_bytes
wallet_written = refl

pub wallet-IsStorableWallet : IsStorableWallet convert_lib wallet
unfolding next_entry_id max_id
wallet-IsStorableWallet = record {
  uuid = omega arith;
  label_kept = λ h. cc;
  entries_kept = (
    record {
      small_id = omega arith;
      label_kept = λ h. cc;
      address_kept = (refl, IsByte-sevens 20);
      key_kept = omega arith;
      date_kept = omega arith;
    },
    tt,
  );
  small_seq = omega arith;
  reserved_kept = tt;
  date_kept = omega arith;
}

wallet_from_bytes-wallet_to_bytes_example :
    wallet_from_bytes convert_lib wallet_wire wallet_bytes
    ≡ ok (record wallet {
      entries = map entry_in_millis wallet.entries;
      entry_seq = 3;
      created_at = 1_600_000_123_000_000;
    })
unfolding next_entry_id max_id reserve_all
wallet_from_bytes-wallet_to_bytes_example =
    wallet_from_bytes-wallet_to_bytes convert_lib wallet_wire wallet wallet_bytes
      wallet-IsStorableWallet wallet_written

abbrev pub ledger_seed : Seed
ledger_seed = record {
  id = 6;
  source =
      SeedSource.ledger
        (record { fingerprints = record { hd_path = path; value = replicate 32 7 } ∷ [] });
  label = none;
  created_at = 55_000_001;
}

abbrev seed_bytes : List ℕ
seed_bytes = written_bytes (seed_to_bytes convert_lib seed_wire ledger_seed)

seed_written : seed_to_bytes convert_lib seed_wire ledger_seed ≡ ok seed_bytes
unfolding seed_to_bytes seed_to_proto ledger_to_proto be_bytes
seed_written = refl

seed_from_bytes-seed_to_bytes_example :
    seed_from_bytes convert_lib seed_wire seed_bytes
    ≡ ok (record ledger_seed {
      source = SeedSource.ledger (record { fingerprints = [] });
      created_at = 55_000_000;
    })
seed_from_bytes-seed_to_bytes_example =
    seed_from_bytes-seed_to_bytes convert_lib seed_wire ledger_seed seed_bytes
      (record {
        uuid = omega arith;
        label_kept = λ h. cc;
        source_kept = tt;
        date_kept = omega arith;
      })
      seed_written

abbrev key_bytes : List ℕ
key_bytes = written_bytes (pk_to_bytes convert_lib key_wire holder)

key_written : pk_to_bytes convert_lib key_wire holder ≡ ok key_bytes
unfolding pk_to_bytes pk_to_proto address_to_string encrypted_to_proto get_iv get_message be_bytes
    create_with_salt
key_written = refl

decrypt_holder-pk_from_bytes_example :
    (pk_from_bytes convert_lib key_wire key_bytes ≡ ok (holder_in_millis holder))
    × (decrypt_holder crypto_lib (holder_in_millis holder) "testtest" ≡ ok message)
decrypt_holder-pk_from_bytes_example =
    decrypt_holder-pk_from_bytes convert_lib crypto_lib key_wire message "testtest" salt (some iv) 4
      9 holder key_bytes refl (omega arith) (omega arith) (refl, IsByte-sevens 20) holder_made
      key_written
