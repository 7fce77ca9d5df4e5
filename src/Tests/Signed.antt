-- ===== src/Tests/Signed.antt =====
-- The theorems on signed transactions at concrete inputs.
use emerald_rs.Prelude.{
  ℕ, ◌≡◌, refl, none, some, List, [], ◌∷◌, ◌++◌, replicate, ok, arith, true, false,
}
use emerald_rs.Chains.{EthereumChainId, Blockchain, as_chainid, chain_id_of}
use emerald_rs.Structs.{WalletEntry, private_key_ref}
use emerald_rs.Storage.Access.{VaultAccess}
use emerald_rs.Storage.VaultStorage.{VaultStorage}
use emerald_rs.Ethereum.Sign.{SecretLib, EthereumDevice, sign_tx, sign_tx-create_ethereum_raw}
use emerald_rs.Tests.Instances.{crypto_lib}
use emerald_rs.Tests.Phrases.{message, salt, iv, holder, holder_made}
use emerald_rs.Tests.Stored.{wallet, ledger_seed}
use emerald_rs.Util.{trim_bytes}
use emerald_rs.Ethereum.Transaction.{
  EthereumTransaction, EthereumLib, Field, number, octets, empty_data, to_rlp_raw, to_signed_raw,
}
use emerald_rs.Ethereum.Transaction.Replay.{to_signed_raw_lem, stamped_injective}

abbrev field_bytes : Field → List ℕ
field_bytes (number n) = n ∷ []
field_bytes (octets bs) = bs
field_bytes empty_data = 128 ∷ []

abbrev all_bytes : List Field → List ℕ
all_bytes [] = []
all_bytes (f ∷ fs) = field_bytes f ++ all_bytes fs

abbrev lib : EthereumLib
lib = record {
  out = all_bytes;
  keccak256 = λ bs. bs;
  sign_recoverable = λ hash pk. some (1, replicate 32 3 ++ replicate 32 4);
}

abbrev tx : EthereumTransaction
tx = record {
  nonce = 1;
  gas_price = 0 ∷ 5 ∷ [];
  gas_limit = 21000;
  to = some (replicate 20 9);
  value = 7 ∷ [];
  data_bytes = [];
}

to_signed_raw_lem_example :
    to_signed_raw lib tx (replicate 32 1) EthereumChainId.ethereum_classic
    ≡ ok (
        all_bytes (
          to_rlp_raw tx none
          ++ number 158
            ∷ octets (trim_bytes (replicate 32 3))
            ∷ octets (trim_bytes (replicate 32 4))
            ∷ []))
unfolding as_chainid
to_signed_raw_lem_example =
    to_signed_raw_lem lib tx (replicate 32 1) EthereumChainId.ethereum_classic 1 (replicate 32 3)
      (replicate 32 4) (omega arith) refl refl refl

stamped_injective_example : (EthereumChainId.kovan ≡ EthereumChainId.kovan) × (◌≡◌ {A = ℕ} 1 1)
stamped_injective_example =
    stamped_injective EthereumChainId.kovan EthereumChainId.kovan 1 1 (omega arith) (omega arith)
      refl

abbrev nothing : {P : Type 0} → P → VaultAccess (Unit {0}) P
nothing p = record {
  list = λ s. (ok [], s);
  get = λ id s. (ok p, s);
  add = λ q s. (ok 0, s);
  remove = λ id s. (ok true, s);
  update = λ q s. (ok true, s);
}

abbrev vault : VaultStorage (Unit {0}) ℕ
vault = record {
  keys = nothing holder;
  wallets = nothing wallet;
  seeds = nothing ledger_seed;
  key_filename = λ id. id;
  wallet_filename = λ id. id;
}

abbrev secrets : SecretLib
secrets = record {
  secret_from_slice = λ bs. some bs;
  generate_key = λ path seed. ok seed;
  reparse = λ path. some path;
}

abbrev device : EthereumDevice
device = record { connected = false; is_open = false; sign_transaction = λ rlp path. none }

abbrev entry : WalletEntry
entry = record {
  id = 0;
  label = none;
  blockchain = Blockchain.ethereum;
  address = none;
  key = private_key_ref 4;
  receive_disabled = false;
  created_at = 9;
}

abbrev raw : List ℕ
raw = all_bytes (
    to_rlp_raw tx none
    ++ number 38 ∷ octets (trim_bytes (replicate 32 3)) ∷ octets (trim_bytes (replicate 32 4)) ∷ [])

signed : to_signed_raw lib tx message EthereumChainId.ethereum ≡ ok raw
unfolding as_chainid
signed =
    to_signed_raw_lem lib tx message EthereumChainId.ethereum 1 (replicate 32 3) (replicate 32 4)
      (omega arith) refl refl refl

on_mainnet : chain_id_of entry.blockchain ≡ some EthereumChainId.ethereum
unfolding chain_id_of
on_mainnet = refl

sign_tx-create_ethereum_raw_example :
    sign_tx crypto_lib secrets vault lib device entry tx (some "testtest") tt ≡ (ok raw, tt)
sign_tx-create_ethereum_raw_example =
    sign_tx-create_ethereum_raw crypto_lib secrets vault lib device entry tx message "testtest"
      (some salt) (some iv) 4 9 holder EthereumChainId.ethereum raw tt tt on_mainnet refl refl
      holder_made refl signed
