-- ===== src/Tests/Json.antt =====
-- The theorems on key files at concrete inputs.
use emerald_rs.Prelude.{
  ℕ, zero, suc, take, ◌≡◌, refl, arith, String, Option, none, some, List, [], ◌∷◌, replicate, ok,
  All,
}
use emerald_rs.Prelude.Bytes.{IsByte}
use emerald_rs.Structs.{PrivateKeyHolder}
use emerald_rs.Crypto.{get_ethereum_address, derive_scrypt, create_with_salt, decrypt_holder}
use emerald_rs.Crypto.RoundTrip.{sealed, encrypt_total}
use emerald_rs.Ethereum.Address.{Hex}
use emerald_rs.Convert.Json.{
  EthereumJsonV3File, aes_128_ctr, scrypt_json, holder_from_file, from_pk, core_from_encrypted,
}
use emerald_rs.Convert.Json.RoundTrip.{core_of}
use emerald_rs.Convert.Json.Exports.{IsByteLib, decrypt_holder-from_pk}
use emerald_rs.Tests.Instances.{crypto_lib, replicate-IsByte}
use emerald_rs.Tests.Messages.{hex}
use emerald_rs.Tests.Phrases.{message, salt, iv, derived, key_derived}

key_is_bytes :
    (salt : List ℕ) (password : String) (key : List ℕ)
    → derive_scrypt crypto_lib (create_with_salt salt) password ≡ ok key
    → All IsByte key
unfolding derive_scrypt create_with_salt
key_is_bytes salt password key h =
    let same : replicate 32 0 ≡ key = cc in rw (← same) (replicate-IsByte 32)

bytes_of_keys : IsByteLib crypto_lib
bytes_of_keys = record {
  scrypt_bytes = key_is_bytes;
  keystream_bytes = λ key iv xs h. h;
  keccak256_bytes = λ xs h. h;
}

sevens : (n : ℕ) → All IsByte (replicate n 7)
sevens zero = tt
sevens (suc n) = (omega arith, sevens n)

ones : (n : ℕ) → All IsByte (replicate n 1)
ones zero = tt
ones (suc n) = (omega arith, ones n)

twos : (n : ℕ) → All IsByte (replicate n 2)
twos zero = tt
twos (suc n) = (omega arith, twos n)

abbrev file : EthereumJsonV3File
file = record {
  id = 4;
  version = 3;
  address = some (take 20 message);
  crypto = core_of hex (sealed crypto_lib message salt iv derived);
  name = some "main";
  description = none;
}

file_made :
    from_pk hex crypto_lib (some "main") message "testtest" (some salt) (some iv) 4 ≡ ok file
unfolding from_pk core_from_encrypted create_with_salt
file_made =
    rw (encrypt_total crypto_lib message "testtest" salt iv derived refl key_derived refl) refl

decrypt_holder-from_pk_example :
    (h : PrivateKeyHolder) × (holder_from_file hex file 9 ≡ some (ok h))
    × (h.id ≡ 4)
    × (get_ethereum_address h ≡ some (crypto_lib.address_of_key message))
    × (decrypt_holder crypto_lib h "testtest" ≡ ok message)
decrypt_holder-from_pk_example =
    decrypt_holder-from_pk crypto_lib bytes_of_keys hex (some "main") message "testtest" salt iv 4 9
      file (sevens 32) (ones 32) (twos 16) file_made

-- Digits with a mark in front, without which they are refused.
abbrev digits_of : List ℕ → Option (List ℕ)
digits_of [] = none
digits_of (mark ∷ bs) = some bs

abbrev marked : Hex
marked = record { encode = λ bs. 48 ∷ bs; decode = digits_of; decode-encode = λ bs h. refl }

abbrev bad_salt : EthereumJsonV3File
bad_salt = record {
  id = 4;
  version = 3;
  address = none;
  crypto = record {
    cipher = aes_128_ctr;
    cipher_text = 48 ∷ message;
    cipher_params = record { iv = 48 ∷ iv };
    kdf_params = record { kdf = scrypt_json 8192 8 1; dklen = 32; salt = [] };
    mac = 48 ∷ message;
  };
  name = none;
  description = none;
}
