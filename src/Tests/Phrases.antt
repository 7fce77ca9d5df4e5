-- ===== src/Tests/Phrases.antt =====
-- The theorems on phrases and on encryption at concrete inputs.
use emerald_rs.Prelude.{
  ℕ, zero, suc, ◌*◌, ◌≡◌, ◌≢◌, refl, ap, List, [], ◌∷◌, ◌++◌, length, take, drop, replicate,
  length-replicate, some, ok, err, arith,
}
use emerald_rs.Prelude.Bytes.{be_value}
use emerald_rs.Mnemonic.{
  Mnemonic, english, MnemonicSize, size_of_entropy, words_count, full_bytes_length, checksum,
  checksum_bits, push_words, with_checksum, get_indexes, from_entropy,
}
use emerald_rs.Mnemonic.Size.{IsStandard, words12, words15, words18, words21, words24, size12}
use emerald_rs.Mnemonic.Checksum.{Encodes}
use emerald_rs.Mnemonic.Phrase.{IsDistinct, from_entropy_total, from_entropy_injective}
use emerald_rs.Structs.{
  PrivateKeyHolder, ethereum_pk, Aes128CtrCipher, Kdf, web3, aes128_ctr, wrong_key, pbkdf2,
  hmac_sha256,
}
use emerald_rs.Crypto.{
  decrypt, derive, derive_scrypt, create_with_salt, create_ethereum_raw, decrypt_holder,
  get_ethereum_address,
}
use emerald_rs.Crypto.RoundTrip.{
  sealed, encrypt_total, decrypt-encrypt, decrypt_holder-create_ethereum_raw, decrypt-forged,
}
use emerald_rs.Tests.Instances.{crates, crypto_lib, replicate-IsByte}

abbrev pub entropy : List ℕ
entropy = replicate 16 0

sealed_zero : Encodes (replicate 17 0) (full_bytes_length size12) 0
unfolding full_bytes_length be_value
sealed_zero = (refl, refl, replicate-IsByte 17)

from_entropy_total_example :
    (p : Mnemonic) × (from_entropy crates (replicate 2048 []) english entropy ≡ ok p)
    × (length p.words ≡ 3 * 4)
from_entropy_total_example =
    from_entropy_total crates (replicate 2048 []) english entropy
      (length-replicate {0} {A = List ℕ} 2048 []) words12 (replicate-IsByte 16) refl

abbrev short_entropy : List ℕ
short_entropy = replicate 5 0

not_five : (m : MnemonicSize) → IsStandard m → length short_entropy ≢ 4 * m.checksum_length
not_five _ words12 = λ h. omega arith
not_five _ words15 = λ h. omega arith
not_five _ words18 = λ h. omega arith
not_five _ words21 = λ h. omega arith
not_five _ words24 = λ h. omega arith

abbrev pub one_word : List (List ℕ)
one_word = (97 ∷ []) ∷ []

one_word-IsDistinct : IsDistinct one_word
one_word-IsDistinct zero zero w p q = refl
one_word-IsDistinct zero (suc j) w p q = cc
one_word-IsDistinct (suc i) zero w p q = cc
one_word-IsDistinct (suc i) (suc j) w p q = cc

abbrev pub phrase : Mnemonic
phrase = record { language = english; words = replicate 12 (97 ∷ []) }

pub phrase_found : from_entropy crates one_word english entropy ≡ ok phrase
unfolding from_entropy size_of_entropy checksum get_indexes with_checksum be_value checksum_bits
    full_bytes_length words_count push_words
phrase_found = refl

from_entropy_injective_example : entropy ≡ entropy
from_entropy_injective_example =
    from_entropy_injective crates one_word english entropy entropy phrase one_word-IsDistinct
      (replicate-IsByte 16) (replicate-IsByte 16) phrase_found phrase_found

abbrev pub message : List ℕ
message = replicate 32 7

abbrev pub salt : List ℕ
salt = replicate 32 1

abbrev pub iv : List ℕ
iv = replicate 16 2

abbrev pub derived : List ℕ
derived = replicate 32 0

pub key_derived : derive_scrypt crypto_lib (create_with_salt salt) "testtest" ≡ ok derived
unfolding derive_scrypt create_with_salt
key_derived = refl

decrypt-encrypt_example :
    decrypt crypto_lib (sealed crypto_lib message salt iv derived) "testtest" ≡ ok message
decrypt-encrypt_example =
    decrypt-encrypt crypto_lib message "testtest" (some salt) (some iv)
      (sealed crypto_lib message salt iv derived)
      (encrypt_total crypto_lib message "testtest" salt iv derived refl key_derived refl)

abbrev pub holder : PrivateKeyHolder
holder = record {
  id = 4;
  pk = ethereum_pk (record {
    address = some (take 20 message);
    key = sealed crypto_lib message salt iv derived;
  });
  created_at = 9;
}

pub holder_made :
    create_ethereum_raw crypto_lib message "testtest" (some salt) (some iv) 4 9 ≡ ok holder
unfolding create_ethereum_raw
holder_made =
    rw (encrypt_total crypto_lib message "testtest" salt iv derived refl key_derived refl) refl

decrypt_holder-create_ethereum_raw_example :
    (decrypt_holder crypto_lib holder "testtest" ≡ ok message)
    × (get_ethereum_address holder ≡ some (take 20 message))
    × (length message ≡ 32)
decrypt_holder-create_ethereum_raw_example =
    decrypt_holder-create_ethereum_raw crypto_lib message "testtest" (some salt) (some iv) 4 9
      holder holder_made

abbrev kdf : Kdf
kdf = pbkdf2 (record { dklen = 32; c = 262144; salt = salt; prf = hmac_sha256 })

abbrev cipher : List ℕ → Aes128CtrCipher
cipher mac = record { encrypted = message; iv = iv; mac = web3 mac }

pbkdf2_derived : derive crypto_lib kdf "testtest" ≡ ok derived
unfolding derive
pbkdf2_derived = refl

forged : drop 16 derived ++ message ≢ message
forged e = cc (ap length e)

decrypt-forged_example :
    decrypt crypto_lib (record { cipher = aes128_ctr (cipher message); kdf = kdf }) "testtest"
    ≡ err wrong_key
decrypt-forged_example =
    decrypt-forged crypto_lib (cipher message) message kdf "testtest" derived refl pbkdf2_derived
      refl refl forged
