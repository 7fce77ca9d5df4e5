-- ===== src/Crypto.antt =====
-- src/crypto: key derivation, encryption of secrets and private keys. Scrypt, PBKDF2, AES-128-CTR,
-- Keccak-256 and the curve are third-party code, which enters as `CryptoLib`.
pub mod RoundTrip
use emerald_rs.Prelude.{
  ℕ, ◌+◌, ◌≡◌, ◌==◌, str_eq, if◌then◌else◌, not, leb, String, Bool, true, false, Option, none, some,
  List, [], ◌++◌, length, take, drop, Result, ok, err, ok_or, map_err, ◌>>=◌, ◌>>◌, List_beq, ℕ_eq,
}
use emerald_rs.Structs.{
  CryptoError, invalid_key, wrong_key, no_entropy, slice_panic, ScryptKdf, PrfType, hmac_sha256,
  hmac_sha512, Pbkdf2, Kdf, scrypt, pbkdf2, MacType, web3, Aes128CtrCipher, Cipher, aes128_ctr,
  Encrypted, EthereumPk3, PrivateKeyType, ethereum_pk, PrivateKeyHolder, EthereumAddress, Uuid,
  Instant,
}

-- The third-party algorithms, with what the code relies on: a keystream that is applied twice is
-- gone, and a derived key has the length that was asked for.
pub record CryptoLib : Type 0 where
  -- `(n as f64).log2().round() as u8`
  pub log2_round : ℕ → ℕ
  -- `ScryptParams::new` and `scrypt`: password, salt, log n, r, p, length of the key
  pub scrypt_key : String → List ℕ → ℕ → ℕ → ℕ → ℕ → Result CryptoError (List ℕ)
  -- password, salt, rounds, length of the key
  pub pbkdf2_sha256 : String → List ℕ → ℕ → ℕ → List ℕ
  pub pbkdf2_sha512 : String → List ℕ → ℕ → ℕ → List ℕ
  -- `Aes128Ctr::new(key, iv).apply_keystream(data)`
  pub keystream : List ℕ → List ℕ → List ℕ → List ℕ
  pub keccak256 : List ℕ → List ℕ
  -- The address of a secret key.
  pub address_of_key : List ℕ → EthereumAddress
  pub keystream_twice : (key iv xs : List ℕ) → keystream key iv (keystream key iv xs) ≡ xs
  pub scrypt_length :
      (password : String) (salt : List ℕ) (log_n r p dklen : ℕ) (key : List ℕ)
      → scrypt_key password salt log_n r p dklen ≡ ok key
      → length key ≡ dklen

pub record Web3Key : Type 0 where
  pub message_key : List ℕ
  pub mac_key : List ℕ

-- `Web3Key::try_from`: the left half of the key is for the message, the right half for the MAC.
unfoldable pub web3_key : List ℕ → Result CryptoError Web3Key
web3_key key =
    if not (length key == 32)
    then err invalid_key
    else ok (record { message_key = take 16 key; mac_key = drop 16 key })

-- `ScryptKdf::create_with_salt`
unfoldable pub create_with_salt : List ℕ → ScryptKdf
create_with_salt salt = record { dklen = 32; salt = salt; n = 8192; r = 8; p = 1 }

-- `ScryptKdf::verify`
unfoldable pub verify_scrypt : ScryptKdf → Result String ScryptKdf
verify_scrypt kdf =
    if not (length kdf.salt == 32)
    then err "salt has invalid size"
    else if not (kdf.dklen == 32)
    then err "dklen has invalid value"
    else if leb kdf.p 0
    then err "p is too small"
    else if leb kdf.n 0
    then err "n is too small"
    else if leb kdf.r 0
    then err "r is too small"
    else ok kdf

module _ (lib : CryptoLib) where
  unfoldable pub derive_scrypt : ScryptKdf → String → Result CryptoError (List ℕ)
  derive_scrypt kdf password =
      lib.scrypt_key password kdf.salt (lib.log2_round kdf.n) kdf.r kdf.p kdf.dklen

  derive_prf : PrfType → Pbkdf2 → String → List ℕ
  derive_prf hmac_sha256 kdf password = lib.pbkdf2_sha256 password kdf.salt kdf.c kdf.dklen
  derive_prf hmac_sha512 kdf password = lib.pbkdf2_sha512 password kdf.salt kdf.c kdf.dklen

  unfoldable pub derive_pbkdf2 : Pbkdf2 → String → Result CryptoError (List ℕ)
  unfolding derive_prf
  derive_pbkdf2 kdf password = ok (derive_prf kdf.prf kdf password)

  unfoldable pub derive : Kdf → String → Result CryptoError (List ℕ)
  unfolding derive_scrypt derive_pbkdf2
  derive (scrypt kdf) password = derive_scrypt kdf password
  derive (pbkdf2 kdf) password = derive_pbkdf2 kdf password

  -- A vector that has not 16 bytes is a panic; the key always has 16.
  unfoldable pub encrypt_aes128 : List ℕ → List ℕ → List ℕ → Result CryptoError (List ℕ)
  encrypt_aes128 xs key iv =
      if not (length iv == 16) then err slice_panic else ok (lib.keystream key iv xs)

  unfoldable pub decrypt_aes128 : List ℕ → List ℕ → List ℕ → Result CryptoError (List ℕ)
  decrypt_aes128 xs key iv =
      if not (length iv == 16) then err slice_panic else ok (lib.keystream key iv xs)

  -- `MacType::sign_web3`
  unfoldable pub sign_web3 : List ℕ → List ℕ → Result CryptoError MacType
  sign_web3 key message =
      if not (length key == 16) then err invalid_key else ok (web3 (lib.keccak256 (key ++ message)))

  -- `MacType::verify`
  unfoldable pub verify_mac : MacType → List ℕ → List ℕ → Bool
  verify_mac (web3 mac) key message =
      if not (length key == 16) then false else List_beq (lib.keccak256 (key ++ message)) mac

  -- `Encrypted::encrypt`. `salt` and `iv` are what the random generator fills in, if it can.
  unfoldable pub encrypt :
      List ℕ → String → Option (List ℕ) → Option (List ℕ) → Result CryptoError Encrypted
  unfolding create_with_salt derive_scrypt encrypt_aes128 sign_web3
  encrypt msg password salt? iv? = if str_eq password "" then err invalid_key else do
    salt ← ok_or no_entropy salt?
    let kdf = create_with_salt salt
    derived ← derive_scrypt kdf password
    iv ← ok_or no_entropy iv?
    key ← web3_key derived
    encrypted ← encrypt_aes128 msg key.message_key iv
    mac ← sign_web3 key.mac_key encrypted
    ok (record {
      cipher = aes128_ctr (record { encrypted = encrypted; iv = iv; mac = mac });
      kdf = scrypt kdf;
    })

  -- `Cipher::decrypt_value`
  unfoldable pub decrypt_value : Cipher → List ℕ → Result CryptoError (List ℕ)
  unfolding decrypt_aes128 verify_mac
  decrypt_value (aes128_ctr conf) derived = do
    key ← web3_key derived
    decrypted ← decrypt_aes128 conf.encrypted key.message_key conf.iv
    if verify_mac conf.mac key.mac_key conf.encrypted then ok decrypted else err wrong_key

  -- `Encrypted::decrypt`
  unfoldable pub decrypt : Encrypted → String → Result CryptoError (List ℕ)
  unfolding derive decrypt_value
  decrypt e password = do key ← derive e.kdf password; decrypt_value e.cipher key

  -- `PrivateKeyHolder::create_ethereum_raw`, with the identifier and the time that it takes.
  unfoldable pub create_ethereum_raw :
      List ℕ
      → String
      → Option (List ℕ)
      → Option (List ℕ)
      → Uuid
      → Instant
      → Result CryptoError PrivateKeyHolder
  unfolding encrypt
  create_ethereum_raw pk password salt? iv? id now =
      if not (length pk == 32) then err invalid_key else do
        key ← encrypt pk password salt? iv?
        ok (record {
          id = id;
          pk = ethereum_pk (record { address = some (lib.address_of_key pk); key = key });
          created_at = now;
        })

  -- `PrivateKeyHolder::decrypt`
  abbrev holder_key : PrivateKeyType → Encrypted
  holder_key (ethereum_pk e) = e.key

  unfoldable pub decrypt_holder : PrivateKeyHolder → String → Result CryptoError (List ℕ)
  unfolding decrypt
  decrypt_holder h password = decrypt (holder_key h.pk) password

-- `PrivateKeyHolder::get_ethereum_address`
unfoldable pub get_ethereum_address : PrivateKeyHolder → Option EthereumAddress
get_ethereum_address h = elim h.pk [ ethereum_pk e ↦ e.address ]
