-- ===== src/Convert/Json.antt =====
-- src/convert/json/keyfile.rs and src/convert/json/address.rs: key files of the Web3 Secret Storage,
-- version 3. A text of hexadecimal digits is the list of its bytes. What serde reads and writes of
-- a whole file is a parameter.
pub mod RoundTrip
pub mod Exports
use emerald_rs.Prelude.{
  ℕ, ◌%◌, ◌^◌, ◌==◌, if◌then◌else◌, not, str_eq, String, Bool, true, false, Option, none, some,
  List, [], ◌∷◌, ◌++◌, drop, Result, ok, err, ok_or, map_err, ◌>>=◌, ◌>>◌,
}
use mathlib.Core.Option
use emerald_rs.Util.{starts_with_0x}
use emerald_rs.Structs.{
  ConversionError, invalid_hex, invalid_json, unsupported_version, invalid_field_value, CryptoError,
  unsupported_source, Uuid, Instant, EthereumAddress, ScryptKdf, PrfType, hmac_sha256, hmac_sha512,
  Pbkdf2, Kdf, scrypt, pbkdf2, MacType, web3, Aes128CtrCipher, Cipher, aes128_ctr, Encrypted,
  EthereumPk3, ethereum_pk, PrivateKeyHolder,
}
use emerald_rs.Crypto.{CryptoLib, encrypt}
use emerald_rs.Ethereum.Address.{Hex, EthereumError, address_from_str, address_to_string}

-- `CipherId` has one value.
pub data CipherId : Type 0 where
  aes_128_ctr : CipherId

pub record CipherParamsJson : Type 0 where
  pub iv : List ℕ

pub data PrfJson : Type 0 where
  hmac_sha256_json hmac_sha512_json : PrfJson

-- The fields `prf` and `c`, and `n`, `r` and `p`.
pub data KdfJson : Type 0 where
  pbkdf2_json : PrfJson → ℕ → KdfJson
  scrypt_json : ℕ → ℕ → ℕ → KdfJson

pub record KdfParamsJson : Type 0 where
  pub kdf : KdfJson
  pub dklen : ℕ
  pub salt : List ℕ

pub record CoreCryptoJson : Type 0 where
  pub cipher : CipherId
  pub cipher_text : List ℕ
  pub cipher_params : CipherParamsJson
  pub kdf_params : KdfParamsJson
  pub mac : List ℕ

pub record EthereumJsonV3File : Type 0 where
  pub id : Uuid
  pub version : ℕ
  pub address : Option EthereumAddress
  pub crypto : CoreCryptoJson
  pub name : Option String
  pub description : Option String

-- `FromStr` and `Display` of `PrfJson`
unfoldable pub prf_from_str : String → Result ConversionError PrfJson
prf_from_str s =
    if str_eq s "hmac-sha256"
    then ok hmac_sha256_json
    else if str_eq s "hmac-sha512"
    then ok hmac_sha512_json
    else err (invalid_field_value "hmac")

unfoldable pub prf_to_string : PrfJson → String
prf_to_string hmac_sha256_json = "hmac-sha256"
prf_to_string hmac_sha512_json = "hmac-sha512"

abbrev pub default_kdf : KdfJson
default_kdf = scrypt_json 1024 8 1

-- `FromStr` and `Display` of `KdfJson`: the text names the function and not its parameters.
unfoldable pub kdf_from_str : String → Result ConversionError KdfJson
kdf_from_str s =
    if str_eq s "pbkdf2"
    then ok (pbkdf2_json hmac_sha256_json 262144)
    else if str_eq s "scrypt"
    then ok default_kdf
    else err (invalid_field_value s)

unfoldable pub kdf_to_string : KdfJson → String
kdf_to_string (pbkdf2_json _ _) = "pbkdf2"
kdf_to_string (scrypt_json _ _ _) = "scrypt"

-- `TryFrom<String>`; `from_str` is that of serde_json.
unfoldable pub file_from_text :
    (String → Option EthereumJsonV3File) → String → Result ConversionError EthereumJsonV3File
file_from_text from_str value = do
  parsed ← ok_or invalid_json (from_str value)
  if not (parsed.version == 3) then err unsupported_version else ok parsed

abbrev pub prf_of_json : PrfJson → PrfType
prf_of_json hmac_sha256_json = hmac_sha256
prf_of_json hmac_sha512_json = hmac_sha512

abbrev pub json_of_prf : PrfType → PrfJson
json_of_prf hmac_sha256 = hmac_sha256_json
json_of_prf hmac_sha512 = hmac_sha512_json

-- The key derivation with the bytes of its salt; `dklen as u32` keeps the low bits.
unfoldable pub kdf_with_salt : KdfParamsJson → KdfJson → List ℕ → Kdf
kdf_with_salt params (pbkdf2_json prf c) salt =
    pbkdf2 (record { dklen = params.dklen % 2 ^ 32; c = c; salt = salt; prf = prf_of_json prf })
kdf_with_salt params (scrypt_json n r p) salt =
    scrypt (record { dklen = params.dklen % 2 ^ 32; salt = salt; n = n; r = r; p = p })

abbrev pub kdf_to_json : Kdf → KdfJson
kdf_to_json (pbkdf2 value) = pbkdf2_json (json_of_prf value.prf) value.c
kdf_to_json (scrypt value) = scrypt_json value.n value.r value.p

abbrev pub salt_of : Kdf → List ℕ
salt_of (pbkdf2 v) = v.salt
salt_of (scrypt v) = v.salt

abbrev pub mac_of : MacType → List ℕ
mac_of (web3 v) = v

module _ (hex : Hex) where
  -- `hex::decode(text)?`
  abbrev pub decoded : List ℕ → Result ConversionError (List ℕ)
  decoded text = ok_or invalid_hex (hex.decode text)

  -- `From<&CoreCryptoJson> for Kdf`, where `none` is the panic of `unwrap`.
  unfoldable pub kdf_from_core : CoreCryptoJson → Option Kdf
  unfolding kdf_with_salt
  kdf_from_core crypto =
      Option.map (kdf_with_salt crypto.kdf_params crypto.kdf_params.kdf)
        (hex.decode crypto.kdf_params.salt)

  abbrev cipher_of : CoreCryptoJson → Result ConversionError Cipher
  cipher_of crypto = do
    iv ← decoded crypto.cipher_params.iv
    mac ← decoded crypto.mac
    encrypted ← decoded crypto.cipher_text
    ok (aes128_ctr (record { encrypted = encrypted; iv = iv; mac = web3 mac }))

  abbrev with_kdf : Option Kdf → Cipher → Option (Result ConversionError Encrypted)
  with_kdf none cipher = none
  with_kdf (some kdf) cipher = some (ok (record { cipher = cipher; kdf = kdf }))

  -- `TryFrom<&CoreCryptoJson> for Encrypted`: the panic is met behind the errors.
  unfoldable pub encrypted_from_core : CoreCryptoJson → Option (Result ConversionError Encrypted)
  unfolding kdf_from_core
  encrypted_from_core value = elim (cipher_of value) [
    | err e ↦ some (err e)
    | ok cipher ↦ with_kdf (kdf_from_core value) cipher
  ]

  -- `TryFrom<&EthereumJsonV3File> for Encrypted`
  unfoldable pub encrypted_from_file : EthereumJsonV3File → Result ConversionError Encrypted
  unfolding kdf_with_salt
  encrypted_from_file json = do
    encrypted ← decoded json.crypto.cipher_text
    iv ← decoded json.crypto.cipher_params.iv
    mac ← decoded json.crypto.mac
    salt ← decoded json.crypto.kdf_params.salt
    ok (record {
      cipher = aes128_ctr (record { encrypted = encrypted; iv = iv; mac = web3 mac });
      kdf = kdf_with_salt json.crypto.kdf_params json.crypto.kdf_params.kdf salt;
    })

  abbrev holder_of :
      EthereumJsonV3File
      → Instant
      → Result ConversionError Encrypted
      → Result ConversionError PrivateKeyHolder
  holder_of value now (err e) = err e
  holder_of value now (ok key) = ok (record {
    id = value.id;
    pk = ethereum_pk (record { address = value.address; key = key });
    created_at = now;
  })

  -- `TryFrom<&EthereumJsonV3File> for PrivateKeyHolder`, with the time that it takes
  unfoldable pub holder_from_file :
      EthereumJsonV3File → Instant → Option (Result ConversionError PrivateKeyHolder)
  unfolding encrypted_from_core
  holder_from_file value now = Option.map (holder_of value now) (encrypted_from_core value.crypto)

  -- `TryFrom<&EthereumJsonV3File> for EthereumPk3`
  unfoldable pub pk3_from_file : EthereumJsonV3File → Result ConversionError EthereumPk3
  unfolding encrypted_from_file
  pk3_from_file json = do
    key ← encrypted_from_file json
    ok (record { address = json.address; key = key })

  -- `TryFrom<&Encrypted> for CoreCryptoJson`, which never fails and writes 32 for `dklen`.
  unfoldable pub core_from_encrypted : Encrypted → Result ConversionError CoreCryptoJson
  core_from_encrypted value = elim value.cipher [
    | aes128_ctr cipher ↦ ok (record {
      cipher = aes_128_ctr;
      cipher_text = hex.encode cipher.encrypted;
      cipher_params = record { iv = hex.encode cipher.iv };
      kdf_params = record {
        kdf = kdf_to_json value.kdf;
        dklen = 32;
        salt = hex.encode (salt_of value.kdf);
      };
      mac = hex.encode (mac_of cipher.mac);
    })
  ]

  -- `EthereumJsonV3File::from_wallet`
  unfoldable pub from_wallet :
      Option String → PrivateKeyHolder → Result (Unit {0}) EthereumJsonV3File
  unfolding core_from_encrypted
  from_wallet label pk = elim pk.pk [
    | ethereum_pk pk3 ↦ (do
      crypto ← map_err (λ _. tt) (core_from_encrypted pk3.key)
      ok (record {
        id = pk.id;
        version = 3;
        address = pk3.address;
        crypto = crypto;
        name = label;
        description = none;
      }))
  ]

  -- `EthereumJsonV3File::from_pk`, with the random bytes and the identifier that it takes
  unfoldable pub from_pk :
      CryptoLib
      → Option String
      → List ℕ
      → String
      → Option (List ℕ)
      → Option (List ℕ)
      → Uuid
      → Result CryptoError EthereumJsonV3File
  unfolding core_from_encrypted
  from_pk lib label pk password salt? iv? id = do
    encrypted ← encrypt lib pk password salt? iv?
    crypto ← map_err (λ _. unsupported_source "encrypted format") (core_from_encrypted encrypted)
    ok (record {
      id = id;
      version = 3;
      address = some (lib.address_of_key pk);
      crypto = crypto;
      name = label;
      description = none;
    })

  -- `Deserialize for EthereumAddress`, and `Serialize`
  unfoldable pub address_from_json : List ℕ → Result EthereumError EthereumAddress
  unfolding starts_with_0x
  address_from_json s = address_from_str hex (if starts_with_0x s then s else b'0' ∷ b'x' ∷ s)

  unfoldable pub address_to_json : EthereumAddress → List ℕ
  address_to_json a = drop 2 (address_to_string hex a)
