-- ===== src/Migration/KeyFiles.antt =====
-- src/migration/source/json_data.rs: the key files of old vaults. What serde derives is a parameter.
use emerald_rs.Prelude.{
  ℕ, ◌%◌, ◌^◌, String, Bool, Option, none, some, List, Result, ok, err, ok_or, ◌>>=◌,
}
use emerald_rs.Structs.{
  Uuid, EthereumAddress, ConversionError, invalid_json, Encrypted, Kdf, scrypt, pbkdf2, PrfType,
  hmac_sha256, hmac_sha512, aes128_ctr, web3,
}
use emerald_rs.Ethereum.Address.{Hex}

pub data PrfV2 : Type 0 where
  hmac_sha256_v2 hmac_sha512_v2 : PrfV2

-- The fields `prf` and `c`, and `n`, `r` and `p`.
pub data KdfV2 : Type 0 where
  pbkdf2_v2 : PrfV2 → ℕ → KdfV2
  scrypt_v2 : ℕ → ℕ → ℕ → KdfV2

pub record KdfParamsV2 : Type 0 where
  pub kdf : KdfV2
  pub dklen : ℕ
  pub salt : List ℕ

-- `CipherV2` has one value, which is left out. The vector, the salt and the MAC are byte arrays.
pub record CoreCryptoV2 : Type 0 where
  pub cipher_text : List ℕ
  pub iv : List ℕ
  pub kdf_params : KdfParamsV2
  pub mac : List ℕ

pub record HdwalletCryptoV2 : Type 0 where
  pub cipher : String
  pub hardware : String
  pub hd_path : String

pub data CryptoTypeV2 : Type 0 where
  core : CoreCryptoV2 → CryptoTypeV2
  hd_wallet : HdwalletCryptoV2 → CryptoTypeV2

pub record KeyFileV2 : Type 0 where
  pub visible : Option Bool
  pub name : Option String
  pub description : Option String
  pub address : Option EthereumAddress
  pub uuid : Uuid
  pub crypto : CryptoTypeV2

-- `SerializableKeyFileCoreV2` and `SerializableKeyFileHDV2`, by what `crypto` is.
pub record SerializableKeyFileV2 (C : Type 0) : Type 0 where
  pub version : ℕ
  pub id : Uuid
  pub address : Option EthereumAddress
  pub name : Option String
  pub description : Option String
  pub visible : Option Bool
  pub crypto : C

abbrev pub key_file : {C : Type 0} → (C → CryptoTypeV2) → SerializableKeyFileV2 C → KeyFileV2
key_file make f = record {
  visible = f.visible;
  name = f.name;
  description = f.description;
  address = f.address;
  uuid = f.id;
  crypto = make f.crypto;
}

-- `Into<KeyFileV2>`
abbrev pub core_key_file : SerializableKeyFileV2 CoreCryptoV2 → KeyFileV2
core_key_file f = key_file core f

abbrev pub hd_key_file : SerializableKeyFileV2 HdwalletCryptoV2 → KeyFileV2
hd_key_file f = key_file hd_wallet f

-- `serde_json::from_str` for the two formats, and `to_lowercase`. The message of a failure is left out.
pub record KeyFileLib : Type 0 where
  pub to_lowercase : String → String
  pub core_from_str : String → Option (SerializableKeyFileV2 CoreCryptoV2)
  pub hd_from_str : String → Option (SerializableKeyFileV2 HdwalletCryptoV2)

-- `KeyFileV2::decode`, which reads the text in lower case.
unfoldable pub decode : KeyFileLib → String → Result String KeyFileV2
decode lib f =
    let buf = lib.to_lowercase f in
    elim (lib.core_from_str buf) [
      | some file ↦ ok (core_key_file file)
      | none ↦ elim (lib.hd_from_str buf) [
        | some file ↦ ok (hd_key_file file)
        | none ↦ err "Failed to deserialize JSON"
      ]
    ]

abbrev prf_from_v2 : PrfV2 → PrfType
prf_from_v2 hmac_sha256_v2 = hmac_sha256
prf_from_v2 hmac_sha512_v2 = hmac_sha512

abbrev kdf_of : KdfParamsV2 → KdfV2 → Kdf
kdf_of params (pbkdf2_v2 prf c) =
    pbkdf2
      (record { dklen = params.dklen % 2 ^ 32; c = c; salt = params.salt; prf = prf_from_v2 prf })
kdf_of params (scrypt_v2 n r p) =
    scrypt (record { dklen = params.dklen % 2 ^ 32; salt = params.salt; n = n; r = r; p = p })

-- `From<&CoreCryptoV2> for Kdf`
unfoldable pub kdf_from_v2 : CoreCryptoV2 → Kdf
kdf_from_v2 crypto = kdf_of crypto.kdf_params crypto.kdf_params.kdf

-- `TryFrom<&CoreCryptoV2> for Encrypted`
unfoldable pub encrypted_from_v2 : Hex → CoreCryptoV2 → Result ConversionError Encrypted
unfolding kdf_from_v2
encrypted_from_v2 hex value = do
  encrypted ← ok_or invalid_json (hex.decode value.cipher_text)
  ok (record {
    cipher = aes128_ctr (record { encrypted = encrypted; iv = value.iv; mac = web3 value.mac });
    kdf = kdf_from_v2 value;
  })
