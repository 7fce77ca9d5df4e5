-- ===== src/Convert/Secrets.antt =====
-- src/convert/proto/crypto.rs: encrypted secrets as messages.
pub mod RoundTrip
use emerald_rs.Prelude.{
  ℕ, Option, some, none, List, [], Result, ok, err, map_err, ok_or, ◌>>=◌, ◌>>◌, map_ok, String,
}
use emerald_rs.Structs.{
  ConversionError, field_is_empty, invalid_field_value, unsupported_value, ScryptKdf, PrfType,
  hmac_sha256, hmac_sha512, Pbkdf2, Kdf, scrypt, pbkdf2, MacType, web3, Aes128CtrCipher, Cipher,
  aes128_ctr, Encrypted,
}
use emerald_rs.Structs.Secrets.{get_iv, get_message}
use emerald_rs.Crypto.{verify_scrypt}
use emerald_rs.Convert.Messages.{
  ProtoScryptKdf, ProtoPrfType, prf_unknown, prf_hmac_sha256, ProtoPbkdf2, ProtoMacType,
  mac_unknown, mac_web3, ProtoMac, ProtoCipherType, cipher_unknown, cipher_aes128_ctr, ProtoKdfType,
  kdf_scrypt, kdf_pbkdf, ProtoEncrypted,
}

-- `TryFrom<proto_PrfType> for PrfType`
unfoldable pub prf_from_proto : ProtoPrfType → Result ConversionError PrfType
prf_from_proto prf_hmac_sha256 = ok hmac_sha256
prf_from_proto prf_unknown = err (field_is_empty "prf_type")

-- `TryFrom<&proto_Mac> for MacType`
unfoldable pub mac_from_proto : ProtoMac → Result ConversionError MacType
mac_from_proto m = elim m.field_type [
  | mac_web3 ↦ ok (web3 m.value)
  | mac_unknown ↦ err (field_is_empty "mac_type")
]

-- `TryFrom<&proto_Encrypted> for Cipher`
unfoldable pub cipher_from_proto : ProtoEncrypted → Result ConversionError Cipher
unfolding mac_from_proto
cipher_from_proto m = elim m.field_type [
  | cipher_aes128_ctr ↦ (do
    message ← ok_or (field_is_empty "mac") m.mac
    mac ← mac_from_proto message
    ok (aes128_ctr (record { encrypted = m.secret; iv = m.iv; mac = mac })))
  | cipher_unknown ↦ err (field_is_empty "cipher_type")
]

-- `TryFrom<&proto_Encrypted_oneof_kdf_type> for Kdf`
unfoldable pub kdf_from_proto : ProtoKdfType → Result ConversionError Kdf
unfolding prf_from_proto
kdf_from_proto (kdf_scrypt m) = do
  kdf ←
      map_err (λ _. invalid_field_value "kdf_scrypt")
        (verify_scrypt (record { dklen = m.dklen; salt = m.salt; n = m.n; r = m.r; p = m.p }))
  ok (scrypt kdf)
kdf_from_proto (kdf_pbkdf m) = do
  prf ← prf_from_proto m.prf
  ok (pbkdf2 (record { dklen = m.dklen; c = m.c; salt = m.salt; prf = prf }))

-- `From<&ScryptKdf> for proto_ScryptKdf`
abbrev pub scrypt_to_proto : ScryptKdf → ProtoScryptKdf
scrypt_to_proto k = record { dklen = k.dklen; salt = k.salt; n = k.n; r = k.r; p = k.p }

abbrev prf_to_proto : PrfType → Result ConversionError ProtoPrfType
prf_to_proto hmac_sha256 = ok prf_hmac_sha256
prf_to_proto hmac_sha512 = err (unsupported_value "prf")

-- `TryFrom<&Pbkdf2> for proto_Pbkdf2`
unfoldable pub pbkdf2_to_proto : Pbkdf2 → Result ConversionError ProtoPbkdf2
pbkdf2_to_proto k = do
  prf ← prf_to_proto k.prf
  ok (record { dklen = k.dklen; c = k.c; prf = prf; salt = k.salt })

abbrev kdf_to_proto : Kdf → Result ConversionError ProtoKdfType
unfolding pbkdf2_to_proto
kdf_to_proto (scrypt k) = ok (kdf_scrypt (scrypt_to_proto k))
kdf_to_proto (pbkdf2 k) = do m ← pbkdf2_to_proto k; ok (kdf_pbkdf m)

-- `TryFrom<&proto_Encrypted> for Encrypted`
unfoldable pub encrypted_from_proto : ProtoEncrypted → Result ConversionError Encrypted
unfolding cipher_from_proto kdf_from_proto
encrypted_from_proto m = do
  cipher ← cipher_from_proto m
  kdf_type ← ok_or (field_is_empty "kdf_type") m.kdf_type
  kdf ← kdf_from_proto kdf_type
  ok (record { cipher = cipher; kdf = kdf })

abbrev mac_to_proto : MacType → ProtoMac
mac_to_proto (web3 mac_value) = record { field_type = mac_web3; value = mac_value }

abbrev mac_of_cipher : Cipher → ProtoMac
mac_of_cipher (aes128_ctr x) = mac_to_proto x.mac

-- `TryFrom<&Encrypted> for proto_Encrypted`
unfoldable pub encrypted_to_proto : Encrypted → Result ConversionError ProtoEncrypted
unfolding get_iv get_message kdf_to_proto
encrypted_to_proto e = do
  kdf ← kdf_to_proto e.kdf
  ok (record {
    field_type = cipher_aes128_ctr;
    secret = get_message e;
    iv = get_iv e;
    mac = some (mac_of_cipher e.cipher);
    kdf_type = some kdf;
  })
