-- ===== src/Convert/Json/RoundTrip.antt =====
-- What is read of a key file that src/convert/json/keyfile.rs made, and how its readers differ.
use emerald_rs.Prelude.{
  ℕ, ◌≡◌, refl, sym, ap, ◌∙◌, inl, inr, String, false, Option, none, some, length, ok, All,
  Option-cases,
}
use emerald_rs.Prelude.Bytes.{IsByte}
use emerald_rs.Util.{starts_with_0x}
use emerald_rs.Structs.{
  Instant, Kdf, scrypt, pbkdf2, hmac_sha256, hmac_sha512, MacType, web3, Aes128CtrCipher, Cipher,
  PrfType, aes128_ctr, Encrypted, EthereumPk3, ethereum_pk, PrivateKeyHolder, EthereumAddress,
}
use emerald_rs.Ethereum.Address.{
  Hex, ethereum_address_bytes, address_to_string, address_from_str-address_to_string,
}
use emerald_rs.Convert.Json.{
  EthereumJsonV3File, CoreCryptoJson, aes_128_ctr, kdf_to_json, kdf_with_salt, kdf_from_core,
  encrypted_from_core, encrypted_from_file, holder_from_file, core_from_encrypted,
  address_from_json, address_to_json, salt_of, mac_of, prf_of_json, json_of_prf,
}

abbrev pub holder_key : PrivateKeyHolder → Encrypted
holder_key h = elim h.pk [ ethereum_pk pk3 ↦ pk3.key ]

abbrev pub cipher_bytes : Cipher → Aes128CtrCipher
cipher_bytes (aes128_ctr c) = c

abbrev pub dklen_of : Kdf → ℕ
dklen_of (scrypt k) = k.dklen
dklen_of (pbkdf2 k) = k.dklen

-- Byte strings, and a derived key of 32 bytes.
pub record IsExportable (e : Encrypted) : Type 0 where
  pub encrypted_bytes : All IsByte (cipher_bytes e.cipher).encrypted
  pub iv_bytes : All IsByte (cipher_bytes e.cipher).iv
  pub mac_bytes : All IsByte (mac_of (cipher_bytes e.cipher).mac)
  pub salt_bytes : All IsByte (salt_of e.kdf)
  pub dklen_is : dklen_of e.kdf ≡ 32

-- The key file's part for what is encrypted.
abbrev pub core_of : Hex → Encrypted → CoreCryptoJson
core_of hex e = record {
  cipher = aes_128_ctr;
  cipher_text = hex.encode (cipher_bytes e.cipher).encrypted;
  cipher_params = record { iv = hex.encode (cipher_bytes e.cipher).iv };
  kdf_params = record { kdf = kdf_to_json e.kdf; dklen = 32; salt = hex.encode (salt_of e.kdf) };
  mac = hex.encode (mac_of (cipher_bytes e.cipher).mac);
}

pub core_from_encrypted_eq :
    (hex : Hex) (e : Encrypted) → core_from_encrypted hex e ≡ ok (core_of hex e)
unfolding core_from_encrypted
core_from_encrypted_eq hex e = go e.cipher
  where
    go :
        (c : Cipher)
        → core_from_encrypted hex (record { cipher = c; kdf = e.kdf })
          ≡ ok (core_of hex (record { cipher = c; kdf = e.kdf }))
    go (aes128_ctr c) = refl

prf_back : (f : PrfType) → prf_of_json (json_of_prf f) ≡ f
prf_back hmac_sha256 = refl
prf_back hmac_sha512 = refl

kdf_back :
    (hex : Hex) (kdf : Kdf)
    → dklen_of kdf ≡ 32
    → kdf_with_salt
        (record { kdf = kdf_to_json kdf; dklen = 32; salt = hex.encode (salt_of kdf) })
        (kdf_to_json kdf)
        (salt_of kdf)
      ≡ kdf
unfolding kdf_with_salt
kdf_back hex (scrypt k) h = ap (λ d. scrypt (record k { dklen = d })) (sym h)
kdf_back hex (pbkdf2 k) h =
    ap (λ d. pbkdf2 (record k { dklen = d; prf = prf_of_json (json_of_prf k.prf) })) (sym h)
    ∙ ap (λ f. pbkdf2 (record k { prf = f })) (prf_back k.prf)

cipher_back :
    (c : Cipher)
    → aes128_ctr (record {
      encrypted = (cipher_bytes c).encrypted;
      iv = (cipher_bytes c).iv;
      mac = web3 (mac_of (cipher_bytes c).mac);
    })
      ≡ c
cipher_back (aes128_ctr c) = ap (λ m. aes128_ctr (record c { mac = m })) (mac_back c.mac)
  where
    mac_back : (m : MacType) → web3 (mac_of m) ≡ m
    mac_back (web3 bs) = refl

module _ (hex : Hex) (e : Encrypted) (h : IsExportable e) where
  encrypted_same : encrypted_from_core hex (core_of hex e) ≡ some (ok e)
  unfolding encrypted_from_core kdf_from_core
  encrypted_same =
      rw
        (
          encrypted_from_core,
          hex.decode-encode (cipher_bytes e.cipher).iv h.iv_bytes,
          hex.decode-encode (mac_of (cipher_bytes e.cipher).mac) h.mac_bytes,
          hex.decode-encode (cipher_bytes e.cipher).encrypted h.encrypted_bytes,
          kdf_from_core,
          hex.decode-encode (salt_of e.kdf) h.salt_bytes,
          kdf_back hex e.kdf h.dklen_is,
        )
        (ap (λ c. some (ok (record { cipher = c; kdf = e.kdf }))) (cipher_back e.cipher))

module _ (hex : Hex) (h : PrivateKeyHolder) (label : Option String) (pk3 : EthereumPk3) where
  abbrev pub file_of : EthereumJsonV3File
  file_of = record {
    id = h.id;
    version = 3;
    address = pk3.address;
    crypto = core_of hex pk3.key;
    name = label;
    description = none;
  }

  pub holder_from_file_eq :
      (now : Instant)
      → IsExportable pk3.key
      → holder_from_file hex file_of now
        ≡ some (ok (record h { pk = ethereum_pk pk3; created_at = now }))
  unfolding holder_from_file
  holder_from_file_eq now k = rw (encrypted_same hex pk3.key k) refl

module _ (hex : Hex) where
  -- What the reader of `PrivateKeyHolder` reads of a key file, that of `EthereumPk3` reads too.
  pub encrypted_from_file-encrypted_from_core :
      (file : EthereumJsonV3File) (e : Encrypted)
      → encrypted_from_core hex file.crypto ≡ some (ok e)
      → encrypted_from_file hex file ≡ ok e
  unfolding encrypted_from_core encrypted_from_file
  encrypted_from_file-encrypted_from_core file e made =
      elim (Option-cases (hex.decode file.crypto.cipher_params.iv)) [
        | inl bad ↦ absurd (cc (rw (encrypted_from_core, bad) at made))
        | inr (iv, e2) ↦ elim (Option-cases (hex.decode file.crypto.mac)) [
          | inl bad ↦ absurd (cc (rw (encrypted_from_core, e2, bad) at made))
          | inr (mac, e3) ↦ elim (Option-cases (hex.decode file.crypto.cipher_text)) [
            | inl bad ↦ absurd (cc (rw (encrypted_from_core, e2, e3, bad) at made))
            | inr (text, e1) ↦ elim (Option-cases (hex.decode file.crypto.kdf_params.salt)) [
              | inl bad ↦
                  absurd (cc (rw (encrypted_from_core, e2, e3, e1, kdf_from_core, bad) at made))
              | inr (salt, e4) ↦
                  rw (encrypted_from_file, e1, e2, e3, e4)
                    (cc (rw (encrypted_from_core, e2, e3, e1, kdf_from_core, e4) at made))
            ]
          ]
        ]
      ]

  -- An address of 20 bytes is read back from the text without prefix that is written for it, as
  -- hexadecimal digits do not begin with "0x".
  pub address_from_json-address_to_json :
      (a : EthereumAddress)
      → length a ≡ ethereum_address_bytes
      → All IsByte a
      → starts_with_0x (hex.encode a) ≡ false
      → address_from_json hex (address_to_json hex a) ≡ ok a
  unfolding address_from_json address_to_json address_to_string
  address_from_json-address_to_json a n bytes digits =
      rw digits (address_from_str-address_to_string hex a n bytes)
