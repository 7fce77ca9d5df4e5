-- ===== src/Convert/Keys/RoundTrip.antt =====
-- Private keys read back from the bytes that are written of them.
use emerald_rs.Prelude.{
  ℕ, ◌^◌, ◌<◌, ◌≡◌, refl, String, Option, some, none, List, All, length, ok, bind-eq_ok,
}
use emerald_rs.Prelude.Bytes.{IsByte}
use emerald_rs.Structs.{
  Uuid, Instant, EthereumAddress, EthereumPk3, PrivateKeyType, ethereum_pk, PrivateKeyHolder,
}
use emerald_rs.Ethereum.Address.{
  address_from_str, address_to_string, address_from_str-address_to_string,
}
use emerald_rs.Crypto.{CryptoLib, create_ethereum_raw, decrypt_holder}
use emerald_rs.Crypto.RoundTrip.{decrypt_holder-create_ethereum_raw, create_ethereum_raw_inv}
use emerald_rs.Convert.Messages.{file_pk, ethereum, ProtoPrivateKey}
use emerald_rs.Convert.Crates.{ConvertLib, Wire}
use emerald_rs.Convert.Secrets.{encrypted_to_proto}
use emerald_rs.Convert.Secrets.RoundTrip.{
  IsVerified, create_with_salt-IsVerified, encrypted_from_proto-encrypted_to_proto,
}
use emerald_rs.Convert.Paths.{instant_to_proto, IsDate, timestamp_round, in_millis}
use emerald_rs.Convert.Keys.{
  parsed, address_text, pk_from_proto, pk_to_proto, pk_from_bytes, pk_to_bytes,
}

abbrev pub IsAddress : EthereumAddress → Type 0
IsAddress a = (length a ≡ 20) × All IsByte a

abbrev pub IsAddressOption : Option EthereumAddress → Type 0
IsAddressOption none = Unit {0}
IsAddressOption (some a) = IsAddress a

abbrev pub holder_in_millis : PrivateKeyHolder → PrivateKeyHolder
holder_in_millis k = record k { created_at = in_millis k.created_at }

module _ (lib : ConvertLib) where
  -- What a holder of the key `key` for the address `address` may hold to be read back.
  pub record IsStorableKeyOf (k : PrivateKeyHolder) (it : EthereumPk3) : Type 0 where
    pub uuid : k.id < 2 ^ 128
    pub date_kept : IsDate lib k.created_at
    pub address_kept : IsAddressOption it.address
    pub verified : IsVerified it.key.kdf

  abbrev pub IsStorableHolder : PrivateKeyHolder → Type 0
  IsStorableHolder k = elim k.pk [ ethereum_pk it ↦ IsStorableKeyOf k it ]

  parsed-address_text :
      (a : Option EthereumAddress)
      → IsAddressOption a
      → parsed (address_from_str lib.hex (address_text lib a)) ≡ a
  unfolding address_text address_from_str address_to_string
  parsed-address_text none h = refl
  parsed-address_text (some a) (n, bytes) =
      rw (address_from_str-address_to_string lib.hex a n bytes) refl

  pk_from_proto-pk_to_proto :
      (k : PrivateKeyHolder) (m : ProtoPrivateKey)
      → IsStorableHolder k
      → pk_to_proto lib k ≡ ok m
      → pk_from_proto lib m ≡ ok (holder_in_millis k)
  unfolding pk_to_proto pk_from_proto
  pk_from_proto-pk_to_proto k m h made = go k.pk refl h made
    where
      go :
          (p : PrivateKeyType)
          → k.pk ≡ p
          → IsStorableHolder (record k { pk = p })
          → pk_to_proto lib (record k { pk = p }) ≡ ok m
          → pk_from_proto lib m ≡ ok (holder_in_millis k)
      go (ethereum_pk it) is h made =
          let (v, put, done) = bind-eq_ok (encrypted_to_proto it.key) _ made in
          let same : ◌≡◌ {A = ProtoPrivateKey}
              (record {
                file_type = file_pk;
                id = lib.as_bytes k.id;
                created_at = instant_to_proto lib k.created_at;
                pk = some (
                    ethereum (record {
                      pk = some (record { address = address_text lib it.address; value = some v });
                    }));
              })
              m =
            cc in
          rw
            (
              ← same,
              encrypted_from_proto-encrypted_to_proto it.key v h.verified put,
              parsed-address_text it.address h.address_kept,
              lib.from_slice-as_bytes k.id h.uuid,
              timestamp_round lib k.created_at h.date_kept,
              ← is,
            )
            refl

  -- A private key that can be stored is read back from its bytes with its date in milliseconds.
  pub pk_from_bytes-pk_to_bytes :
      (wire : Wire ProtoPrivateKey) (k : PrivateKeyHolder) (bs : List ℕ)
      → IsStorableHolder k
      → pk_to_bytes lib wire k ≡ ok bs
      → pk_from_bytes lib wire bs ≡ ok (holder_in_millis k)
  unfolding pk_from_bytes pk_to_bytes
  pk_from_bytes-pk_to_bytes wire k bs h made =
      let (m, built, written) = bind-eq_ok (pk_to_proto lib k) _ made in
      rw (wire.parse_from_bytes-write_to_bytes m bs written) (pk_from_proto-pk_to_proto k m h built)

  -- A private key that is made with a salt of 32 bytes, an identifier of 16 bytes, a date in
  -- range and an address of 20 bytes, and is written to bytes, is read back as it was, but that its
  -- date has lost what is below a millisecond, and the password that it was made with decrypts what
  -- is read back to the key.
  pub decrypt_holder-pk_from_bytes :
      (crypto : CryptoLib) (wire : Wire ProtoPrivateKey) (pk : List ℕ) (password : String)
      (salt : List ℕ) (iv? : Option (List ℕ)) (id : Uuid) (now : Instant) (h : PrivateKeyHolder)
      (bs : List ℕ)
      → length salt ≡ 32
      → id < 2 ^ 128
      → IsDate lib now
      → IsAddress (crypto.address_of_key pk)
      → create_ethereum_raw crypto pk password (some salt) iv? id now ≡ ok h
      → pk_to_bytes lib wire h ≡ ok bs
      → (pk_from_bytes lib wire bs ≡ ok (holder_in_millis h))
        × (decrypt_holder crypto (holder_in_millis h) password ≡ ok pk)
  unfolding decrypt_holder
  decrypt_holder-pk_from_bytes crypto wire pk password salt iv? id now h bs n uuid date addr made
        put =
      let (used, key, drawn, kdf, same) =
        create_ethereum_raw_inv crypto pk password (some salt) iv? id now h made in
      let drawn_salt : salt ≡ used = cc in
      let storable : IsStorableHolder (record {
        id = id;
        pk = ethereum_pk (record { address = some (crypto.address_of_key pk); key = key });
        created_at = now;
      }) =
        record {
          uuid = uuid;
          date_kept = date;
          address_kept = addr;
          verified = rw (kdf, ← drawn_salt) (create_with_salt-IsVerified salt n);
        } in
      (
        pk_from_bytes-pk_to_bytes wire h bs (rw same storable) put,
        (decrypt_holder-create_ethereum_raw crypto pk password (some salt) iv? id now h made).0,
      )
