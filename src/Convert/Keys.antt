-- ===== src/Convert/Keys.antt =====
-- src/convert/proto/pk.rs: stored private keys as bytes.
pub mod RoundTrip
use emerald_rs.Prelude.{ℕ, Option, some, none, List, [], Result, ok, err, ok_or, ◌>>=◌, ◌>>◌}
use emerald_rs.Structs.{
  ConversionError, field_is_empty, invalid_field_value, EthereumAddress, EthereumPk3, ethereum_pk,
  PrivateKeyHolder,
}
use emerald_rs.Ethereum.Address.{EthereumError, address_from_str, address_to_string}
use emerald_rs.Convert.Messages.{
  file_pk, ProtoPkType, ethereum, other, ProtoEthereumPk3, ProtoEthereumPrivateKey, ProtoPrivateKey,
}
use emerald_rs.Convert.Crates.{ConvertLib, Wire}
use emerald_rs.Convert.Secrets.{encrypted_from_proto, encrypted_to_proto}
use emerald_rs.Convert.Paths.{instant_to_proto, instant_from_proto}

-- `Ok(a) => Some(a), Err(_) => None`
abbrev parsed : Result EthereumError EthereumAddress → Option EthereumAddress
parsed (ok a) = some a
parsed (err _) = none

module _ (lib : ConvertLib) where
  abbrev ethereum_pk_from_proto : ProtoEthereumPk3 → Result ConversionError EthereumPk3
  unfolding encrypted_from_proto address_from_str
  ethereum_pk_from_proto m = do
    v ← ok_or (field_is_empty "encrypted") m.value
    key ← encrypted_from_proto v
    ok (record { address = parsed (address_from_str lib.hex m.address); key = key })

  unfoldable pub pk_from_proto : ProtoPrivateKey → Result ConversionError PrivateKeyHolder
  unfolding ethereum_pk_from_proto
  pk_from_proto m = elim m.pk [
    | some kind ↦ elim kind [
      | ethereum e ↦ (do
        pk ← ok_or (field_is_empty "pk") e.pk
        result ← ethereum_pk_from_proto pk
        id ← ok_or (invalid_field_value "id") (lib.from_slice m.id)
        ok (record {
          id = id;
          pk = ethereum_pk result;
          created_at = instant_from_proto lib m.created_at;
        }))
      | other ↦ err (invalid_field_value "pk")
    ]
    | none ↦ err (invalid_field_value "pk")
  ]

  -- `TryFrom<&[u8]> for PrivateKeyHolder`
  unfoldable pub pk_from_bytes :
      Wire ProtoPrivateKey → List ℕ → Result ConversionError PrivateKeyHolder
  unfolding pk_from_proto
  pk_from_bytes wire bs = do m ← wire.parse_from_bytes bs; pk_from_proto m

  -- A missing address stays the default, an empty text.
  abbrev address_text : Option EthereumAddress → List ℕ
  unfolding address_to_string
  address_text (some a) = address_to_string lib.hex a
  address_text none = []

  unfoldable pub pk_to_proto : PrivateKeyHolder → Result ConversionError ProtoPrivateKey
  unfolding encrypted_to_proto address_text
  pk_to_proto k = elim k.pk [
    | ethereum_pk it ↦ (do
      v ← encrypted_to_proto it.key
      ok (record {
        file_type = file_pk;
        id = lib.as_bytes k.id;
        created_at = instant_to_proto lib k.created_at;
        pk = some (
            ethereum (record {
              pk = some (record { address = address_text it.address; value = some v });
            }));
      }))
  ]

  -- `TryFrom<PrivateKeyHolder> for Vec<u8>`
  unfoldable pub pk_to_bytes :
      Wire ProtoPrivateKey → PrivateKeyHolder → Result ConversionError (List ℕ)
  unfolding pk_to_proto
  pk_to_bytes wire k = do m ← pk_to_proto k; wire.write_to_bytes m
