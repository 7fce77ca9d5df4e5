-- ===== src/Convert/Addresses.antt =====
-- src/convert/proto/address.rs: addresses and extended keys as messages.
pub mod RoundTrip
use emerald_rs.Prelude.{
  ℕ, leb, if◌then◌else◌, not, ◌==◌, Option, some, none, List, length, Result, ok, err, map_err,
  ok_or, ◌>>=◌, ◌>>◌, ◌≡◌,
}
use emerald_rs.Prelude.Bytes.{be_value, be_bytes}
use emerald_rs.Chains.{Network, blockchain_of_u32, as_bitcoin_network}
use emerald_rs.Structs.{
  ConversionError, invalid_field_value, other_error, XPub, ExtendedPubKey, AddressType, p2pkh, p2sh,
  p2wpkh_in_p2sh, p2wsh_in_p2sh, p2wpkh, p2wsh, AddressRef, ethereum_address, extended_pub,
  bitcoin_address,
}
use emerald_rs.Ethereum.Address.{address_from_str, address_to_string}
use emerald_rs.Convert.Messages.{
  ProtoAddressType, bitcoin_p2wpkh, bitcoin_p2wsh, bitcoin_p2pkh, bitcoin_p2sh, bitcoin_p2wpkh_p2sh,
  bitcoin_p2wsh_p2sh, unspecified, ethereum, ProtoBip32Public, ProtoAddress, ProtoAddressRefType,
  xpub, plain_address, BlockchainId, chain_bitcoin, chain_testnet_bitcoin, blockchain_id_value,
}
use emerald_rs.Convert.Crates.{ConvertLib}

-- `From<AddressType> for proto_AddressType`
abbrev pub address_type_to_proto : AddressType → ProtoAddressType
address_type_to_proto p2pkh = bitcoin_p2pkh
address_type_to_proto p2sh = bitcoin_p2sh
address_type_to_proto p2wpkh_in_p2sh = bitcoin_p2wpkh_p2sh
address_type_to_proto p2wsh_in_p2sh = bitcoin_p2wsh_p2sh
address_type_to_proto p2wpkh = bitcoin_p2wpkh
address_type_to_proto p2wsh = bitcoin_p2wsh

-- `TryFrom<proto_AddressType> for AddressType`, with the number of any other type in proto/address.proto
abbrev pub address_type_from_proto : ProtoAddressType → Result ConversionError AddressType
address_type_from_proto bitcoin_p2wpkh = ok p2wpkh
address_type_from_proto bitcoin_p2wsh = ok p2wsh
address_type_from_proto bitcoin_p2pkh = ok p2pkh
address_type_from_proto bitcoin_p2sh = ok p2sh
address_type_from_proto bitcoin_p2wpkh_p2sh = ok p2wpkh_in_p2sh
address_type_from_proto bitcoin_p2wsh_p2sh = ok p2wsh_in_p2sh
address_type_from_proto unspecified = err (invalid_field_value "0")
address_type_from_proto ethereum = err (invalid_field_value "10")

abbrev pub network_to_proto : Network → BlockchainId
network_to_proto Network.bitcoin = chain_bitcoin
network_to_proto Network.testnet = chain_testnet_bitcoin
network_to_proto Network.regtest = chain_testnet_bitcoin

-- `From<&XPub> for proto_Bip32Public`
unfoldable pub xpub_to_proto : XPub → ProtoBip32Public
xpub_to_proto x = record {
  level = x.value.depth;
  parent_fingerprint = be_value x.value.parent_fingerprint;
  child_number = x.value.child_number;
  chaincode = x.value.chain_code;
  point = x.value.public_key;
  address_type = address_type_to_proto x.address_type;
  network = network_to_proto x.value.network;
}

-- `From<&AddressRef> for proto_Address`
unfoldable pub address_to_proto : ConvertLib → AddressRef → ProtoAddress
unfolding xpub_to_proto
address_to_proto lib (ethereum_address address) = record {
  address_type = some (plain_address (address_to_string lib.hex address));
}
address_to_proto lib (extended_pub x) = record { address_type = some (xpub (xpub_to_proto x)) }
address_to_proto lib (bitcoin_address address) = record {
  address_type = some (plain_address address);
}

-- `TryFrom<&proto_Bip32Public> for XPub`
unfoldable pub xpub_from_proto : ConvertLib → ProtoBip32Public → Result ConversionError XPub
xpub_from_proto lib m =
    if not (leb m.level 255)
    then err (invalid_field_value "level")
    else if not (length m.chaincode == 32)
    then err (invalid_field_value "chain_code")
    else do
      public_key ← ok_or (invalid_field_value "public_key") (lib.public_key_from_slice m.point)
      address_type ← address_type_from_proto m.address_type
      blockchain ←
          map_err (λ _. invalid_field_value "network")
            (blockchain_of_u32 (blockchain_id_value m.network))
      ok (record {
        value = record {
          network = as_bitcoin_network blockchain;
          depth = m.level;
          parent_fingerprint = be_bytes 4 m.parent_fingerprint;
          child_number = m.child_number;
          chain_code = m.chaincode;
          public_key = public_key;
        };
        address_type = address_type;
      })

abbrev address_ref_from_proto :
    ConvertLib → ProtoAddressRefType → Result ConversionError (Option AddressRef)
unfolding xpub_from_proto
address_ref_from_proto lib (plain_address a) = do
  address ← map_err (λ _. other_error) (address_from_str lib.hex a)
  ok (some (ethereum_address address))
address_ref_from_proto lib (xpub m) = do x ← xpub_from_proto lib m; ok (some (extended_pub x))

-- `TryFrom<&proto_Address> for Option<AddressRef>`
unfoldable pub address_from_proto :
    ConvertLib → ProtoAddress → Result ConversionError (Option AddressRef)
unfolding address_ref_from_proto
address_from_proto lib m = elim m.address_type [
  | some a ↦ address_ref_from_proto lib a
  | none ↦ ok none
]
