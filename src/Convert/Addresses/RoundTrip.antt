-- ===== src/Convert/Addresses/RoundTrip.antt =====
-- Addresses read back from their messages.
use emerald_rs.Prelude.{
  ℕ, ◌^◌, ◌<◌, ◌≡◌, ◌≢◌, refl, sym, ◌∙◌, ==_iff, arith, some, true, ◌==◌, List, length, All, ok,
  leb,
}
use emerald_rs.Prelude.Bytes.{
  IsByte, be_value, be_bytes, be_value-lt, be_value-be_bytes, be_value_injective, be_bytes-IsByte,
  length-be_bytes,
}
use emerald_rs.Chains.{Network, Blockchain, as_bitcoin_network, blockchain_of_u32}
use emerald_rs.Structs.{
  AddressRef, ethereum_address, extended_pub, bitcoin_address, XPub, AddressType,
}
use emerald_rs.Ethereum.Address.{address_from_str-address_to_string}
use emerald_rs.Bitcoin.Text.RoundTrip.{IsSerializable}
use emerald_rs.Convert.Messages.{blockchain_id_value}
use emerald_rs.Convert.Crates.{ConvertLib}
use emerald_rs.Convert.Addresses.{
  address_type_to_proto, address_type_from_proto, network_to_proto, xpub_to_proto, xpub_from_proto,
  address_to_proto, address_from_proto,
}

module _ (lib : ConvertLib) where
  -- The parts of the key fit the message, the parser accepts its point, and the network is stored.
  pub record IsStorableKey (x : XPub) : Type 0 where
    pub serializable : IsSerializable x
    pub stored_network : x.value.network ≢ Network.regtest
    pub accepted : lib.public_key_from_slice x.value.public_key ≡ some x.value.public_key

  -- A single Bitcoin address has no form of its own in the message.
  abbrev pub IsStorableAddress : AddressRef → Type 0
  IsStorableAddress (ethereum_address a) = (length a ≡ 20) × All IsByte a
  IsStorableAddress (extended_pub x) = IsStorableKey x
  IsStorableAddress (bitcoin_address _) = ⊥

  fingerprint_round : (bs : List ℕ) → length bs ≡ 4 → All IsByte bs → be_bytes 4 (be_value bs) ≡ bs
  fingerprint_round bs n bytes =
      let lt : be_value bs < 256 ^ 4 = rw n at (be_value-lt bs bytes) in
      be_value_injective (be_bytes 4 (be_value bs)) bs (be_bytes-IsByte 4 (be_value bs)) bytes
        (length-be_bytes 4 (be_value bs) ∙ sym n) (be_value-be_bytes 4 (be_value bs) lt)

  le→leb : (n : ℕ) → n < 256 → leb n 255 ≡ true
  le→leb n h = ground arith

  type_round : (t : AddressType) → address_type_from_proto (address_type_to_proto t) ≡ ok t
  type_round t = ground arith

  network_round :
      (n : Network)
      → n ≢ Network.regtest
      → (b : Blockchain) × (blockchain_of_u32 (blockchain_id_value (network_to_proto n)) ≡ ok b)
        × (as_bitcoin_network b ≡ n)
  unfolding blockchain_of_u32 blockchain_id_value as_bitcoin_network
  network_round Network.bitcoin h = (Blockchain.bitcoin, refl, refl)
  network_round Network.testnet h = (Blockchain.bitcoin_testnet, refl, refl)
  network_round Network.regtest h = absurd (h refl)

  -- A key that fits is read back as it was.
  pub xpub_from_proto-xpub_to_proto :
      (x : XPub) → IsStorableKey x → xpub_from_proto lib (xpub_to_proto x) ≡ ok x
  unfolding xpub_from_proto xpub_to_proto
  xpub_from_proto-xpub_to_proto x h =
      let f =
        fingerprint_round x.value.parent_fingerprint h.serializable.parent_length
          h.serializable.parent_bytes in
      let (b, read, same) = network_round x.value.network h.stored_network in
      let small : leb x.value.depth 255 ≡ true = le→leb x.value.depth h.serializable.depth_byte in
      let fits : (length x.value.chain_code == 32) ≡ true =
        (==_iff _ 32).1 h.serializable.chain_length in
      rw (small, fits, h.accepted, type_round x.address_type, read, same, f) refl

  -- An address that has a form in the message is read back as it was.
  pub address_from_proto-address_to_proto :
      (a : AddressRef)
      → IsStorableAddress a
      → address_from_proto lib (address_to_proto lib a) ≡ ok (some a)
  unfolding address_from_proto address_to_proto
  address_from_proto-address_to_proto (ethereum_address a) (n, bytes) =
      rw (address_from_str-address_to_string lib.hex a n bytes) refl
  address_from_proto-address_to_proto (extended_pub x) h =
      rw (xpub_from_proto-xpub_to_proto x h) refl
  address_from_proto-address_to_proto (bitcoin_address _) h = absurd h
