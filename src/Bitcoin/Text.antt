-- ===== src/Bitcoin/Text.antt =====
-- The text of an extended public key: `FromStr` and `ToString` of `XPub` in src/blockchain/bitcoin.rs.
-- A text is the list of its UTF-8 bytes, a public key its 33 bytes in compressed form.
pub mod RoundTrip
use emerald_rs.Prelude.{
  ℕ, zero, suc, ◌+◌, ◌-◌, ◌^◌, ◌<◌, ◌≡◌, ◌==◌, refl, sym, ap, ◌∙◌, if◌then◌else◌, not, String,
  Option, none, some, List, [], ◌∷◌, ◌++◌, length, take, drop, get_elem?, Result, ok, err, ok_or,
  ◌>>=◌, ◌>>◌, arith, length-append, All,
}
use emerald_rs.Prelude.Bytes.{IsByte, be_value, be_bytes, be_value-be_bytes, length-be_bytes}
use emerald_rs.Structs.{
  ConversionError, invalid_base58, invalid_length, other_error, XPub, ExtendedPubKey,
}
use emerald_rs.Bitcoin.{xpub_version, type_of_version}

-- Base58 with a checksum and the parser of public keys (crate `bitcoin`), and the reader and writer of
-- 32 bits (crate `byteorder`).
pub record TextLib : Type 0 where
  pub from_check : List ℕ → Option (List ℕ)
  pub check_encode_slice : List ℕ → List ℕ
  pub public_key_from_slice : List ℕ → Option (List ℕ)
  pub read_u32 : List ℕ → ℕ
  pub write_u32 : ℕ → List ℕ
  pub from_check-check_encode_slice :
      (bs : List ℕ) → All IsByte bs → from_check (check_encode_slice bs) ≡ some bs
  pub read_u32_lem : (bs : List ℕ) → length bs ≡ 4 → read_u32 bs ≡ be_value bs
  pub write_u32_lem : (x : ℕ) → x < 2 ^ 32 → write_u32 x ≡ be_bytes 4 x

-- `&data[i..j]`
abbrev slice : ℕ → ℕ → List ℕ → List ℕ
slice i j xs = take (j - i) (drop i xs)

-- The fields of a key as bytes: version, depth, fingerprint, child number, chain code and key.
abbrev pub fields : List ℕ → ℕ → List ℕ → List ℕ → List ℕ → List ℕ → List ℕ
fields version depth parent child chain key =
    version ++ depth ∷ (parent ++ (child ++ (chain ++ key)))

module _ (lib : TextLib) where
  -- `XPub::from_str`
  unfoldable pub xpub_from_str : List ℕ → Result ConversionError XPub
  xpub_from_str text = do
    data_bytes ← ok_or invalid_base58 (lib.from_check text)
    if not (length data_bytes == 78) then err invalid_length else do
      (network, address_type) ← type_of_version (lib.read_u32 (slice 0 4 data_bytes))
      depth ← ok_or invalid_length (get_elem? data_bytes 4)
      public_key ← ok_or other_error (lib.public_key_from_slice (slice 45 78 data_bytes))
      ok (record {
        value = record {
          network = network;
          depth = depth;
          parent_fingerprint = slice 5 9 data_bytes;
          child_number = lib.read_u32 (slice 9 13 data_bytes);
          chain_code = slice 13 45 data_bytes;
          public_key = public_key;
        };
        address_type = address_type;
      })

  -- `XPub::to_string`
  unfoldable pub xpub_to_string : XPub → List ℕ
  xpub_to_string x = lib.check_encode_slice (
      fields (lib.write_u32 (xpub_version x.address_type x.value.network)) x.value.depth
        x.value.parent_fingerprint (lib.write_u32 x.value.child_number) x.value.chain_code
        x.value.public_key)
