-- ===== src/Ethereum/Address.antt =====
-- src/blockchain/ethereum/address.rs and the keys of signature.rs: bytes and their hexadecimal texts. A
-- text is the list of its UTF-8 bytes.
use emerald_rs.Prelude.{
  ℕ, ◌*◌, ◌≡◌, ◌==◌, ==_iff, arith, if◌then◌else◌, not, ◌&&◌, Option, some, List, ◌∷◌, length, drop,
  All, Result, ok, err, ok_or, ◌>>=◌,
}
use emerald_rs.Prelude.Bytes.{IsByte}
use emerald_rs.Util.{to_arr, starts_with_0x}
use emerald_rs.Structs.{EthereumAddress}

-- The `hex` crate.
pub record Hex : Type 0 where
  pub encode : List ℕ → List ℕ
  pub decode : List ℕ → Option (List ℕ)
  pub decode-encode : (bs : List ℕ) → All IsByte bs → decode (encode bs) ≡ some bs

-- src/blockchain/error.rs
pub data EthereumError : Type 0 where
  invalid_length : ℕ → EthereumError
  invalid_hex_length : List ℕ → EthereumError
  unexpected_hex_encoding ecdsa_crypto : EthereumError
  -- a panic of `to_arr`
  panic : EthereumError

abbrev pub ethereum_address_bytes : ℕ
ethereum_address_bytes = 20

-- `EthereumAddress::try_from(&[u8])`
unfoldable pub address_of_bytes : List ℕ → Result EthereumError EthereumAddress
unfolding to_arr
address_of_bytes bs =
    if not (length bs == ethereum_address_bytes)
    then err (invalid_length (length bs))
    else ok_or panic (to_arr ethereum_address_bytes bs)

module _ (hex : Hex) where
  -- `EthereumAddress::from_str`
  unfoldable pub address_from_str : List ℕ → Result EthereumError EthereumAddress
  unfolding starts_with_0x address_of_bytes
  address_from_str s =
      if not (length s == ethereum_address_bytes * 2) && not (starts_with_0x s)
      then err (invalid_hex_length s)
      else do
        let value = if starts_with_0x s then drop 2 s else s
        bs ← ok_or unexpected_hex_encoding (hex.decode value)
        address_of_bytes bs

  -- `Display for EthereumAddress`
  unfoldable pub address_to_string : EthereumAddress → List ℕ
  address_to_string a = b'0' ∷ b'x' ∷ hex.encode a

  -- The text of an address of 20 bytes reads back as the address.
  pub address_from_str-address_to_string :
      (a : EthereumAddress)
      → length a ≡ ethereum_address_bytes
      → All IsByte a
      → address_from_str (address_to_string a) ≡ ok a
  unfolding address_from_str address_to_string
  address_from_str-address_to_string a n bytes =
      rw (hex.decode-encode a bytes, (==_iff (length a) 20).1 n) (ground arith)
