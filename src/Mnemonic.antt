-- ===== src/Mnemonic.antt =====
-- src/mnemonic.rs: BIP-39 phrases. Entropy bytes and a checksum are cut into indexes of 11 bits.
pub mod Size
pub mod Checksum
pub mod Indexes
pub mod Phrase
pub mod Sentence
use emerald_rs.Prelude.{
  ℕ, zero, suc, ◌+◌, ◌-◌, ◌*◌, ◌/◌, ◌%◌, ◌^◌, ◌<◌, ◌≡◌, Bool, true, false, not, ◌||◌, ◌&&◌, bit_and,
  bit_or, List, [], ◌∷◌, ◌++◌, map, Option, none, some, ltb, leb, ◌==◌, if◌then◌else◌, length,
  replicate, get_elem?, All, is_empty, Result, ok, err, ok_or, ◌>>=◌, ◌>>◌,
}
use emerald_rs.Prelude.Bytes.{IsByte, be_value}

-- The messages of `Error::MnemonicError`. `panic` stands for a panic of the program.
pub data MnemonicError : Type 0 where
  invalid_mnemonic_size : ℕ → MnemonicError
  invalid_entropy_size : ℕ → MnemonicError
  invalid_entropy_length : ℕ → ℕ → MnemonicError
  cannot_extract_indexes : MnemonicError
  empty_sentence : MnemonicError
  panic : MnemonicError

-- `Language` has one value.
pub data Language : Type 0 where
  english : Language

-- Words are lists of code points.
pub record Mnemonic : Type 0 where
  pub language : Language
  pub words : List (List ℕ)

pub record MnemonicSize : Type 0 where
  pub bits_length : ℕ
  pub checksum_length : ℕ

unfoldable pub from_length : ℕ → Result MnemonicError MnemonicSize
from_length words =
    if words == 12
    then ok (record { bits_length = 128; checksum_length = 4 })
    else if words == 15
    then ok (record { bits_length = 160; checksum_length = 5 })
    else if words == 18
    then ok (record { bits_length = 192; checksum_length = 6 })
    else if words == 21
    then ok (record { bits_length = 224; checksum_length = 7 })
    else if words == 24
    then ok (record { bits_length = 256; checksum_length = 8 })
    else err (invalid_mnemonic_size words)

-- `MnemonicSize::standard()`; an `unwrap` of an error would be a panic.
unfoldable pub standard : Result MnemonicError (List MnemonicSize)
unfolding from_length
standard = do
  a ← from_length 12
  b ← from_length 15
  c ← from_length 18
  d ← from_length 21
  e ← from_length 24
  ok (a ∷ b ∷ c ∷ d ∷ e ∷ [])

unfoldable pub words_count : MnemonicSize → ℕ
words_count size = (size.bits_length + size.checksum_length) / 11

unfoldable pub entropy_bytes_length : MnemonicSize → ℕ
entropy_bytes_length size = size.bits_length / 8

unfoldable pub full_bytes_length : MnemonicSize → ℕ
full_bytes_length size =
    let rem = 8 - (size.bits_length + size.checksum_length) % 8 in
    let rem' = if rem == 8 then 0 else rem in (size.bits_length + size.checksum_length + rem') / 8

-- `all.iter().find(|x| x.entropy_bytes_length() == entropy_len)`
find_size : ℕ → List MnemonicSize → Option MnemonicSize
unfolding entropy_bytes_length
find_size n [] = none
find_size n (m ∷ ms) = if entropy_bytes_length m == n then some m else find_size n ms

-- `MnemonicSize::from_entropy`
unfoldable pub size_of_entropy : List ℕ → Result MnemonicError MnemonicSize
unfolding standard find_size
size_of_entropy entropy = do
  all ← standard
  ok_or (invalid_entropy_size (length entropy)) (find_size (length entropy) all)

-- The loop of `checksum_bits`: each round sets the low bit of the `u8` and shifts it left.
mask_loop : ℕ → ℕ → ℕ
mask_loop zero mask = mask
mask_loop (suc rounds) mask = mask_loop rounds (bit_or mask 1 * 2 % 256)

unfoldable pub checksum_bits : MnemonicSize → ℕ → ℕ
unfolding mask_loop
checksum_bits size full =
    if size.checksum_length == 8
    then full
    else (let mask = mask_loop size.checksum_length 0 * 2 ^ (8 - size.checksum_length - 1) % 256 in
        bit_and full mask / 2 ^ (8 - size.checksum_length))

-- What the code uses of other crates: `num::BigUint`, whose values are the numbers themselves, with
-- its conversions, shift and mask, and SHA-256, which returns 32 bytes.
pub record Crates : Type 0 where
  pub shr : ℕ → ℕ → ℕ
  pub bitand : ℕ → ℕ → ℕ
  pub from_bytes_be : List ℕ → ℕ
  pub to_bytes_be : ℕ → List ℕ
  pub sha256 : List ℕ → List ℕ
  pub shr_lem : (x k : ℕ) → shr x k ≡ x / 2 ^ k
  pub bitand_lem : (x k : ℕ) → bitand x (2 ^ k - 1) ≡ x % 2 ^ k
  pub from_bytes_be_lem : (bs : List ℕ) → All IsByte bs → from_bytes_be bs ≡ be_value bs
  pub to_bytes_be_lem :
      (x n : ℕ)
      → x < 256 ^ suc n
      → (be_value (to_bytes_be x) ≡ x)
        × (length (to_bytes_be x) < suc (suc n))
        × All IsByte (to_bytes_be x)
  pub sha256_lem : (bs : List ℕ) → (length (sha256 bs) ≡ 32) × All IsByte (sha256 bs)

module _ (crates : Crates) where
  open crates use {from_bytes_be, to_bytes_be, shr, bitand, sha256}

  -- `hash.finalize()[0]`
  unfoldable pub checksum : List ℕ → MnemonicSize → Result MnemonicError ℕ
  checksum entropy size = do
    val ← ok_or panic (get_elem? (sha256 entropy) 0)
    ok (checksum_bits size val)

  unfoldable pub with_checksum : List ℕ → ℕ → MnemonicSize → List ℕ
  with_checksum entropy sum size =
      if size.checksum_length == 8
      then entropy ++ sum ∷ []
      else (let empty_bits = (8 - size.checksum_length) % 256 in
          let copy = entropy ++ (sum * 2 ^ empty_bits % 256) ∷ [] in
          let result = to_bytes_be (shr (from_bytes_be copy) empty_bits) in
          let full_size = full_bytes_length size in
          if ltb (length result) full_size
          then replicate (full_size - length result) 0 ++ result
          else result)

  -- `to_usize`, on 64 bits
  abbrev to_usize : ℕ → Option ℕ
  to_usize v = if ltb v (2 ^ 64) then some v else none

  -- The loop of `get_indexes` over `i`, with `left` rounds to go.
  index_loop : ℕ → ℕ → ℕ → ℕ → List ℕ → Result MnemonicError (List ℕ)
  index_loop big count i zero out = ok out
  index_loop big count i (suc left) out =
      let pos = (count - 1 - i) * 11 in
      do
        v ← ok_or cannot_extract_indexes (to_usize (bitand (shr big pos) 0x7ff))
        index_loop big count (i + 1) left (out ++ v ∷ [])

  unfoldable pub get_indexes : List ℕ → MnemonicSize → Result MnemonicError (List ℕ)
  unfolding index_loop
  get_indexes entropy size =
      if not (length entropy == full_bytes_length size)
      then err (invalid_entropy_length (full_bytes_length size) (length entropy))
      else index_loop (from_bytes_be entropy) (words_count size) 0 (words_count size) []

-- `for i in &indexes { w.push(BIP39_ENGLISH_WORDLIST[*i].clone()) }`
unfoldable pub push_words : List (List ℕ) → List ℕ → Result MnemonicError (List (List ℕ))
push_words wordlist [] = ok []
push_words wordlist (i ∷ is) = do
  w ← ok_or panic (get_elem? wordlist i)
  ws ← push_words wordlist is
  ok (w ∷ ws)

-- The word list is a parameter: the code loads it from `bip39_english.txt`.
unfoldable pub from_entropy :
    Crates → List (List ℕ) → Language → List ℕ → Result MnemonicError Mnemonic
from_entropy crates wordlist lang entropy = do
  size ← size_of_entropy entropy
  sum ← checksum crates entropy size
  let ent = with_checksum crates entropy sum size
  indexes ← get_indexes crates ent size
  w ← push_words wordlist indexes
  ok (record { language = lang; words = w })
