-- ===== src/Tests/Instances.antt =====
-- Concrete functions in place of the crates of bytes, numbers and cryptography.
use native.Mathlib.Decide.{dec_lt}
use emerald_rs.Prelude.{
  ℕ, zero, suc, ◌+◌, ◌-◌, ◌/◌, ◌%◌, ◌^◌, ◌<◌, ◌≤◌, ◌≡◌, refl, ap, arith, List, [], ◌∷◌, length,
  replicate, length-replicate, All, ok, take,
}
use emerald_rs.Prelude.Bytes.{
  IsByte, be_value, be_bytes, be_value-be_bytes, length-be_bytes, be_bytes-IsByte, pow-suc_256,
}
use emerald_rs.Util.{BigEndian, bytes_count}
use emerald_rs.Util.Laws.{bytes_count_bounds}
use emerald_rs.Mnemonic.{Crates}
use emerald_rs.Crypto.{CryptoLib}

abbrev pub big_endian : BigEndian
big_endian = record {
  read_u64 = be_value;
  write_u16 = be_bytes 2;
  write_u32 = be_bytes 4;
  write_u64 = be_bytes 8;
  read_u64_lem = λ bs h. refl;
  write_u16_lem = λ x h. refl;
  write_u32_lem = λ x h. refl;
  write_u64_lem = λ x h. refl;
}

pow_mono : (n k : ℕ) → 256 ^ n ≤ 256 ^ (k + n)
pow_mono n zero = let e : 0 + n ≡ n = omega arith in rw e (omega arith)
pow_mono n (suc k) =
    let e : suc k + n ≡ suc (k + n) = omega arith in
    rw e (omega (arith, pow_mono n k, pow-suc_256 (k + n)))

count_short : (x n : ℕ) → 0 < x → x < 256 ^ suc n → bytes_count x < suc (suc n)
count_short x n pos h = elim (dec_lt (bytes_count x) (suc (suc n))) [
  | yes lt ↦ lt
  | no ge ↦
      let c : ℕ = bytes_count x - 1 in
      let split : c ≡ (c - suc n) + suc n = omega arith in
      let low : 256 ^ c ≤ x = (bytes_count_bounds x pos).0 in
      let mono : 256 ^ suc n ≤ 256 ^ c = rw split (pow_mono (suc n) (c - suc n)) in
      absurd (omega arith)
]

abbrev pub shortest_bytes : ℕ → List ℕ
shortest_bytes zero = 0 ∷ []
shortest_bytes (suc x) = be_bytes (bytes_count (suc x)) (suc x)

pub shortest_bytes_lem :
    (x n : ℕ)
    → x < 256 ^ suc n
    → (be_value (shortest_bytes x) ≡ x)
      × (length (shortest_bytes x) < suc (suc n))
      × All IsByte (shortest_bytes x)
shortest_bytes_lem zero n h = unfold be_value in (refl, omega arith, (omega arith, tt))
shortest_bytes_lem (suc x) n h =
    let c = bytes_count (suc x) in
    (
      be_value-be_bytes c (suc x) (bytes_count_bounds (suc x) (omega arith)).1,
      rw (length-be_bytes c (suc x)) (count_short (suc x) n (omega arith) h),
      be_bytes-IsByte c (suc x),
    )

pub replicate-IsByte : (n : ℕ) → All IsByte (replicate n 0)
replicate-IsByte zero = tt
replicate-IsByte (suc n) = (omega arith, replicate-IsByte n)

-- A mask is used below a power of two.
abbrev pub mask_with : ℕ → ℕ → ℕ
mask_with x m = x % suc m

pow_pos : (k : ℕ) → 0 < 2 ^ k
pow_pos zero = omega arith
pow_pos (suc k) = omega (arith, pow_pos k)

pub mask_with_lem : (x k : ℕ) → mask_with x (2 ^ k - 1) ≡ x % 2 ^ k
mask_with_lem x k =
    let e : suc (2 ^ k - 1) ≡ 2 ^ k = omega (arith, pow_pos k) in ap (λ (m : ℕ). x % m) e

-- The digest of every text is 32 zeros.
abbrev pub crates : Crates
crates = record {
  shr = λ x k. x / 2 ^ k;
  bitand = mask_with;
  from_bytes_be = be_value;
  to_bytes_be = shortest_bytes;
  sha256 = λ _. replicate 32 0;
  shr_lem = λ x k. refl;
  bitand_lem = mask_with_lem;
  from_bytes_be_lem = λ bs h. refl;
  to_bytes_be_lem = shortest_bytes_lem;
  sha256_lem = λ bs. (refl, replicate-IsByte 32);
}

-- The keystream is empty, the digest a copy, and a key is made of zeros.
abbrev pub crypto_lib : CryptoLib
crypto_lib = record {
  log2_round = λ n. 13;
  scrypt_key = λ password salt log_n r p dklen. ok (replicate dklen 0);
  pbkdf2_sha256 = λ password salt rounds dklen. replicate dklen 0;
  pbkdf2_sha512 = λ password salt rounds dklen. replicate dklen 1;
  keystream = λ key iv xs. xs;
  keccak256 = λ xs. xs;
  address_of_key = λ key. take 20 key;
  keystream_twice = λ key iv xs. refl;
  scrypt_length = λ password salt log_n r p dklen key h. cc (length-replicate {0} {A = ℕ} dklen 0);
}
