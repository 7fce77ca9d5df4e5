-- ===== src/Mnemonic/Size.antt =====
-- The five sizes of a phrase in src/mnemonic.rs, and the byte lengths that go with them.
use emerald_rs.Prelude.{
  ℕ, ◌+◌, ◌*◌, ◌<◌, ◌≡◌, refl, sym, subst, ◌⊎◌, inl, inr, ◌↔◌, List, length, arith, ok,
}
use emerald_rs.Mnemonic.{
  MnemonicSize, from_length, size_of_entropy, words_count, entropy_bytes_length, full_bytes_length,
}

abbrev pub size12 : MnemonicSize
size12 = record { bits_length = 128; checksum_length = 4 }

abbrev pub size15 : MnemonicSize
size15 = record { bits_length = 160; checksum_length = 5 }

abbrev pub size18 : MnemonicSize
size18 = record { bits_length = 192; checksum_length = 6 }

abbrev pub size21 : MnemonicSize
size21 = record { bits_length = 224; checksum_length = 7 }

abbrev pub size24 : MnemonicSize
size24 = record { bits_length = 256; checksum_length = 8 }

-- The sizes of BIP-39.
pub data IsStandard : MnemonicSize → Type 0 where
  words12 : IsStandard size12
  words15 : IsStandard size15
  words18 : IsStandard size18
  words21 : IsStandard size21
  words24 : IsStandard size24

abbrev OneOfFive : MnemonicSize → Type 0
OneOfFive m = (m ≡ size12) ⊎ ((m ≡ size15) ⊎ ((m ≡ size18) ⊎ ((m ≡ size21) ⊎ (m ≡ size24))))

OneOfFive-IsStandard : (m : MnemonicSize) → OneOfFive m → IsStandard m
OneOfFive-IsStandard m (inl e) = subst IsStandard (sym e) words12
OneOfFive-IsStandard m (inr (inl e)) = subst IsStandard (sym e) words15
OneOfFive-IsStandard m (inr (inr (inl e))) = subst IsStandard (sym e) words18
OneOfFive-IsStandard m (inr (inr (inr (inl e)))) = subst IsStandard (sym e) words21
OneOfFive-IsStandard m (inr (inr (inr (inr e)))) = subst IsStandard (sym e) words24

from_length_cases : (n : ℕ) (m : MnemonicSize) → from_length n ≡ ok m → OneOfFive m
unfolding from_length
from_length_cases n m h = ground arith

from_length_count : (n : ℕ) (m : MnemonicSize) → from_length n ≡ ok m → words_count m ≡ n
unfolding from_length words_count
from_length_count n m h = ground arith

from_length_accepts :
    (n : ℕ) {m : MnemonicSize} → IsStandard m → words_count m ≡ n → from_length n ≡ ok m
unfolding from_length words_count
from_length_accepts n words12 e = subst (λ k. from_length k ≡ ok size12) e refl
from_length_accepts n words15 e = subst (λ k. from_length k ≡ ok size15) e refl
from_length_accepts n words18 e = subst (λ k. from_length k ≡ ok size18) e refl
from_length_accepts n words21 e = subst (λ k. from_length k ≡ ok size21) e refl
from_length_accepts n words24 e = subst (λ k. from_length k ≡ ok size24) e refl

-- A phrase of `n` words is accepted exactly when its size is standard and has `n` words.
pub from_length_lem :
    (n : ℕ) (m : MnemonicSize) → (from_length n ≡ ok m) ↔ (IsStandard m × (words_count m ≡ n))
from_length_lem n m = (
  λ h. (OneOfFive-IsStandard m (from_length_cases n m h), from_length_count n m h),
  λ p. from_length_accepts n p.0 p.1,
)

size_of_entropy_cases :
    (entropy : List ℕ) (m : MnemonicSize) → size_of_entropy entropy ≡ ok m → OneOfFive m
unfolding size_of_entropy
size_of_entropy_cases entropy m h = ground arith

entropy_length :
    (entropy : List ℕ) (m : MnemonicSize)
    → size_of_entropy entropy ≡ ok m
    → length entropy ≡ 4 * m.checksum_length
unfolding size_of_entropy
entropy_length entropy m h = ground arith

entropy_accepts :
    (entropy : List ℕ) {m : MnemonicSize}
    → IsStandard m
    → length entropy ≡ 4 * m.checksum_length
    → size_of_entropy entropy ≡ ok m
unfolding size_of_entropy
entropy_accepts entropy words12 e = rw e
entropy_accepts entropy words15 e = rw e
entropy_accepts entropy words18 e = rw e
entropy_accepts entropy words21 e = rw e
entropy_accepts entropy words24 e = rw e

-- An entropy has a size exactly when it is as long as that of a standard size: 32 bits for each bit
-- of the checksum.
pub size_of_entropy_lem :
    (entropy : List ℕ) (m : MnemonicSize)
    → (size_of_entropy entropy ≡ ok m) ↔ (IsStandard m × (length entropy ≡ 4 * m.checksum_length))
size_of_entropy_lem entropy m = (
  λ h. (OneOfFive-IsStandard m (size_of_entropy_cases entropy m h), entropy_length entropy m h),
  λ p. entropy_accepts entropy p.0 p.1,
)

-- The lengths of a standard size in terms of its checksum bits.
pub IsStandard-lengths :
    {m : MnemonicSize}
    → IsStandard m
    → (words_count m ≡ 3 * m.checksum_length)
      × (entropy_bytes_length m ≡ 4 * m.checksum_length)
      × (full_bytes_length m ≡ 4 * m.checksum_length + 1)
unfolding words_count entropy_bytes_length full_bytes_length
IsStandard-lengths words12 = (refl, refl, refl)
IsStandard-lengths words15 = (refl, refl, refl)
IsStandard-lengths words18 = (refl, refl, refl)
IsStandard-lengths words21 = (refl, refl, refl)
IsStandard-lengths words24 = (refl, refl, refl)

pub checksum_positive : {m : MnemonicSize} → IsStandard m → 0 < m.checksum_length
checksum_positive words12 = omega arith
checksum_positive words15 = omega arith
checksum_positive words18 = omega arith
checksum_positive words21 = omega arith
checksum_positive words24 = omega arith
