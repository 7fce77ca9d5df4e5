-- ===== src/Mnemonic/Checksum.antt =====
-- `checksum_bits` takes the top bits of the hash byte; `with_checksum` appends them to the entropy.
use emerald_rs.Prelude.{
  ℕ, zero, suc, ◌+◌, ◌-◌, ◌*◌, ◌/◌, ◌%◌, ◌^◌, ◌<◌, ◌≡◌, refl, ap, ◌∙◌, Bool, true, ◌&&◌, List, [],
  ◌∷◌, ◌++◌, arith, ltb, ◌==◌, ==_iff, length, length-append, length-replicate, replicate, All,
  All-append, if◌then◌else◌,
}
use emerald_rs.Prelude.Bytes.{IsByte, be_value, be_value-append_one, be_value-zeros, be_value-lt}
use emerald_rs.Mnemonic.{MnemonicSize, Crates, checksum_bits, with_checksum, full_bytes_length}
use emerald_rs.Mnemonic.Size.{
  IsStandard, words12, words15, words18, words21, words24, size12, size15, size18, size21,
}

holds_below : (ℕ → Bool) → ℕ → Bool
holds_below p zero = true
holds_below p (suc n) = p n && holds_below p n

holds_below_at : (p : ℕ → Bool) (n x : ℕ) → holds_below p n ≡ true → x < n → p x ≡ true
unfolding holds_below
holds_below_at p zero x h lt = absurd (omega arith)
holds_below_at p (suc n) x h lt = ground (arith, holds_below_at p n x)

-- For a standard size, the mask of `checksum_bits` selects the top bits of a byte: the quotient by
-- the others.
pub checksum_bits_lem :
    {m : MnemonicSize} (full : ℕ)
    → IsStandard m
    → full < 256
    → checksum_bits m full ≡ full / 2 ^ (8 - m.checksum_length)
unfolding checksum_bits holds_below
checksum_bits_lem full words12 h =
    (==_iff _ _).0 (holds_below_at (λ x. checksum_bits size12 x == x / 16) 256 full refl h)
checksum_bits_lem full words15 h =
    (==_iff _ _).0 (holds_below_at (λ x. checksum_bits size15 x == x / 8) 256 full refl h)
checksum_bits_lem full words18 h =
    (==_iff _ _).0 (holds_below_at (λ x. checksum_bits size18 x == x / 4) 256 full refl h)
checksum_bits_lem full words21 h =
    (==_iff _ _).0 (holds_below_at (λ x. checksum_bits size21 x == x / 2) 256 full refl h)
checksum_bits_lem full words24 h = omega arith

-- The string has `n` bytes and stands for `x`.
abbrev pub Encodes : List ℕ → ℕ → ℕ → Type 0
Encodes bs n x = (length bs ≡ n) × (be_value bs ≡ x) × All IsByte bs

replicate-IsByte : (n : ℕ) → All IsByte (replicate n 0)
replicate-IsByte zero = tt
replicate-IsByte (suc n) = (omega arith, replicate-IsByte n)

module _ (crates : Crates) where
  open crates use {from_bytes_be, to_bytes_be, shr}

  pad_lem :
      (x n : ℕ)
      → x < 256 ^ suc n
      → Encodes
          (if ltb (length (to_bytes_be x)) (suc n)
            then replicate (suc n - length (to_bytes_be x)) 0 ++ to_bytes_be x
            else to_bytes_be x)
          (suc n)
          x
  pad_lem x n h =
      let (same, short, bytes) = crates.to_bytes_be_lem x n h in
      let zeros : List ℕ = replicate (suc n - length (to_bytes_be x)) 0 in
      ground (
        arith,
        length-append {0} zeros (to_bytes_be x),
        length-replicate {0} {A = ℕ} (suc n - length (to_bytes_be x)) 0,
        be_value-zeros (suc n - length (to_bytes_be x)) (to_bytes_be x),
        All-append IsByte zeros (to_bytes_be x) (replicate-IsByte (suc n - length (to_bytes_be x)))
            bytes,
      )

  shifted_value :
      (entropy : List ℕ) (c empty x : ℕ)
      → All IsByte entropy
      → (be_value entropy * 256 + c % 256) / 2 ^ empty ≡ x
      → shr (from_bytes_be (entropy ++ (c % 256) ∷ [])) empty ≡ x
  shifted_value entropy c empty x bytes e =
      crates.shr_lem _ empty
      ∙ ap (λ (t : ℕ). t / 2 ^ empty)
          (crates.from_bytes_be_lem _
              (All-append IsByte entropy ((c % 256) ∷ []) bytes (omega arith))
            ∙ be_value-append_one entropy (c % 256))
      ∙ e

  -- For a standard size with `cs` bits of checksum, an entropy of `4 * cs` bytes and a checksum of `cs`
  -- bits: the entropy and its checksum stand in `4 * cs + 1` bytes as the number that has the checksum in
  -- its lowest `cs` bits and the entropy above.
  pub with_checksum_lem :
      {m : MnemonicSize} (entropy : List ℕ) (sum : ℕ)
      → IsStandard m
      → All IsByte entropy
      → length entropy ≡ 4 * m.checksum_length
      → sum < 2 ^ m.checksum_length
      → Encodes
          (with_checksum crates entropy sum m)
          (4 * m.checksum_length + 1)
          (be_value entropy * 2 ^ m.checksum_length + sum)
  unfolding with_checksum full_bytes_length
  with_checksum_lem entropy sum words12 bytes len h =
      let lt : be_value entropy < 256 ^ 16 = rw len at (be_value-lt entropy bytes) in
      rw (shifted_value entropy (sum * 16) 4 (be_value entropy * 16 + sum) bytes (omega arith))
        (pad_lem (be_value entropy * 16 + sum) 16 (omega arith))
  with_checksum_lem entropy sum words15 bytes len h =
      let lt : be_value entropy < 256 ^ 20 = rw len at (be_value-lt entropy bytes) in
      rw (shifted_value entropy (sum * 8) 3 (be_value entropy * 32 + sum) bytes (omega arith))
        (pad_lem (be_value entropy * 32 + sum) 20 (omega arith))
  with_checksum_lem entropy sum words18 bytes len h =
      let lt : be_value entropy < 256 ^ 24 = rw len at (be_value-lt entropy bytes) in
      rw (shifted_value entropy (sum * 4) 2 (be_value entropy * 64 + sum) bytes (omega arith))
        (pad_lem (be_value entropy * 64 + sum) 24 (omega arith))
  with_checksum_lem entropy sum words21 bytes len h =
      let lt : be_value entropy < 256 ^ 28 = rw len at (be_value-lt entropy bytes) in
      rw (shifted_value entropy (sum * 2) 1 (be_value entropy * 128 + sum) bytes (omega arith))
        (pad_lem (be_value entropy * 128 + sum) 28 (omega arith))
  with_checksum_lem entropy sum words24 bytes len h = (
    omega (arith, length-append {0} entropy (sum ∷ [])),
    be_value-append_one entropy sum,
    All-append IsByte entropy (sum ∷ []) bytes (h, tt),
  )
