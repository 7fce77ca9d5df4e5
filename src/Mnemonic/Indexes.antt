-- ===== src/Mnemonic/Indexes.antt =====
-- `get_indexes` cuts a number into words of 11 bits, the highest first.
use emerald_rs.Prelude.{
  ℕ, zero, suc, ◌+◌, ◌-◌, ◌*◌, ◌/◌, ◌%◌, ◌^◌, ◌<◌, ◌≡◌, refl, sym, ap, ◌∙◌, List, [], ◌∷◌, ◌++◌,
  arith, ==_iff, lt→ltb, length, length-append, All, All-append, ok,
}
use native.Mathlib.Nat.{div-div-eq-div-mul, pow-suc}
use native.Mathlib.Numerals.{towards_suc}
use emerald_rs.Mnemonic.{
  MnemonicSize, Crates, index_loop, get_indexes, words_count, full_bytes_length,
}
use emerald_rs.Mnemonic.Checksum.{Encodes}

-- The number whose digits to the base 2048 the words are.
pub word_value : List ℕ → ℕ
word_value [] = 0
word_value (w ∷ ws) = w * 2048 ^ length ws + word_value ws

abbrev pub IsIndex : ℕ → Type 0
IsIndex w = w < 2048

word_value-append_one : (ws : List ℕ) (w : ℕ) → word_value (ws ++ w ∷ []) ≡ word_value ws * 2048 + w
unfolding word_value
word_value-append_one [] w = omega arith
word_value-append_one (v ∷ ws) w =
    omega (arith, word_value-append_one ws w, ap (λ (t : ℕ). v * t) (power ws w))
  where
    power : (ws : List ℕ) (w : ℕ) → 2048 ^ length (ws ++ w ∷ []) ≡ 2048 ^ length ws * 2048
    power ws w = rw (length-append {0} ws (w ∷ [])) (simp towards_suc (pow-suc 2048 (length ws)))

pow_words : (n : ℕ) → 2 ^ (n * 11) ≡ 2048 ^ n
pow_words zero = refl
pow_words (suc n) =
    let e : suc n * 11 ≡ n * 11 + 8 + 3 = omega arith in
    rw e (simp towards_suc (omega (arith, pow_words n, pow-suc 2048 n)))

-- The next 11 bits below those that stand above position `left + 1`.
next_word :
    (big left : ℕ)
    → big / 2 ^ (left * 11) ≡ big / 2048 ^ suc left * 2048 + big / 2 ^ (left * 11) % 2048
next_word big left = rw (pow_words left, pow-suc 2048 left, ← div-div-eq-div-mul) (omega arith)

zero_quotient : (x n : ℕ) → x < 2048 ^ n → x / 2048 ^ n ≡ word_value []
unfolding word_value
zero_quotient x n h = grind arith

module _ (crates : Crates) where
  open crates use {shr, bitand}

  abbrev word_at : ℕ → ℕ → ℕ → ℕ
  word_at big count i = bitand (shr big ((count - 1 - i) * 11)) 0x7ff

  index_loop_step :
      (big count i left : ℕ) (out : List ℕ)
      → word_at big count i < 2 ^ 64
      → index_loop crates big count i (suc left) out
        ≡ index_loop crates big count (i + 1) left (out ++ word_at big count i ∷ [])
  unfolding index_loop
  index_loop_step big count i left out h = rw (lt→ltb _ _ h)

  index_loop_lem :
      (big count i left : ℕ) (out : List ℕ)
      → i + left ≡ count
      → word_value out ≡ big / 2048 ^ left
      → All IsIndex out
      → (ws : List ℕ) × (index_loop crates big count i left out ≡ ok ws)
        × (length ws ≡ length out + left)
        × (word_value ws ≡ big)
        × All IsIndex ws
  index_loop_lem big count i zero out e v small =
      (out, unfold index_loop in refl, omega arith, omega arith, small)
  index_loop_lem big count i (suc left) out e v small =
      let w : ℕ = big / 2 ^ (left * 11) % 2048 in
      let at : (count - 1 - i) * 11 ≡ left * 11 = omega arith in
      let read : word_at big count i ≡ w =
        ap (λ (t : ℕ). bitand (shr big t) 0x7ff) at
        ∙ (crates.bitand_lem _ 11 ∙ ap (λ (t : ℕ). t % 2048) (crates.shr_lem big (left * 11))) in
      let v' : word_value (out ++ w ∷ []) ≡ big / 2048 ^ left = omega (
        arith,
        word_value-append_one out w,
        next_word big left,
        ap (λ (t : ℕ). big / t) (pow_words left),
      ) in
      let (ws, run, len, val, all) =
        index_loop_lem big count (i + 1) left (out ++ w ∷ []) (omega arith) v'
          (All-append IsIndex out (w ∷ []) small (omega arith)) in
      (
        ws,
        index_loop_step big count i left out (omega (arith, read))
            ∙ ap (λ v. index_loop crates big count (i + 1) left (out ++ v ∷ [])) read
            ∙ run,
        omega (arith, len, length-append {0} out (w ∷ [])),
        val,
        all,
      )

  -- A string of the right length whose number has at most `11 * words` bits is cut into `words`
  -- indexes below 2048, which have that number as their value to the base 2048.
  pub get_indexes_lem :
      (m : MnemonicSize) (entropy : List ℕ) (x : ℕ)
      → Encodes entropy (full_bytes_length m) x
      → x < 2048 ^ words_count m
      → (ws : List ℕ) × (get_indexes crates entropy m ≡ ok ws)
        × (length ws ≡ words_count m)
        × (word_value ws ≡ x)
        × All IsIndex ws
  unfolding get_indexes
  get_indexes_lem m entropy x (len, val, bytes) h =
      let num : crates.from_bytes_be entropy ≡ x = crates.from_bytes_be_lem entropy bytes ∙ val in
      let (ws, run, len', val', all) =
        index_loop_lem x (words_count m) 0 (words_count m) [] (omega arith)
          (sym (zero_quotient x (words_count m) h)) tt in
      (
        ws,
        rw ((==_iff (length entropy) (full_bytes_length m)).1 len, num) run,
        omega (arith, len'),
        val',
        all,
      )
