-- ===== src/Util/Laws.antt =====
-- What the byte helpers of src/util.rs keep: the number that a string stands for, and its width.
use mathlib.Core.WellFounded.{Acc}
use mathlib.Core.Logic.{dif_pos, dif_neg}
use native.Mathlib.Decide.{dec_lt}
use native.Mathlib.Bridge.{le_prop}
use emerald_rs.Prelude.{
  ℕ, zero, suc, ◌+◌, ◌-◌, ◌/◌, ◌%◌, ◌^◌, ◌≤◌, ◌<◌, max, ◌≡◌, refl, sym, ap, ◌∙◌, ◌≢◌, some, List,
  [], ◌∷◌, ◌++◌, arith, if◌then◌else◌, ltb, lt→ltb, length, take, replicate, length-append,
  length-replicate, get_elem?, lt_wf,
}
use emerald_rs.Prelude.Bytes.{
  be_value, be_bytes, be_value-zeros, pow-suc_256, be_value-be_bytes, length-be_bytes,
}
use emerald_rs.Util.{
  BigEndian, align_bytes, to_u64, leading_zeros, trim_bytes, shift_shrinks, bytes_count_acc,
  bytes_count, to_bytes,
}

-- Padding reaches the width that is asked for and changes no number.
pub align_bytes_lem :
    (xs : List ℕ) (n : ℕ)
    → (length (align_bytes xs n) ≡ max (length xs) n) × (be_value (align_bytes xs n) ≡ be_value xs)
unfolding align_bytes
align_bytes_lem xs n = ground (
  arith,
  length-append {0} (replicate (n - length xs) 0) xs,
  length-replicate {0} {A = ℕ} (n - length xs) 0,
  be_value-zeros (n - length xs) xs,
)

trim_zeros : (xs : List ℕ) → xs ≡ replicate (leading_zeros xs) 0 ++ trim_bytes xs
unfolding trim_bytes
trim_zeros [] = refl
trim_zeros (b ∷ bs) = ground (arith, trim_zeros bs)

trim_zeros_length : (xs : List ℕ) → length xs ≡ leading_zeros xs + length (trim_bytes xs)
unfolding trim_bytes
trim_zeros_length [] = omega arith
trim_zeros_length (b ∷ bs) = ground (arith, trim_zeros_length bs)

trim_head : (xs : List ℕ) → get_elem? (trim_bytes xs) 0 ≢ some 0
unfolding trim_bytes
trim_head [] = λ e. cc
trim_head (b ∷ bs) = ground (arith, trim_head bs)

-- Padding what is left by the zeros that were counted.
align_trimmed : (z : ℕ) (xs : List ℕ) → align_bytes xs (z + length xs) ≡ replicate z 0 ++ xs
unfolding align_bytes
align_trimmed zero xs = ground arith
align_trimmed (suc z) xs =
    let e : suc z + length xs - length xs ≡ suc z = omega arith in rw e (ground arith)

-- Trimming keeps the number, leaves no zero in front, and padding to the old width undoes it.
pub trim_bytes_lem :
    (xs : List ℕ)
    → (be_value (trim_bytes xs) ≡ be_value xs)
      × (get_elem? (trim_bytes xs) 0 ≢ some 0)
      × (align_bytes (trim_bytes xs) (length xs) ≡ xs)
trim_bytes_lem xs = (
  sym (be_value-zeros (leading_zeros xs) (trim_bytes xs)) ∙ ap be_value (sym (trim_zeros xs)),
  trim_head xs,
  ap (align_bytes (trim_bytes xs)) (trim_zeros_length xs)
      ∙ align_trimmed (leading_zeros xs) (trim_bytes xs)
      ∙ sym (trim_zeros xs),
)

small_count :
    (x : ℕ)
    → x < 256
    → (x < 256 ^ (if ltb 0 x then 1 else 0)) × (0 < x → 256 ^ ((if ltb 0 x then 1 else 0) - 1) ≤ x)
small_count zero h = (omega arith, λ p. absurd (omega arith))
small_count (suc x) h = rw (lt→ltb 0 (suc x) (omega arith)) (omega arith, λ p. omega arith)

count_step :
    (x c : ℕ)
    → 255 < x
    → (x / 2 ^ 8 < 256 ^ c) × (0 < x / 2 ^ 8 → 256 ^ (c - 1) ≤ x / 2 ^ 8)
    → (x < 256 ^ (1 + c)) × (0 < x → 256 ^ (1 + c - 1) ≤ x)
count_step x zero big (lt, le) = absurd (omega arith)
count_step x (suc c) big (lt, le) =
    let e : 1 + suc c ≡ suc (suc c) = omega arith in
    let f : suc c - 1 ≡ c = omega arith in
    let le' : 256 ^ c ≤ x / 2 ^ 8 = rw f at (le (omega arith)) in
    rw e (
      let g : suc (suc c) - 1 ≡ suc c = omega arith in
      rw g (omega (arith, pow-suc_256 (suc c)), λ _. omega (arith, pow-suc_256 c)))

bytes_count_acc_bounds :
    (x : ℕ) (w : Acc ◌<◌ x)
    → (x < 256 ^ bytes_count_acc x w) × (0 < x → 256 ^ (bytes_count_acc x w - 1) ≤ x)
unfolding bytes_count_acc
bytes_count_acc_bounds x (Acc.intro _ smaller) = elim (dec_lt 0xff x) [
  | yes h ↦
      rw (dif_pos _ le_prop h)
        (count_step x _ h (bytes_count_acc_bounds (x / 2 ^ 8) (smaller _ (shift_shrinks x h))))
  | no h ↦ rw (dif_neg _ h) (small_count x (omega arith))
]

-- `bytes_count x` is the least number of bytes that hold `x`, for an `x` that is not zero.
pub bytes_count_bounds :
    (x : ℕ) → 0 < x → (256 ^ (bytes_count x - 1) ≤ x) × (x < 256 ^ bytes_count x)
unfolding bytes_count
bytes_count_bounds x h =
    let (above, below) = bytes_count_acc_bounds x (lt_wf.apply x) in (below h, above)

-- A width that `to_bytes` knows.
pub data IsWidth : ℕ → Type 0 where
  byte : IsWidth 1
  short : IsWidth 2
  word : IsWidth 4
  long : IsWidth 8

byte_byte : (x : ℕ) → x % 256 ≡ x % 256 % 256
byte_byte x = omega arith

to_bytes-be_bytes :
    (be : BigEndian) (x len : ℕ)
    → x < 2 ^ 64
    → IsWidth len
    → to_bytes be x len ≡ be_bytes len (x % 256 ^ len)
unfolding to_bytes
to_bytes-be_bytes be x _ h byte = unfold be_bytes in cc (byte_byte x)
to_bytes-be_bytes be x _ h short = be.write_u16_lem (x % 2 ^ 16) (omega arith)
to_bytes-be_bytes be x _ h word = be.write_u32_lem (x % 2 ^ 32) (omega arith)
to_bytes-be_bytes be x _ h long = rw (be.write_u64_lem x h) (ap (be_bytes 8) (omega arith))

width-le : {len : ℕ} → IsWidth len → len ≤ 8
width-le byte = omega arith
width-le short = omega arith
width-le word = omega arith
width-le long = omega arith

low-lt : (x : ℕ) {len : ℕ} → IsWidth len → x % 256 ^ len < 256 ^ len
low-lt x byte = omega arith
low-lt x short = omega arith
low-lt x word = omega arith
low-lt x long = omega arith

pub take_all : (n : ℕ) (xs : List ℕ) → length xs ≤ n → take n xs ≡ xs
take_all zero [] h = refl
take_all zero (x ∷ xs) h = absurd (omega arith)
take_all (suc n) [] h = refl
take_all (suc n) (x ∷ xs) h = ap (λ r. x ∷ r) (take_all n xs (omega arith))

to_u64-short :
    (be : BigEndian) (len y : ℕ) → len ≤ 8 → y < 256 ^ len → to_u64 be (be_bytes len y) ≡ y
unfolding to_u64
to_u64-short be len y h lt =
    let (wide, same) = align_bytes_lem (be_bytes len y) 8 in
    let e : length (align_bytes (be_bytes len y) 8) ≡ 8 = omega (arith, length-be_bytes len y) in
    rw (to_u64, take_all 8 (align_bytes (be_bytes len y) 8) (omega arith))
      (be.read_u64_lem _ e ∙ same ∙ be_value-be_bytes len y lt)

-- Reading back a number below `2 ^ 64` that was written with one of the widths 1, 2, 4 and 8 gives
-- its low bytes.
pub to_u64-to_bytes :
    (be : BigEndian) (x len : ℕ)
    → x < 2 ^ 64
    → IsWidth len
    → to_u64 be (to_bytes be x len) ≡ x % 256 ^ len
to_u64-to_bytes be x len h w =
    rw (to_bytes-be_bytes be x len h w)
      (to_u64-short be len (x % 256 ^ len) (width-le w) (low-lt x w))
