-- ===== src/Util.antt =====
-- src/util.rs: byte and text helpers. A `&[u8]` is a list of numbers below 256, a `&str` that the
-- code cuts by position is the list of its UTF-8 bytes.
pub mod Laws
use mathlib.Core.WellFounded.{Acc}
use mathlib.Core.Logic.{dite}
use native.Mathlib.Decide.{dec_lt}
use emerald_rs.Prelude.{
  ℕ, zero, suc, ◌+◌, ◌-◌, ◌/◌, ◌%◌, ◌^◌, ◌<◌, ◌≡◌, String, Bool, true, false, Option, none, some,
  List, [], ◌∷◌, ◌++◌, arith, leb, ltb, ◌==◌, str_eq, if◌then◌else◌, length, take, drop, replicate,
  lt_wf,
}
use emerald_rs.Prelude.Bytes.{be_value, be_bytes}

-- The big-endian readers and writers of the `byteorder` crate, with what their documentation says.
pub record BigEndian : Type 0 where
  pub read_u64 : List ℕ → ℕ
  pub write_u16 : ℕ → List ℕ
  pub write_u32 : ℕ → List ℕ
  pub write_u64 : ℕ → List ℕ
  pub read_u64_lem : (bs : List ℕ) → length bs ≡ 8 → read_u64 bs ≡ be_value bs
  pub write_u16_lem : (x : ℕ) → x < 2 ^ 16 → write_u16 x ≡ be_bytes 2 x
  pub write_u32_lem : (x : ℕ) → x < 2 ^ 32 → write_u32 x ≡ be_bytes 4 x
  pub write_u64_lem : (x : ℕ) → x < 2 ^ 64 → write_u64 x ≡ be_bytes 8 x

unfoldable pub none_if_empty : String → Option String
none_if_empty s = if str_eq s "" then none else some s

-- `data` is at least as long as `len`, or is padded in front with zeros.
unfoldable pub align_bytes : List ℕ → ℕ → List ℕ
align_bytes xs len = if leb len (length xs) then xs else replicate (len - length xs) 0 ++ xs

-- The cursor reads the first eight bytes.
unfoldable pub to_u64 : BigEndian → List ℕ → ℕ
to_u64 be v = be.read_u64 (take 8 (align_bytes v 8))

-- "0x" in front of a text.
unfoldable pub starts_with_0x : List ℕ → Bool
starts_with_0x (a ∷ b ∷ rest) = if a == b'0' then b == b'x' else false
starts_with_0x _ = false

unfoldable pub trim_hex : List ℕ → List ℕ
unfolding starts_with_0x
trim_hex val = if starts_with_0x val then drop 2 val else val

-- `none` is the panic of `clone_from_slice` on a slice that has not the length `n` of the array.
unfoldable pub to_arr {ℓ} : {T : Type ℓ} → ℕ → List T → Option (List T)
to_arr n slice = if length slice == n then some slice else none

unfoldable pub to_even_str : List ℕ → List ℕ
to_even_str xs = if length xs % 2 == 0 then xs else b'0' ∷ xs

-- The loop of `trim_bytes`: how many bytes it passes before it breaks.
leading_zeros : List ℕ → ℕ
leading_zeros [] = 0
leading_zeros (b ∷ bs) = if b == 0 then suc (leading_zeros bs) else 0

unfoldable pub trim_bytes : List ℕ → List ℕ
unfolding leading_zeros
trim_bytes xs = drop (leading_zeros xs) xs

abbrev shift_shrinks : (x : ℕ) → 0xff < x → x / 2 ^ 8 < x
shift_shrinks x h = omega arith

bytes_count_acc : (x : ℕ) → Acc ◌<◌ x → ℕ
bytes_count_acc x (Acc.intro _ smaller) =
    dite (dec_lt 0xff x)
      (λ more. 1 + bytes_count_acc (x / 2 ^ 8) (smaller (x / 2 ^ 8) (shift_shrinks x more)))
      (λ _. if ltb 0 x then 1 else 0)

unfoldable pub bytes_count : ℕ → ℕ
unfolding bytes_count_acc lt_wf dec_lt
bytes_count x = bytes_count_acc x (lt_wf.apply x)

-- `x as u8`, `x as u16` and `x as u32` keep the low bits; any other width writes nothing.
unfoldable pub to_bytes : BigEndian → ℕ → ℕ → List ℕ
to_bytes be x len =
    if len == 1
    then (x % 2 ^ 8) ∷ []
    else if len == 2
    then be.write_u16 (x % 2 ^ 16)
    else if len == 4
    then be.write_u32 (x % 2 ^ 32)
    else if len == 8
    then be.write_u64 x
    else []
