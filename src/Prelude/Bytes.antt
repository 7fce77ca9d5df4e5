-- ===== src/Prelude/Bytes.antt =====
-- Byte strings as lists of numbers below 256, read as big-endian numbers.
use Prim.Native.Nat.{ℕ, zero, suc, ◌+◌, ◌*◌, ◌/◌, ◌%◌, ◌^◌, ◌≤◌, ◌<◌}
use native.Mathlib.Decide.{dec_lt}
use native.Mathlib.Nat.{mul-le-mul_right}
use mathlib.Core.Path.{◌≡◌, refl, ap, ap₂}
use mathlib.Core.List.{List, [], ◌∷◌, ◌++◌}
use native.Mathlib.Omega.{arith}
use emerald_rs.Prelude.Lists.{length, length-append, All, All-append, replicate}
use native.Mathlib.Numerals.{towards_suc}

abbrev pub IsByte : ℕ → Type 0
IsByte b = b < 256

-- The number that a big-endian string stands for.
unfoldable pub be_value : List ℕ → ℕ
be_value [] = 0
be_value (b ∷ bs) = b * 256 ^ length bs + be_value bs

-- The last `n` bytes of a number, big-endian.
unfoldable pub be_bytes : ℕ → ℕ → List ℕ
be_bytes zero x = []
be_bytes (suc n) x = be_bytes n (x / 256) ++ (x % 256) ∷ []

pub pow-suc_256 : (n : ℕ) → 256 ^ suc n ≡ 256 * 256 ^ n
pow-suc_256 n = omega arith

pow-length_append : (bs : List ℕ) (b : ℕ) → 256 ^ length (bs ++ b ∷ []) ≡ 256 ^ length bs * 256
pow-length_append bs b = rw (length-append {0} bs (b ∷ [])) (simp towards_suc (omega arith))

pub be_value-append_one : (bs : List ℕ) (b : ℕ) → be_value (bs ++ b ∷ []) ≡ be_value bs * 256 + b
unfolding be_value
be_value-append_one [] b = omega arith
be_value-append_one (c ∷ bs) b =
    omega (arith, be_value-append_one bs b, ap (λ (t : ℕ). c * t) (pow-length_append bs b))

pub length-be_bytes : (n x : ℕ) → length (be_bytes n x) ≡ n
unfolding be_bytes
length-be_bytes zero x = refl
length-be_bytes (suc n) x =
    omega (
      arith,
      length-append {0} (be_bytes n (x / 256)) ((x % 256) ∷ []),
      length-be_bytes n (x / 256),
    )

pub be_value-lt : (bs : List ℕ) → All IsByte bs → be_value bs < 256 ^ length bs
unfolding be_value
be_value-lt [] h = omega arith
be_value-lt (b ∷ bs) h = grind (arith, be_value-lt bs h.1, pow-suc_256 (length bs))

pub be_bytes-IsByte : (n x : ℕ) → All IsByte (be_bytes n x)
unfolding be_bytes
be_bytes-IsByte zero x = tt
be_bytes-IsByte (suc n) x =
    All-append IsByte (be_bytes n (x / 256)) ((x % 256) ∷ []) (be_bytes-IsByte n (x / 256))
      (omega arith)

-- Writing a number that fits and reading it back.
pub be_value-be_bytes : (n x : ℕ) → x < 256 ^ n → be_value (be_bytes n x) ≡ x
unfolding be_bytes be_value
be_value-be_bytes zero x h = omega arith
be_value-be_bytes (suc n) x h = omega (
  arith,
  be_value-append_one (be_bytes n (x / 256)) (x % 256),
  be_value-be_bytes n (x / 256) (omega (arith, pow-suc_256 n)),
)

pub be_value-zeros : (n : ℕ) (bs : List ℕ) → be_value (replicate n 0 ++ bs) ≡ be_value bs
unfolding be_value
be_value-zeros zero bs = refl
be_value-zeros (suc n) bs = omega (arith, be_value-zeros n bs)

digit-lt : (p b c : ℕ) → b < c → b * p + p ≤ c * p
digit-lt p b c h = omega (arith, mul-le-mul_right p h)

pub digit_unique : (p b c v w : ℕ) → v < p → w < p → b * p + v ≡ c * p + w → (b ≡ c) × (v ≡ w)
digit_unique p b c v w hv hw e = elim (dec_lt b c) [
  | yes lt ↦ absurd (omega (arith, digit-lt p b c lt))
  | no ge ↦ elim (dec_lt c b) [
    | yes gt ↦ absurd (omega (arith, digit-lt p c b gt))
    | no le ↦ let e' : b ≡ c = omega arith in (e', omega (arith, ap (λ (t : ℕ). t * p) e'))
  ]
]

-- A string is determined by its length and its number.
pub be_value_injective :
    (xs ys : List ℕ)
    → All IsByte xs
    → All IsByte ys
    → length xs ≡ length ys
    → be_value xs ≡ be_value ys
    → xs ≡ ys
unfolding be_value
be_value_injective [] [] hx hy l e = refl
be_value_injective [] (y ∷ ys) hx hy l e = absurd (omega arith)
be_value_injective (x ∷ xs) [] hx hy l e = absurd (omega arith)
be_value_injective (x ∷ xs) (y ∷ ys) hx hy l e =
    let l' : length xs ≡ length ys = omega arith in
    let (ex, ev) =
      digit_unique (256 ^ length ys) x y (be_value xs) (be_value ys)
        (rw (← l') (be_value-lt xs hx.1)) (be_value-lt ys hy.1) (rw l' at e) in
    ap₂ ◌∷◌ ex (be_value_injective xs ys hx.1 hy.1 l' ev)
