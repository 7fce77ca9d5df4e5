-- ===== src/Bitcoin/Amounts.antt =====
-- `validate` accepts exactly the transfers whose amounts agree.
use emerald_rs.Prelude.{ℕ, ◌+◌, ◌%◌, ◌≤◌, ◌<◌, ◌^◌, ◌≡◌, ◌↔◌, List, [], ◌∷◌, arith, ok}
use emerald_rs.Bitcoin.{Transfer, fee_max, sum_u64, validate}

abbrev pub total : List ℕ → ℕ
total [] = 0
total (x ∷ xs) = x + total xs

sum_u64_lem : (acc : ℕ) (xs : List ℕ) → acc < 2 ^ 64 → sum_u64 acc xs ≡ (acc + total xs) % 2 ^ 64
unfolding sum_u64
sum_u64_lem acc [] h = omega arith
sum_u64_lem acc (x ∷ xs) h = omega (arith, sum_u64_lem ((acc + x) % 2 ^ 64) xs (omega arith))

-- The amounts of a transfer agree: both sides are positive, and the inputs are the outputs and a
-- fee that is not above the limit.
abbrev pub Agrees : Transfer → Type 0
Agrees p =
    (0 < total p.outputs)
    × (total p.inputs ≡ total p.outputs + p.expected_fee)
    × (p.expected_fee ≤ fee_max)

-- A transfer whose amounts add up to numbers of 64 bits is valid exactly when its amounts agree.
pub validate_lem :
    (p : Transfer)
    → total p.inputs < 2 ^ 64
    → total p.outputs < 2 ^ 64
    → (validate p ≡ ok tt) ↔ Agrees p
unfolding validate
validate_lem p small_in small_out =
    let send : sum_u64 0 p.inputs ≡ total p.inputs =
      omega (arith, sum_u64_lem 0 p.inputs (omega arith)) in
    let receive : sum_u64 0 p.outputs ≡ total p.outputs =
      omega (arith, sum_u64_lem 0 p.outputs (omega arith)) in
    (λ h. ground arith, λ h. ground arith)

-- What is valid may still create coins: the sums wrap around at 64 bits.
wrapped_sum :
    (p : Transfer)
    → validate p ≡ ok tt
    → total p.inputs % 2 ^ 64 ≡ total p.outputs % 2 ^ 64 + p.expected_fee
unfolding validate
wrapped_sum p h =
    ground (arith, sum_u64_lem 0 p.inputs (omega arith), sum_u64_lem 0 p.outputs (omega arith))
