-- ===== src/Ethereum/Transaction/Replay.antt =====
-- EIP-155: a signed transaction tells its chain.
use emerald_rs.Prelude.{
  ℕ, zero, suc, length-append, ◌+◌, ◌*◌, ◌^◌, ◌%◌, ◌<◌, ◌≡◌, refl, arith, none, some, List, [], ◌∷◌,
  ◌++◌, take, drop, length, ok, sym, ap, ◌∙◌,
}
use emerald_rs.Util.{trim_bytes}
use emerald_rs.Util.Laws.{take_all}
use emerald_rs.Chains.{EthereumChainId, as_chainid}
use emerald_rs.Ethereum.Transaction.{
  EthereumTransaction, EthereumLib, number, octets, stamped, to_rlp_raw, hash, raw_from_sig,
  sign_hash, to_signed_raw, signature_of,
}

-- The value that EIP-155 asks for, of a recovery identifier.
abbrev pub eip155 : EthereumChainId → ℕ → ℕ
eip155 chain rid = as_chainid chain * 2 + 35 + rid

stamped_lem :
    (chain : EthereumChainId) (rid : ℕ)
    → rid < 2
    → stamped ((rid + 27) % 2 ^ 8) (some (as_chainid chain)) % 2 ^ 8 ≡ eip155 chain rid
unfolding as_chainid
stamped_lem EthereumChainId.ethereum rid h = ground arith
stamped_lem EthereumChainId.kovan rid h = ground arith
stamped_lem EthereumChainId.ethereum_classic rid h = ground arith

take-append : (n : ℕ) (xs ys : List ℕ) → length xs ≡ n → take n (xs ++ ys) ≡ xs
take-append zero [] ys h = refl
take-append zero (x ∷ xs) ys h = absurd (omega arith)
take-append (suc n) [] ys h = absurd (omega arith)
take-append (suc n) (x ∷ xs) ys h = ap (λ t. x ∷ t) (take-append n xs ys (omega arith))

drop-append : (n : ℕ) (xs ys : List ℕ) → length xs ≡ n → drop n (xs ++ ys) ≡ ys
drop-append zero [] ys h = refl
drop-append zero (x ∷ xs) ys h = absurd (omega arith)
drop-append (suc n) [] ys h = absurd (omega arith)
drop-append (suc n) (x ∷ xs) ys h = drop-append n xs ys (omega arith)

-- With a recovery identifier of 0 or 1 and two halves of 32 bytes, a transaction that is signed
-- for a chain is sent with the fields that are hashed and signed with the
-- number of the chain, followed by the value of EIP-155 and the two halves of the signature.
pub to_signed_raw_lem :
    (lib : EthereumLib) (tx : EthereumTransaction) (pk : List ℕ) (chain : EthereumChainId) (rid : ℕ)
    (r s : List ℕ)
    → rid < 2
    → length r ≡ 32
    → length s ≡ 32
    → lib.sign_recoverable (lib.keccak256 (lib.out (to_rlp_raw tx (some (as_chainid chain))))) pk
      ≡ some (rid, r ++ s)
    → to_signed_raw lib tx pk chain
      ≡ ok (
          lib.out (
            to_rlp_raw tx none
            ++ number (eip155 chain rid) ∷ octets (trim_bytes r) ∷ octets (trim_bytes s) ∷ []))
unfolding to_signed_raw sign_hash hash raw_from_sig signature_of
to_signed_raw_lem lib tx pk chain rid r s small nr ns signed =
    let all : take 64 (r ++ s) ≡ r ++ s = take_all 64 (r ++ s) (omega (arith, length-append r s)) in
    let first : take 32 (r ++ s) ≡ r = take-append 32 r s nr in
    let second : drop 32 (r ++ s) ≡ s = drop-append 32 r s nr in
    rw (signed, all, first, second, take_all 32 s (omega arith))
      (ap
        (λ v. ok (
          lib.out
            (to_rlp_raw tx none ++ number v ∷ octets (trim_bytes r) ∷ octets (trim_bytes s) ∷ [])))
        (stamped_lem chain rid small))

-- The value that is sent with a signature whose recovery identifier is 0 or 1 tells the chain
-- and the recovery identifier.
pub stamped_injective :
    (chain other : EthereumChainId) (rid rid' : ℕ)
    → rid < 2
    → rid' < 2
    → stamped ((rid + 27) % 2 ^ 8) (some (as_chainid chain)) % 2 ^ 8
      ≡ stamped ((rid' + 27) % 2 ^ 8) (some (as_chainid other)) % 2 ^ 8
    → (chain ≡ other) × (rid ≡ rid')
unfolding as_chainid
stamped_injective chain other rid rid' h k same =
    let values : eip155 chain rid ≡ eip155 other rid' =
      sym (stamped_lem chain rid h) ∙ same ∙ stamped_lem other rid' k in
    ground (arith, values)
