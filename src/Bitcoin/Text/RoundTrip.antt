-- ===== src/Bitcoin/Text/RoundTrip.antt =====
-- The text of an extended public key reads back as that key.
use emerald_rs.Prelude.{
  ℕ, zero, suc, ◌+◌, ◌^◌, ◌<◌, ◌≡◌, ◌≢◌, ==_iff, refl, ap, ◌∙◌, some, List, [], ◌∷◌, ◌++◌, length,
  take, drop, get_elem?, ok, arith, length-append, All, All-append,
}
use emerald_rs.Prelude.Bytes.{IsByte, be_bytes-IsByte, be_value, be_value-be_bytes, length-be_bytes}
use emerald_rs.Chains.{Network}
use emerald_rs.Structs.{XPub, AddressType, p2sh}
use emerald_rs.Bitcoin.{xpub_version, type_of_version}
use emerald_rs.Bitcoin.Text.{TextLib, fields, slice, xpub_from_str, xpub_to_string}

take-front : (n : ℕ) (xs ys : List ℕ) → length xs ≡ n → take n (xs ++ ys) ≡ xs
take-front zero [] ys h = refl
take-front (suc n) [] ys h = absurd (omega arith)
take-front zero (x ∷ xs) ys h = absurd (omega arith)
take-front (suc n) (x ∷ xs) ys h = ap (λ l. x ∷ l) (take-front n xs ys (omega arith))

take-whole : (n : ℕ) (xs : List ℕ) → length xs ≡ n → take n xs ≡ xs
take-whole zero [] h = refl
take-whole (suc n) [] h = absurd (omega arith)
take-whole zero (x ∷ xs) h = absurd (omega arith)
take-whole (suc n) (x ∷ xs) h = ap (λ l. x ∷ l) (take-whole n xs (omega arith))

drop-front : (n m : ℕ) (xs ys : List ℕ) → length xs ≡ n → drop (n + m) (xs ++ ys) ≡ drop m ys
drop-front zero m [] ys h = let e : 0 + m ≡ m = omega arith in ap (λ k. drop k ys) e
drop-front (suc n) m [] ys h = absurd (omega arith)
drop-front zero m (x ∷ xs) ys h = absurd (omega arith)
drop-front (suc n) m (x ∷ xs) ys h =
    let e : suc n + m ≡ suc (n + m) = omega arith in
    ap (λ k. drop k (x ∷ (xs ++ ys))) e ∙ drop-front n m xs ys (omega arith)

get-after :
    (n : ℕ) (xs : List ℕ) (y : ℕ) (ys : List ℕ)
    → length xs ≡ n
    → get_elem? (xs ++ y ∷ ys) n ≡ some y
get-after zero [] y ys h = refl
get-after (suc n) [] y ys h = absurd (omega arith)
get-after zero (x ∷ xs) y ys h = absurd (omega arith)
get-after (suc n) (x ∷ xs) y ys h = get-after n xs y ys (omega arith)

version_read :
    (t : AddressType) (n : Network)
    → t ≢ p2sh
    → n ≢ Network.regtest
    → type_of_version (xpub_version t n) ≡ ok (n, t)
unfolding type_of_version xpub_version
version_read t n h k = ground arith

version_small : (t : AddressType) (n : Network) → xpub_version t n < 2 ^ 32
unfolding xpub_version
version_small t n = ground arith

module _ (version : List ℕ) (depth : ℕ) (parent child chain key : List ℕ) (v : length version ≡ 4)
    (p : length parent ≡ 4) (c : length child ≡ 4) (l : length chain ≡ 32)
    (k : length key ≡ 33) where
  abbrev data_bytes : List ℕ
  data_bytes = fields version depth parent child chain key

  data-length : length data_bytes ≡ 78
  data-length = omega (
    arith,
    length-append {0} version (depth ∷ (parent ++ (child ++ (chain ++ key)))),
    length-append {0} parent (child ++ (chain ++ key)),
    length-append {0} child (chain ++ key),
    length-append {0} chain key,
    v,
    p,
    c,
    l,
    k,
  )

  data-IsByte :
      All IsByte version
      → depth < 256
      → All IsByte parent
      → All IsByte child
      → All IsByte chain
      → All IsByte key
      → All IsByte data_bytes
  data-IsByte bv bd bp bc bl bk =
      All-append IsByte version (depth ∷ (parent ++ (child ++ (chain ++ key)))) bv (
        bd,
        All-append IsByte parent (child ++ (chain ++ key)) bp
            (All-append IsByte child (chain ++ key) bc (All-append IsByte chain key bl bk)),
      )

  data-version : slice 0 4 data_bytes ≡ version
  data-version = take-front 4 version _ v

  data-depth : get_elem? data_bytes 4 ≡ some depth
  data-depth = get-after 4 version depth _ v

  data-parent : slice 5 9 data_bytes ≡ parent
  data-parent = ap (take 4) (drop-front 4 1 version _ v) ∙ take-front 4 parent _ p

  data-child : slice 9 13 data_bytes ≡ child
  data-child =
      ap (take 4) (drop-front 4 5 version _ v ∙ drop-front 4 0 parent _ p) ∙ take-front 4 child _ c

  data-chain : slice 13 45 data_bytes ≡ chain
  data-chain =
      ap (take 32)
        (drop-front 4 9 version _ v ∙ drop-front 4 4 parent _ p ∙ drop-front 4 0 child _ c)
      ∙ take-front 32 chain _ l

  data-key : slice 45 78 data_bytes ≡ key
  data-key =
      ap (take 33) (
        drop-front 4 41 version _ v
        ∙ drop-front 4 36 parent _ p
        ∙ drop-front 4 32 child _ c
        ∙ drop-front 32 0 chain _ l)
      ∙ take-whole 33 key k

-- The parts of a key have the lengths of the format and are made of bytes.
pub record IsSerializable (x : XPub) : Type 0 where
  pub depth_byte : x.value.depth < 256
  pub parent_length : length x.value.parent_fingerprint ≡ 4
  pub parent_bytes : All IsByte x.value.parent_fingerprint
  pub child_small : x.value.child_number < 2 ^ 32
  pub chain_length : length x.value.chain_code ≡ 32
  pub chain_bytes : All IsByte x.value.chain_code
  pub key_length : length x.value.public_key ≡ 33
  pub key_bytes : All IsByte x.value.public_key

-- The text of an extended public key reads back as the key with its type, if the network is not
-- `Regtest` and the type not P2SH, the parts fit the format, and the parser accepts the public key.
pub xpub_from_str-xpub_to_string :
    (lib : TextLib) (x : XPub)
    → x.address_type ≢ p2sh
    → x.value.network ≢ Network.regtest
    → IsSerializable x
    → lib.public_key_from_slice x.value.public_key ≡ some x.value.public_key
    → xpub_from_str lib (xpub_to_string lib x) ≡ ok x
unfolding xpub_from_str xpub_to_string
xpub_from_str-xpub_to_string lib x t n fits valid =
    let val = x.value in
    let p = fits.parent_length in
    let c = fits.child_small in
    let l = fits.chain_length in
    let k = fits.key_length in
    let number = xpub_version x.address_type val.network in
    let vb : List ℕ = lib.write_u32 number in
    let cb : List ℕ = lib.write_u32 val.child_number in
    let small = version_small x.address_type val.network in
    let v4 : length vb ≡ 4 =
      ap length (lib.write_u32_lem number small) ∙ length-be_bytes 4 number in
    let c4 : length cb ≡ 4 =
      ap length (lib.write_u32_lem val.child_number c) ∙ length-be_bytes 4 val.child_number in
    let back_v : lib.read_u32 vb ≡ number =
      lib.read_u32_lem vb v4
      ∙ ap be_value (lib.write_u32_lem number small)
      ∙ be_value-be_bytes 4 number small in
    let back_c : lib.read_u32 cb ≡ val.child_number =
      lib.read_u32_lem cb c4
      ∙ ap be_value (lib.write_u32_lem val.child_number c)
      ∙ be_value-be_bytes 4 val.child_number c in
    let bytes : All IsByte
        (fields vb val.depth val.parent_fingerprint cb val.chain_code val.public_key) =
      data-IsByte vb val.depth val.parent_fingerprint cb val.chain_code val.public_key v4 p c4 l k
        (rw (lib.write_u32_lem number small) (be_bytes-IsByte 4 number)) fits.depth_byte
        fits.parent_bytes
        (rw (lib.write_u32_lem val.child_number c) (be_bytes-IsByte 4 val.child_number))
        fits.chain_bytes fits.key_bytes in
    rw
      (
        lib.from_check-check_encode_slice _ bytes,
        (==_iff _ 78).1 (
            data-length vb val.depth val.parent_fingerprint cb val.chain_code val.public_key v4 p c4
              l k),
        data-version vb val.depth val.parent_fingerprint cb val.chain_code val.public_key v4 p c4 l
            k,
        back_v,
        version_read x.address_type val.network t n,
        data-depth vb val.depth val.parent_fingerprint cb val.chain_code val.public_key v4 p c4 l k,
        data-key vb val.depth val.parent_fingerprint cb val.chain_code val.public_key v4 p c4 l k,
        valid,
        data-parent vb val.depth val.parent_fingerprint cb val.chain_code val.public_key v4 p c4 l
            k,
        data-child vb val.depth val.parent_fingerprint cb val.chain_code val.public_key v4 p c4 l k,
        back_c,
        data-chain vb val.depth val.parent_fingerprint cb val.chain_code val.public_key v4 p c4 l k,
      )
      refl
