-- ===== src/Bitcoin/Addresses/Search.antt =====
-- What `find_path` of src/blockchain/bitcoin.rs finds, and that it finds each address below its limit.
use emerald_rs.Prelude.{
  ℕ, zero, suc, ◌+◌, ◌-◌, ◌^◌, ◌<◌, ◌≤◌, ◌≡◌, ◌==◌, ==_iff, refl, sym, ap, subst, ◌∙◌, inl, inr,
  arith, min, Bool, true, false, some, Result, ok, err, Eq, Bool-cases, Result-cases,
}
use emerald_rs.Structs.{VaultError, XPub, StandardHdPath, AccountHdPath}
use emerald_rs.Bitcoin.Addresses.{
  HdLib, Addresses, is_account, is_at, for_receiving, for_change, get_address, find_loop, find_path,
}

-- The path of an account with a branch and an index.
abbrev pub path_at : AccountHdPath → ℕ → ℕ → StandardHdPath
path_at account c i = record {
  purpose = account.purpose;
  coin_type = account.coin_type;
  account = account.account;
  change = c;
  index = i;
}

module _ (lib : HdLib) {T : Type 0} (addresses : Addresses T) ⦃e : Eq T⦄ where
  is_at-ok : (r : Result VaultError T) (a : T) → is_at lib addresses r a ≡ true → r ≡ ok a
  is_at-ok (ok act) a h = ap ok ((e.beq_iff act a).0 h)
  is_at-ok (err x) a h = cc

  is_at_hit : (r : Result VaultError T) (a : T) → r ≡ ok a → is_at lib addresses r a ≡ true
  is_at_hit r a h = rw h ((e.beq_iff a a).1 refl)

  -- The two branches of an account: the addresses that receive and those for change.
  abbrev pub number : Bool → ℕ
  number false = 0
  number true = 1

  abbrev pub for_branch : Bool → XPub → Result VaultError XPub
  for_branch false x = for_receiving lib x
  for_branch true x = for_change lib x

  abbrev pick : Bool → XPub → XPub → XPub
  pick false receiving changing = receiving
  pick true receiving changing = changing

  module _ (receiving changing : XPub) (account : AccountHdPath) (a : T) where
    abbrev FoundAt : ℕ → Bool → Type 0
    FoundAt j b = get_address lib addresses (pick b receiving changing) j ≡ ok a

    loop_sound :
        (left i : ℕ) (p : StandardHdPath)
        → find_loop lib addresses receiving changing account a i left ≡ some p
        → (j : ℕ) × (b : Bool) × (j < i + left)
          × FoundAt j b
          × (p ≡ lib.address_at account (number b) j)
    unfolding find_loop
    loop_sound zero i p h = cc
    loop_sound (suc left) i p h =
        elim (Bool-cases (is_at lib addresses (get_address lib addresses receiving i) a)) [
          | inl hit ↦ (i, false, omega arith, is_at-ok _ a hit, cc (rw hit at h))
          | inr miss ↦
              elim (Bool-cases (is_at lib addresses (get_address lib addresses changing i) a)) [
                | inl hit ↦ (i, true, omega arith, is_at-ok _ a hit, cc (rw (miss, hit) at h))
                | inr miss_too ↦
                    let (j, b, below, there, path) =
                      loop_sound left (i + 1) p (rw (miss, miss_too) at h) in
                    (j, b, omega arith, there, path)
              ]
        ]

    -- A round that finds nothing has the address on no branch.
    hit_now :
        (i : ℕ) (b : Bool)
        → FoundAt i b
        → is_at lib addresses (get_address lib addresses receiving i) a ≡ false
        → is_at lib addresses (get_address lib addresses changing i) a ≡ true
    hit_now i false there miss = absurd (cc (is_at_hit _ a there, miss))
    hit_now i true there miss = is_at_hit _ a there

    loop_complete :
        (left i j : ℕ) (b : Bool)
        → i ≤ j
        → j < i + left
        → FoundAt j b
        → (p : StandardHdPath) × (find_loop lib addresses receiving changing account a i left
            ≡ some p)
    unfolding find_loop
    loop_complete zero i j b from below there = absurd (omega arith)
    loop_complete (suc left) i j b from below there =
        elim (Bool-cases (is_at lib addresses (get_address lib addresses receiving i) a)) [
          | inl hit ↦ (lib.address_at account 0 i, rw hit refl)
          | inr miss ↦
              elim (Bool-cases (is_at lib addresses (get_address lib addresses changing i) a)) [
                | inl hit ↦ (lib.address_at account 1 i, rw (miss, hit) refl)
                | inr miss_too ↦
                    rw (miss, miss_too)
                      (loop_complete left (i + 1) j b (later i j b from there miss miss_too)
                        (omega arith) there)
              ]
        ]
      where
        later :
            (i j : ℕ) (b : Bool)
            → i ≤ j
            → FoundAt j b
            → is_at lib addresses (get_address lib addresses receiving i) a ≡ false
            → is_at lib addresses (get_address lib addresses changing i) a ≡ false
            → i + 1 ≤ j
        later i j b from there miss miss_too = elim (Bool-cases (i == j)) [
          | inl same ↦
              let here : FoundAt i b = subst (λ k. FoundAt k b) (sym ((==_iff i j).0 same)) there in
              absurd (cc (hit_now i b here miss, miss_too))
          | inr apart ↦ ground arith
        ]

  picked :
      (b : Bool) (x receiving changing : XPub)
      → for_receiving lib x ≡ ok receiving
      → for_change lib x ≡ ok changing
      → for_branch b x ≡ ok (pick b receiving changing)
  picked false x receiving changing e1 e2 = e1
  picked true x receiving changing e1 e2 = e2

  number_small : (b : Bool) → number b < 2 ^ 31
  number_small false = omega arith
  number_small true = omega arith

  -- A path that is found is that of an index below the limit, on a branch whose key has the address at
  -- this index.
  pub find_path_sound :
      (x : XPub) (account : AccountHdPath) (a : T) (limit : ℕ) (p : StandardHdPath)
      → find_path lib addresses x account a limit ≡ some (some p)
      → (b : Bool) × (key : XPub) × (i : ℕ) × (for_branch b x ≡ ok key)
        × (i < limit)
        × (get_address lib addresses key i ≡ ok a)
        × (p ≡ path_at account (number b) i)
  unfolding find_path
  find_path_sound x account a limit p h = elim (Bool-cases (is_account x)) [
    | inr other ↦ absurd (cc (rw other at h))
    | inl acc ↦ elim (Result-cases (for_receiving lib x)) [
      | inr (x1, bad) ↦ absurd (cc (rw (acc, bad) at h))
      | inl (receiving, e1) ↦ elim (Result-cases (for_change lib x)) [
        | inr (x2, bad) ↦ absurd (cc (rw (acc, e1, bad) at h))
        | inl (changing, e2) ↦
            let run : find_loop lib addresses receiving changing account a 0 (min limit 0x7fffffff)
                ≡ some p =
              cc (rw (acc, e1, e2) at h) in
            let (j, b, below, there, path) =
              loop_sound receiving changing account a (min limit 0x7fffffff) 0 p run in
            (
              b,
              pick b receiving changing,
              j,
              picked b x receiving changing e1 e2,
              omega arith,
              there,
              path ∙ lib.address_at_lem account (number b) j (number_small b) (omega arith),
            )
      ]
    ]
  ]

  -- An address that a branch of an account has at an index below the limit, and below 2^31 - 1, is found.
  pub find_path_complete :
      (x receiving changing key : XPub) (account : AccountHdPath) (a : T) (limit i : ℕ) (b : Bool)
      → is_account x ≡ true
      → for_receiving lib x ≡ ok receiving
      → for_change lib x ≡ ok changing
      → for_branch b x ≡ ok key
      → get_address lib addresses key i ≡ ok a
      → i < limit
      → i < 2 ^ 31 - 1
      → (p : StandardHdPath) × (find_path lib addresses x account a limit ≡ some (some p))
  unfolding find_path
  find_path_complete x receiving changing key account a limit i b acc e1 e2 e3 there below small =
      let same : pick b receiving changing ≡ key = cc (picked b x receiving changing e1 e2, e3) in
      let (p, run) =
        loop_complete receiving changing account a (min limit 0x7fffffff) 0 i b (omega arith)
          (omega arith) (ap (λ k. get_address lib addresses k i) same ∙ there) in
      (p, rw (acc, e1, e2) (ap some run))
