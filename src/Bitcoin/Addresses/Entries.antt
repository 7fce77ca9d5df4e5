-- ===== src/Bitcoin/Addresses/Entries.antt =====
-- The addresses of an entry in src/structs/wallet.rs are those that `find_path` finds.
use emerald_rs.Prelude.{
  ℕ, zero, suc, ◌+◌, ◌-◌, ◌%◌, ◌^◌, ◌<◌, ◌≤◌, ◌≡◌, ◌==◌, refl, ap, ◌∙◌, inl, inr, arith, Bool, true,
  false, some, List, [], ok, All, All-map, subst, Eq, Bool-cases, Result-cases,
}
use emerald_rs.Structs.{XPub, StandardHdPath, AccountHdPath, WalletEntry, extended_pub, account_hd}
use emerald_rs.Structs.Roles.{AddressRole, receive, change}
use emerald_rs.Bitcoin.Addresses.{
  HdLib, Addresses, EntryAddress, is_account, for_receiving, for_change, get_address, range,
  addresses_of, account_role, of_reference, extended, get_addresses, find_path,
}
use emerald_rs.Bitcoin.Addresses.Search.{
  path_at, number, for_branch, find_path_complete, find_path_sound,
}

abbrev pub role_of : Bool → AddressRole
role_of false = receive
role_of true = change

module _ (lib : HdLib) {T : Type 0} (addresses : Addresses T) ⦃e : Eq T⦄
    (x receiving changing : XPub) (account : AccountHdPath) (limit : ℕ) (acc : is_account x ≡ true)
    (e1 : for_receiving lib x ≡ ok receiving) (e2 : for_change lib x ≡ ok changing)
    (small : limit < 2 ^ 31) where
  -- The path `p` is that of an index at which its branch has the address.
  abbrev pub IsPathOf : StandardHdPath → T → Type 0
  IsPathOf p a =
      (c : Bool) × (own : XPub) × (j : ℕ) × (for_branch lib addresses c x ≡ ok own)
      × (j < limit)
      × (get_address lib addresses own j ≡ ok a)
      × (p ≡ path_at account (number lib addresses c) j)

  -- The path of the item is that of the index, from `start` to `end`, at which the key has its address,
  -- and `find_path` finds a path that has this address, too.
  abbrev pub IsFound : Bool → XPub → ℕ → ℕ → EntryAddress T → Type 0
  IsFound b key start end a =
      (i : ℕ) × (p : StandardHdPath) × (start ≤ i)
      × (i < end)
      × (get_address lib addresses key i ≡ ok a.address)
      × (a.hd_path ≡ some (path_at account (number lib addresses b) i))
      × (find_path lib addresses x account a.address limit ≡ some (some p))
      × IsPathOf p a.address

  earlier :
      (b : Bool) (key : XPub) (start end : ℕ) (es : List (EntryAddress T))
      → All (IsFound b key (start + 1) end) es
      → All (IsFound b key start end) es
  earlier b key start end es =
      All-map (IsFound b key (start + 1) end) (IsFound b key start end)
        (λ a h.
          let (i, p, from, below, rest, path, run, found) = h in
          (i, p, omega arith, below, rest, path, run, found))
        es

  all-IsFound :
      (b : Bool) (key : XPub) (n start : ℕ)
      → for_branch lib addresses b x ≡ ok key
      → start + n ≤ limit
      → All (IsFound b key start (start + n)) (
          addresses_of lib addresses key
            (some (path_at account (number lib addresses b) 0))
            (role_of b)
            (range lib addresses start n))
  unfolding addresses_of range
  all-IsFound b key zero start h below = tt
  all-IsFound b key (suc n) start h below =
      let len : start + 1 + n ≡ start + suc n = omega arith in
      let rest = earlier b key start (start + suc n) _ (
        subst
          (λ end. All (IsFound b key (start + 1) end) (
            addresses_of lib addresses key (some (path_at account (number lib addresses b) 0))
              (role_of b) (range lib addresses (start + 1) n)))
          len (all-IsFound b key n (start + 1) h (omega arith))) in
      elim (Result-cases (get_address lib addresses key start)) [
        | inr (bad, failed) ↦ rw failed rest
        | inl (a, got) ↦
            let (p, run) =
              find_path_complete lib addresses x receiving changing key account a limit start b acc
                e1 e2 h got (omega arith) (omega arith) in
            rw got (
              (
                start,
                p,
                omega arith,
                omega arith,
                got,
                ap some (lib.new_path_lem (path_at account (number lib addresses b) start)),
                run,
                find_path_sound lib addresses x account a limit p run,
              ),
              rest,
            )
      ]

  abbrev listing : Bool → XPub → ℕ → ℕ → List (EntryAddress T)
  listing b key start count =
      addresses_of lib addresses key (some (path_at account (number lib addresses b) 0)) (role_of b)
        (range lib addresses start count)

  account_role_eq :
      (b : Bool) (key : XPub) (entry : WalletEntry)
      → account_hd entry ≡ some account
      → for_branch lib addresses b x ≡ ok key
      → account_role lib addresses entry x (role_of b)
        ≡ ok (some (path_at account (number lib addresses b) 0), key)
  account_role_eq false key entry path h =
      rw (h, path, lib.address_at_lem account 0 0 (omega arith) (omega arith)) refl
  account_role_eq true key entry path h =
      rw (h, path, lib.address_at_lem account 1 0 (omega arith) (omega arith)) refl

  listed_eq :
      (b : Bool) (key : XPub) (entry : WalletEntry) (start count : ℕ)
      → entry.address ≡ some (extended_pub x)
      → account_hd entry ≡ some account
      → for_branch lib addresses b x ≡ ok key
      → start + count ≤ limit
      → count == 0 ≡ false
      → get_addresses lib addresses entry (role_of b) start count ≡ ok (listing b key start count)
  unfolding get_addresses
  listed_eq b key entry start count stored path h below more =
      let whole : (start + count) % 2 ^ 32 - start ≡ count = omega arith in
      let of_entry : of_reference lib addresses entry (role_of b) start count entry.address
          ≡ of_reference lib addresses entry (role_of b) start count (some (extended_pub x)) =
        ap (of_reference lib addresses entry (role_of b) start count) stored in
      let keys : extended lib addresses entry (role_of b) start count x
          ≡ ok (
              addresses_of lib addresses key (some (path_at account (number lib addresses b) 0))
                (role_of b) (range lib addresses start ((start + count) % 2 ^ 32 - start))) =
        rw (acc, account_role_eq b key entry path h) refl in
      rw more (
        of_entry
        ∙ keys
        ∙ ap
            (λ n. ok (
              addresses_of lib addresses key (some (path_at account (number lib addresses b) 0))
                (role_of b) (range lib addresses start n)))
            whole)

  nothing_listed :
      (b : Bool) (entry : WalletEntry) (start count : ℕ) (es : List (EntryAddress T))
      → count == 0 ≡ true
      → get_addresses lib addresses entry (role_of b) start count ≡ ok es
      → [] ≡ es
  unfolding get_addresses
  nothing_listed b entry start count es empty listed = cc (rw empty at listed)

  -- Each address that an entry of an account lists for a branch has the path of an index in the range
  -- that was asked for, at which the key of the branch has this address; and if the limit of the search
  -- is not below the end of the range, `find_path` finds a path at which the account has it.
  pub get_addresses-find_path :
      (b : Bool) (key : XPub) (entry : WalletEntry) (start count : ℕ) (es : List (EntryAddress T))
      → entry.address ≡ some (extended_pub x)
      → account_hd entry ≡ some account
      → for_branch lib addresses b x ≡ ok key
      → start + count ≤ limit
      → get_addresses lib addresses entry (role_of b) start count ≡ ok es
      → All (IsFound b key start (start + count)) es
  get_addresses-find_path b key entry start count es stored path h below listed =
      elim (Bool-cases (count == 0)) [
        | inl empty ↦
            let same : [] ≡ es = nothing_listed b entry start count es empty listed in
            rw (← same) tt
        | inr more ↦
            let same : listing b key start count ≡ es =
              cc (listed_eq b key entry start count stored path h below more, listed) in
            rw (← same) (all-IsFound b key count start h below)
      ]
