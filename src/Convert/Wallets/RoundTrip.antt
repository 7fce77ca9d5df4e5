-- ===== src/Convert/Wallets/RoundTrip.antt =====
-- Wallets read back from the bytes that are written of them.
use mathlib.Core.Option
use emerald_rs.Prelude.{
  ℕ, ◌%◌, ◌^◌, ◌<◌, ◌≡◌, refl, arith, Option, some, none, List, [], ◌∷◌, map, any, All, All-append,
  ok, Bool-cases, Option-cases, inl, inr,
}
use emerald_rs.Chains.{as_u32}
use emerald_rs.Chains.Ids.{blockchain_of_u32-as_u32}
use emerald_rs.Structs.{
  Uuid, AddressRef, PkType, private_key_ref, seed_hd, WalletEntry, ReservedPath, Wallet, max_id,
  next_entry_id,
}
use emerald_rs.Convert.Messages.{ProtoWallet}
use emerald_rs.Convert.Crates.{ConvertLib, Wire, IsHdPath}
use emerald_rs.Convert.Addresses.{address_to_proto}
use emerald_rs.Convert.Addresses.RoundTrip.{IsStorableAddress, address_from_proto-address_to_proto}
use emerald_rs.Convert.Paths.{
  hd_path_from_proto-hd_path_to_proto, IsDate, IsLabel, label_round, timestamp_round, in_millis,
}
use emerald_rs.Convert.Wallets.{
  entry_from_proto, entry_to_proto, pk_type_from_proto, pk_type_to_proto, optional_address,
  seed_ref_from_proto, entries_from_proto, reserved_from_proto, reserved_to_proto, reserve,
  reserve_all, stored_seq, wallet_from_proto, wallet_to_proto, wallet_from_bytes, wallet_to_bytes,
  same_reserved,
}

-- An identifier of 16 bytes.
abbrev pub IsUuid : Uuid → Type 0
IsUuid id = id < 2 ^ 128

abbrev pub IsStorableRef : PkType → Type 0
IsStorableRef (private_key_ref id) = IsUuid id
IsStorableRef (seed_hd s) = IsUuid s.seed_id × IsHdPath s.hd_path

abbrev pub entry_in_millis : WalletEntry → WalletEntry
entry_in_millis e = record e { created_at = in_millis e.created_at }

module _ (lib : ConvertLib) where
  abbrev pub IsStorableOption : Option AddressRef → Type 0
  IsStorableOption none = Unit {0}
  IsStorableOption (some a) = IsStorableAddress lib a

  -- What an entry may hold to be read back.
  pub record IsStorableEntry (e : WalletEntry) : Type 0 where
    pub small_id : e.id < 2 ^ 32
    pub label_kept : IsLabel e.label
    pub address_kept : IsStorableOption e.address
    pub key_kept : IsStorableRef e.key
    pub date_kept : IsDate lib e.created_at

  -- What a wallet may hold to be read back.
  pub record IsStorableWallet (w : Wallet) : Type 0 where
    pub uuid : IsUuid w.id
    pub label_kept : IsLabel w.label
    pub entries_kept : All IsStorableEntry w.entries
    pub small_seq : next_entry_id w < 2 ^ 32
    pub reserved_kept : All (λ r. IsUuid r.seed_id) w.reserved
    pub date_kept : IsDate lib w.created_at

  key_round :
      (k : PkType) → IsStorableRef k → pk_type_from_proto lib (pk_type_to_proto lib k) ≡ ok k
  unfolding seed_ref_from_proto pk_type_to_proto
  key_round (private_key_ref id) h = rw (lib.from_slice-as_bytes id h) refl
  key_round (seed_hd s) (h, p) =
      rw (lib.from_slice-as_bytes s.seed_id h, hd_path_from_proto-hd_path_to_proto lib s.hd_path p)
        refl

  address_round :
      (a : Option AddressRef)
      → IsStorableOption a
      → optional_address lib (Option.map (address_to_proto lib) a) ≡ ok a
  unfolding optional_address
  address_round none h = refl
  address_round (some a) h = address_from_proto-address_to_proto lib a h

  entry_round :
      (e : WalletEntry)
      → IsStorableEntry e
      → entry_from_proto lib (entry_to_proto lib e) ≡ ok (entry_in_millis e)
  unfolding entry_from_proto entry_to_proto
  entry_round e h =
      let small : e.id % 2 ^ 32 ≡ e.id = omega (arith, h.small_id) in
      rw
        (
          (blockchain_of_u32-as_u32 (as_u32 e.blockchain) e.blockchain).1 refl,
          address_round e.address h.address_kept,
          key_round e.key h.key_kept,
          timestamp_round lib e.created_at h.date_kept,
          label_round e.label h.label_kept,
          small,
        )
        refl

  entries_round :
      (es : List WalletEntry)
      → All IsStorableEntry es
      → entries_from_proto lib (map (entry_to_proto lib) es) ≡ ok (map entry_in_millis es)
  unfolding entries_from_proto
  entries_round [] h = refl
  entries_round (e ∷ es) (h, hs) = rw (entry_round e h, entries_round es hs) refl

  reserved_round :
      (rs : List ReservedPath)
      → All (λ r. IsUuid r.seed_id) rs
      → reserved_from_proto lib (map (reserved_to_proto lib) rs) ≡ rs
  unfolding reserved_from_proto
  reserved_round [] h = refl
  reserved_round (r ∷ rs) (h, hs) =
      rw (lib.from_slice-as_bytes r.seed_id h, reserved_round rs hs) refl

  reserve-All :
      (k : PkType) (rs : List ReservedPath)
      → IsStorableRef k
      → All (λ r. IsUuid r.seed_id) rs
      → All (λ r. IsUuid r.seed_id) (reserve lib k rs)
  reserve-All (private_key_ref _) rs h hs = hs
  reserve-All (seed_hd s) rs h hs =
      elim (Bool-cases (
        any (same_reserved lib (record { seed_id = s.seed_id; account_id = s.hd_path.account }))
          rs)) [
            | inl present ↦ rw present hs
            | inr missing ↦ rw missing (
                All-append (λ r. IsUuid r.seed_id) rs
                  (record { seed_id = s.seed_id; account_id = s.hd_path.account } ∷ []) hs
                  (h.0, tt))
          ]

  reserve_all-All :
      (es : List WalletEntry) (rs : List ReservedPath)
      → All IsStorableEntry es
      → All (λ r. IsUuid r.seed_id) rs
      → All (λ r. IsUuid r.seed_id) (reserve_all lib es rs)
  unfolding reserve_all
  reserve_all-All [] rs h hs = hs
  reserve_all-All (e ∷ es) rs (h, t) hs =
      reserve_all-All es (reserve lib e.key rs) t (reserve-All e.key rs h.key_kept hs)

  stored_seq-next_entry_id :
      (w : Wallet) → stored_seq lib (max_id w.entries) w.entry_seq ≡ next_entry_id w
  unfolding next_entry_id
  stored_seq-next_entry_id w = elim (Option-cases (max_id w.entries)) [
    | inl out ↦ rw out (ground arith)
    | inr (m, found) ↦ rw found (ground arith)
  ]

  -- A wallet that can be stored is read back from its bytes as it was, but for its sequence, which
  -- is the identifier that the next entry gets, for its reserved accounts, to which those of the
  -- entries are added, and for its date and those of the entries, which lose what is below a
  -- millisecond.
  pub wallet_from_bytes-wallet_to_bytes :
      (wire : Wire ProtoWallet) (w : Wallet) (bs : List ℕ)
      → IsStorableWallet w
      → wallet_to_bytes lib wire w ≡ ok bs
      → wallet_from_bytes lib wire bs
        ≡ ok (record w {
          entries = map entry_in_millis w.entries;
          entry_seq = next_entry_id w;
          reserved = reserve_all lib w.entries w.reserved;
          created_at = in_millis w.created_at;
        })
  unfolding wallet_from_bytes wallet_to_bytes wallet_from_proto wallet_to_proto
  wallet_from_bytes-wallet_to_bytes wire w bs h written =
      let small : next_entry_id w % 2 ^ 32 ≡ next_entry_id w = omega (arith, h.small_seq) in
      rw
        (
          wire.parse_from_bytes-write_to_bytes (wallet_to_proto lib w) bs written,
          entries_round w.entries h.entries_kept,
          lib.from_slice-as_bytes w.id h.uuid,
          reserved_round (reserve_all lib w.entries w.reserved)
              (reserve_all-All w.entries w.reserved h.entries_kept h.reserved_kept),
          timestamp_round lib w.created_at h.date_kept,
          label_round w.label h.label_kept,
          stored_seq-next_entry_id w,
          small,
        )
        refl
