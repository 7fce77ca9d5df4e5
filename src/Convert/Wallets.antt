-- ===== src/Convert/Wallets.antt =====
-- src/convert/proto/wallet.rs: wallets and their entries as messages.
pub mod RoundTrip
use mathlib.Core.Option
use native.Mathlib.Decide.{ℕ_discrete}
use emerald_rs.Prelude.{
  ℕ, ◌+◌, ◌%◌, ◌^◌, ◌≡◌, ◌==◌, ◌&&◌, max, if◌then◌else◌, Bool, String, Option, some, none, List, [],
  ◌∷◌, ◌++◌, map, any, Result, ok, err, map_err, ok_or, ◌>>=◌, ◌>>◌,
}
use emerald_rs.Util.{none_if_empty}
use emerald_rs.Chains.{Blockchain, as_u32, blockchain_of_u32}
use emerald_rs.Structs.{
  Instant, ConversionError, field_is_empty, invalid_field_value, unsupported_value, AddressRef,
  SeedRef, PkType, private_key_ref, seed_hd, WalletEntry, ReservedPath, Wallet, max_id,
}
use emerald_rs.Convert.Messages.{
  FileType, file_wallet, ProtoAddress, ProtoHdPath, ProtoSeedHd, ProtoReserved,
  ProtoWalletEntryPkType, hd_path, pk_id, ProtoWalletEntry, ProtoWallet,
}
use emerald_rs.Convert.Crates.{ConvertLib, Wire}
use emerald_rs.Convert.Addresses.{address_from_proto, address_to_proto}
use emerald_rs.Convert.Paths.{
  hd_path_from_proto, hd_path_to_proto, instant_to_proto, instant_from_proto, label_to_proto,
}

-- A conversion that fails, or the panic of `Utc.timestamp_millis` on a date out of its range.
pub data ReadError : Type 0 where
  conversion : ConversionError → ReadError
  panic : ReadError

module _ (lib : ConvertLib) where
  abbrev seed_ref_from_proto : ProtoSeedHd → Result ConversionError PkType
  unfolding hd_path_from_proto
  seed_ref_from_proto m = do
    seed_id ← ok_or (invalid_field_value "seed_id") (lib.from_slice m.seed_id)
    path ← map_err (λ _. invalid_field_value "hd_path") (hd_path_from_proto lib m.path)
    ok (seed_hd (record { seed_id = seed_id; hd_path = path }))

  abbrev pk_type_from_proto : ProtoWalletEntryPkType → Result ConversionError PkType
  pk_type_from_proto (hd_path m) = seed_ref_from_proto m
  pk_type_from_proto (pk_id bs) = do
    id ← ok_or (invalid_field_value "pk_id") (lib.from_slice bs)
    ok (private_key_ref id)

  abbrev optional_address : Option ProtoAddress → Result ConversionError (Option AddressRef)
  unfolding address_from_proto
  optional_address (some m) = address_from_proto lib m
  optional_address none = ok none

  -- `TryFrom<&proto_WalletEntry> for WalletEntry`
  unfoldable pub entry_from_proto : ProtoWalletEntry → Result ReadError WalletEntry
  unfolding none_if_empty optional_address seed_ref_from_proto
  entry_from_proto m = do
    blockchain ←
        map_err (λ _. conversion (unsupported_value "blockchain_id"))
          (blockchain_of_u32 m.blockchain_id)
    address ← map_err conversion (optional_address m.address)
    pk_type ← ok_or (conversion (field_is_empty "pk_type")) m.pk_type
    key ← map_err conversion (pk_type_from_proto pk_type)
    created_at ← ok_or panic (lib.timestamp_millis_opt m.created_at)
    ok (record {
      id = m.id;
      label = none_if_empty m.label;
      blockchain = blockchain;
      address = address;
      key = key;
      receive_disabled = m.receive_disabled;
      created_at = created_at;
    })

  abbrev pk_type_to_proto : PkType → ProtoWalletEntryPkType
  unfolding hd_path_to_proto
  pk_type_to_proto (seed_hd s) =
      hd_path (record { seed_id = lib.as_bytes s.seed_id; path = hd_path_to_proto lib s.hd_path })
  pk_type_to_proto (private_key_ref id) = pk_id (lib.as_bytes id)

  -- `From<&WalletEntry> for proto_WalletEntry`
  unfoldable pub entry_to_proto : WalletEntry → ProtoWalletEntry
  unfolding address_to_proto pk_type_to_proto
  entry_to_proto e = record {
    id = e.id % 2 ^ 32;
    blockchain_id = as_u32 e.blockchain;
    receive_disabled = e.receive_disabled;
    address = Option.map (address_to_proto lib) e.address;
    label = label_to_proto e.label;
    created_at = instant_to_proto lib e.created_at;
    pk_type = some (pk_type_to_proto e.key);
  }

  abbrev cons_reserved : ℕ → Option ℕ → List ReservedPath → List ReservedPath
  cons_reserved account_id (some seed_id) rest =
      record { seed_id = seed_id; account_id = account_id } ∷ rest
  cons_reserved account_id none rest = rest

  -- `TryFrom<proto_Wallet> for Vec<ReservedPath>`, on the accounts of the message
  unfoldable pub reserved_from_proto : List ProtoReserved → List ReservedPath
  reserved_from_proto [] = []
  reserved_from_proto (r ∷ rs) =
      cons_reserved r.account_id (lib.from_slice r.seed_id) (reserved_from_proto rs)

  unfoldable pub entries_from_proto : List ProtoWalletEntry → Result ReadError (List WalletEntry)
  unfolding entry_from_proto
  entries_from_proto [] = ok []
  entries_from_proto (m ∷ ms) = do e ← entry_from_proto m; es ← entries_from_proto ms; ok (e ∷ es)

  unfoldable pub wallet_from_proto : ProtoWallet → Result ReadError Wallet
  unfolding entries_from_proto reserved_from_proto none_if_empty
  wallet_from_proto m = do
    entries ← entries_from_proto m.entries
    id ← ok_or (conversion (invalid_field_value "id")) (lib.from_slice m.id)
    ok (record {
      id = id;
      label = none_if_empty m.label;
      entries = entries;
      entry_seq = m.entry_seq;
      reserved = reserved_from_proto m.hd_accounts;
      created_at = instant_from_proto lib m.created_at;
    })

  -- `TryFrom<&[u8]> for Wallet`
  unfoldable pub wallet_from_bytes : Wire ProtoWallet → List ℕ → Result ReadError Wallet
  unfolding wallet_from_proto
  wallet_from_bytes wire bs = do
    m ← map_err conversion (wire.parse_from_bytes bs)
    wallet_from_proto m

  abbrev same_reserved : ReservedPath → ReservedPath → Bool
  same_reserved a b = (a.seed_id == b.seed_id) && (a.account_id == b.account_id)

  -- `if !reserved.contains(&r) { reserved.push(r) }` for the key of an entry
  abbrev pub reserve : PkType → List ReservedPath → List ReservedPath
  reserve (private_key_ref _) reserved = reserved
  reserve (seed_hd s) reserved =
      let r : ReservedPath = record { seed_id = s.seed_id; account_id = s.hd_path.account } in
      if any (same_reserved r) reserved then reserved else reserved ++ r ∷ []

  -- the loop over the entries
  unfoldable pub reserve_all : List WalletEntry → List ReservedPath → List ReservedPath
  reserve_all [] reserved = reserved
  reserve_all (e ∷ es) reserved = reserve_all es (reserve e.key reserved)

  -- The sequence that is stored.
  abbrev pub stored_seq : Option ℕ → ℕ → ℕ
  stored_seq (some id) seq = max ((id + 1) % 2 ^ 64) seq
  stored_seq none seq = seq

  abbrev reserved_to_proto : ReservedPath → ProtoReserved
  reserved_to_proto r = record { seed_id = lib.as_bytes r.seed_id; account_id = r.account_id }

  unfoldable pub wallet_to_proto : Wallet → ProtoWallet
  unfolding entry_to_proto reserve_all max_id
  wallet_to_proto w = record {
    file_type = file_wallet;
    id = lib.as_bytes w.id;
    label = label_to_proto w.label;
    hd_accounts = map reserved_to_proto (reserve_all w.entries w.reserved);
    entries = map entry_to_proto w.entries;
    entry_seq = stored_seq (max_id w.entries) w.entry_seq % 2 ^ 32;
    created_at = instant_to_proto lib w.created_at;
  }

  -- `TryFrom<Wallet> for Vec<u8>`
  unfoldable pub wallet_to_bytes : Wire ProtoWallet → Wallet → Result ConversionError (List ℕ)
  unfolding wallet_to_proto
  wallet_to_bytes wire w = wire.write_to_bytes (wallet_to_proto w)
