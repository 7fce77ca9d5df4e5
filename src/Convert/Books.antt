-- ===== src/Convert/Books.antt =====
-- src/convert/proto/book.rs: bookmarks as bytes.
use emerald_rs.Prelude.{
  ℕ, String, Option, some, none, List, Result, ok, map_err, ok_or, ◌>>=◌, ◌≡◌, refl,
}
use emerald_rs.Util.{none_if_empty}
use emerald_rs.Chains.{Blockchain, as_u32, blockchain_of_u32}
use emerald_rs.Chains.Ids.{blockchain_of_u32-as_u32}
use emerald_rs.Structs.{Instant, AddressRef, ConversionError, invalid_field_value}
use emerald_rs.Convert.Messages.{file_book, ProtoAddress, ProtoBookItem}
use emerald_rs.Convert.Crates.{ConvertLib, Wire}
use emerald_rs.Convert.Addresses.{address_from_proto, address_to_proto}
use emerald_rs.Convert.Addresses.RoundTrip.{IsStorableAddress, address_from_proto-address_to_proto}
use emerald_rs.Convert.Paths.{
  instant_to_proto, instant_from_proto, IsDate, timestamp_round, in_millis, label_to_proto, IsLabel,
  label_round,
}

-- src/structs/book.rs
pub record BookmarkDetails : Type 0 where
  pub blockchain : Blockchain
  pub label : Option String
  pub description : Option String
  pub address : AddressRef
  pub created_at : Instant

module _ (lib : ConvertLib) where
  abbrev address_of_item : Option ProtoAddress → Result ConversionError (Option AddressRef)
  unfolding address_from_proto
  address_of_item (some address) = address_from_proto lib address
  address_of_item none = ok none

  unfoldable pub book_from_proto : ProtoBookItem → Result ConversionError BookmarkDetails
  unfolding address_of_item none_if_empty
  book_from_proto m = do
    found ← address_of_item m.address
    address ← ok_or (invalid_field_value "address is empty") found
    blockchain ← map_err (λ _. invalid_field_value "blockchain") (blockchain_of_u32 m.blockchain)
    ok (record {
      blockchain = blockchain;
      label = none_if_empty m.label;
      description = none_if_empty m.description;
      address = address;
      created_at = instant_from_proto lib m.created_at;
    })

  -- `TryFrom<&[u8]> for BookmarkDetails`
  unfoldable pub book_from_bytes :
      Wire ProtoBookItem → List ℕ → Result ConversionError BookmarkDetails
  unfolding book_from_proto
  book_from_bytes wire bs = do m ← wire.parse_from_bytes bs; book_from_proto m

  unfoldable pub book_to_proto : BookmarkDetails → ProtoBookItem
  unfolding address_to_proto
  book_to_proto b = record {
    file_type = file_book;
    label = label_to_proto b.label;
    description = label_to_proto b.description;
    blockchain = as_u32 b.blockchain;
    address = some (address_to_proto lib b.address);
    created_at = instant_to_proto lib b.created_at;
  }

  -- `TryFrom<BookmarkDetails> for Vec<u8>`
  unfoldable pub book_to_bytes :
      Wire ProtoBookItem → BookmarkDetails → Result ConversionError (List ℕ)
  unfolding book_to_proto
  book_to_bytes wire b = wire.write_to_bytes (book_to_proto b)

  pub record IsStorableBook (b : BookmarkDetails) : Type 0 where
    pub label_kept : IsLabel b.label
    pub description_kept : IsLabel b.description
    pub address_kept : IsStorableAddress lib b.address
    pub date_kept : IsDate lib b.created_at

  -- A bookmark with a storable address, a date in range and no empty text is read back from its bytes
  -- as it was, but that the date has lost what is below a millisecond.
  pub book_from_bytes-book_to_bytes :
      (wire : Wire ProtoBookItem) (b : BookmarkDetails) (bs : List ℕ)
      → IsStorableBook b
      → book_to_bytes wire b ≡ ok bs
      → book_from_bytes wire bs ≡ ok (record b { created_at = in_millis b.created_at })
  unfolding book_from_bytes book_to_bytes book_from_proto book_to_proto
  book_from_bytes-book_to_bytes wire b bs h written =
      rw
        (
          wire.parse_from_bytes-write_to_bytes (book_to_proto b) bs written,
          address_from_proto-address_to_proto lib b.address h.address_kept,
          (blockchain_of_u32-as_u32 (as_u32 b.blockchain) b.blockchain).1 refl,
          timestamp_round lib b.created_at h.date_kept,
          label_round b.label h.label_kept,
          label_round b.description h.description_kept,
        )
        refl
