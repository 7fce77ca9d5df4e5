-- ===== src/Convert/Seeds.antt =====
-- src/convert/proto/seed.rs: stored seeds as bytes. The conversion of paths is in Convert.Paths.
pub mod RoundTrip
use mathlib.Core.Option
use emerald_rs.Prelude.{
  ℕ, ◌==◌, if◌then◌else◌, ltb, Option, some, none, List, [], ◌∷◌, map, length, Result, ok, err,
  map_err, ok_or, ◌>>=◌, ◌>>◌,
}
use emerald_rs.Util.{none_if_empty, to_arr}
use emerald_rs.Structs.{
  ConversionError, field_is_empty, invalid_field_value, HdPathFingerprint, LedgerSource, SeedSource,
  Seed,
}
use emerald_rs.Convert.Messages.{
  file_seed, ProtoHdFingerprint, ProtoLedgerSeed, ProtoSeedType, ProtoSeed,
}
use emerald_rs.Convert.Crates.{ConvertLib, Wire}
use emerald_rs.Convert.Secrets.{encrypted_from_proto, encrypted_to_proto}
use emerald_rs.Convert.Paths.{
  hd_path_from_proto, hd_path_to_proto, instant_to_proto, instant_from_proto, label_to_proto,
}

module _ (lib : ConvertLib) where
  -- One round of the loop. `Bytes256::try_from` takes 32 bytes.
  unfoldable pub fingerprint_from_proto :
      ProtoHdFingerprint → Result ConversionError HdPathFingerprint
  unfolding hd_path_from_proto to_arr
  fingerprint_from_proto f = do
    value ← ok_or (invalid_field_value "fingerprint") (to_arr 32 f.fingerprint)
    path ← map_err (λ _. invalid_field_value "hd_path") (hd_path_from_proto lib f.path)
    ok (record { hd_path = path; value = value })

  unfoldable pub fingerprints_from_proto :
      List ProtoHdFingerprint → Result ConversionError (List HdPathFingerprint)
  unfolding fingerprint_from_proto
  fingerprints_from_proto [] = ok []
  fingerprints_from_proto (f ∷ fs) = do
    value ← fingerprint_from_proto f
    values ← fingerprints_from_proto fs
    ok (value ∷ values)

  -- `TryFrom<&proto_LedgerSeed> for LedgerSource`
  unfoldable pub ledger_from_proto : ProtoLedgerSeed → Result ConversionError LedgerSource
  unfolding fingerprints_from_proto
  ledger_from_proto m = do
    fingerprints ← fingerprints_from_proto m.fingerprints
    ok (record { fingerprints = fingerprints })

  abbrev fingerprint_to_proto : HdPathFingerprint → ProtoHdFingerprint
  unfolding hd_path_to_proto
  fingerprint_to_proto f = record { path = hd_path_to_proto lib f.hd_path; fingerprint = f.value }

  abbrev new_ledger : ProtoLedgerSeed
  new_ledger = record { fingerprints = [] }

  -- `TryFrom<LedgerSource> for proto_LedgerSeed`. The test is on the new message, not on the value.
  unfoldable pub ledger_to_proto : LedgerSource → ProtoLedgerSeed
  unfolding fingerprint_to_proto
  ledger_to_proto value =
      if ltb 0 (length (new_ledger).fingerprints)
      then record { fingerprints = map fingerprint_to_proto value.fingerprints }
      else new_ledger

  abbrev source_from_proto : ProtoSeedType → Result ConversionError SeedSource
  unfolding encrypted_from_proto ledger_from_proto
  source_from_proto (ProtoSeedType.bytes e) = do v ← encrypted_from_proto e; ok (SeedSource.bytes v)
  source_from_proto (ProtoSeedType.ledger l) = do v ← ledger_from_proto l; ok (SeedSource.ledger v)

  unfoldable pub seed_from_proto : ProtoSeed → Result ConversionError Seed
  unfolding source_from_proto none_if_empty
  seed_from_proto m = do
    seed_source ← ok_or (field_is_empty "seed_source") m.seed_source
    source ← source_from_proto seed_source
    id ← ok_or (invalid_field_value "id") (lib.from_slice m.id)
    ok (record {
      id = id;
      source = source;
      label = none_if_empty m.label;
      created_at = instant_from_proto lib m.created_at;
    })

  -- `TryFrom<&[u8]> for Seed`
  unfoldable pub seed_from_bytes : Wire ProtoSeed → List ℕ → Result ConversionError Seed
  unfolding seed_from_proto
  seed_from_bytes wire bs = do m ← wire.parse_from_bytes bs; seed_from_proto m

  abbrev source_to_proto : SeedSource → Result ConversionError ProtoSeedType
  unfolding encrypted_to_proto ledger_to_proto
  source_to_proto (SeedSource.bytes s) = do m ← encrypted_to_proto s; ok (ProtoSeedType.bytes m)
  source_to_proto (SeedSource.ledger s) = ok (ProtoSeedType.ledger (ledger_to_proto s))

  unfoldable pub seed_to_proto : Seed → Result ConversionError ProtoSeed
  unfolding source_to_proto
  seed_to_proto s = do
    source ← source_to_proto s.source
    ok (record {
      file_type = file_seed;
      id = lib.as_bytes s.id;
      label = label_to_proto s.label;
      created_at = instant_to_proto lib s.created_at;
      seed_source = some source;
    })

  -- `TryFrom<Seed> for Vec<u8>`
  unfoldable pub seed_to_bytes : Wire ProtoSeed → Seed → Result ConversionError (List ℕ)
  unfolding seed_to_proto
  seed_to_bytes wire s = do m ← seed_to_proto s; wire.write_to_bytes m
