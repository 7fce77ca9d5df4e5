-- ===== src/Convert/Seeds/RoundTrip.antt =====
-- Seeds read back from the bytes that are written of them.
use emerald_rs.Prelude.{ℕ, ◌^◌, ◌<◌, ◌≡◌, refl, some, List, [], ok, bind-eq_ok}
use emerald_rs.Structs.{SeedSource, Seed}
use emerald_rs.Convert.Messages.{file_seed, ProtoSeed, ProtoSeedType}
use emerald_rs.Convert.Crates.{ConvertLib, Wire}
use emerald_rs.Convert.Secrets.{encrypted_to_proto}
use emerald_rs.Convert.Secrets.RoundTrip.{IsVerified, encrypted_from_proto-encrypted_to_proto}
use emerald_rs.Convert.Paths.{
  IsDate, timestamp_round, in_millis, instant_to_proto, label_to_proto, IsLabel, label_round,
}
use emerald_rs.Convert.Seeds.{
  source_from_proto, source_to_proto, seed_from_proto, seed_to_proto, seed_from_bytes,
  seed_to_bytes,
}

-- What is read back of a source: the fingerprints of a Ledger are not written.
abbrev pub read_source : SeedSource → SeedSource
read_source (SeedSource.bytes e) = SeedSource.bytes e
read_source (SeedSource.ledger _) = SeedSource.ledger (record { fingerprints = [] })

abbrev pub IsStorableSource : SeedSource → Type 0
IsStorableSource (SeedSource.bytes e) = IsVerified e.kdf
IsStorableSource (SeedSource.ledger _) = Unit {0}

module _ (lib : ConvertLib) where
  pub record IsStorableSeed (s : Seed) : Type 0 where
    pub uuid : s.id < 2 ^ 128
    pub label_kept : IsLabel s.label
    pub source_kept : IsStorableSource s.source
    pub date_kept : IsDate lib s.created_at

  source_round :
      (s : SeedSource) (m : ProtoSeedType)
      → IsStorableSource s
      → source_to_proto lib s ≡ ok m
      → source_from_proto lib m ≡ ok (read_source s)
  unfolding source_to_proto source_from_proto
  source_round (SeedSource.bytes e) m v h =
      let (made, written, done) = bind-eq_ok (encrypted_to_proto e) _ h in
      let same : ProtoSeedType.bytes made ≡ m = cc in
      rw (← same) (rw (encrypted_from_proto-encrypted_to_proto e made v written) refl)
  source_round (SeedSource.ledger l) m v h =
      let same : ProtoSeedType.ledger (record { fingerprints = [] }) ≡ m = cc in rw (← same) refl

  seed_from_proto-seed_to_proto :
      (s : Seed) (m : ProtoSeed)
      → IsStorableSeed s
      → seed_to_proto lib s ≡ ok m
      → seed_from_proto lib m
        ≡ ok (record s { source = read_source s.source; created_at = in_millis s.created_at })
  unfolding seed_from_proto seed_to_proto
  seed_from_proto-seed_to_proto s m h made =
      let (source, put, done) = bind-eq_ok (source_to_proto lib s.source) _ made in
      let same : ◌≡◌ {A = ProtoSeed}
          (record {
            file_type = file_seed;
            id = lib.as_bytes s.id;
            label = label_to_proto s.label;
            created_at = instant_to_proto lib s.created_at;
            seed_source = some source;
          })
          m =
        cc in
      rw
        (
          ← same,
          source_round s.source source h.source_kept put,
          lib.from_slice-as_bytes s.id h.uuid,
          timestamp_round lib s.created_at h.date_kept,
          label_round s.label h.label_kept,
        )
        refl

  -- A seed that can be stored is read back from its bytes as it was, but that a Ledger has lost its
  -- fingerprints and the date what is below a millisecond.
  pub seed_from_bytes-seed_to_bytes :
      (wire : Wire ProtoSeed) (s : Seed) (bs : List ℕ)
      → IsStorableSeed s
      → seed_to_bytes lib wire s ≡ ok bs
      → seed_from_bytes lib wire bs
        ≡ ok (record s { source = read_source s.source; created_at = in_millis s.created_at })
  unfolding seed_from_bytes seed_to_bytes
  seed_from_bytes-seed_to_bytes wire s bs h made =
      let (m, built, written) = bind-eq_ok (seed_to_proto lib s) _ made in
      rw (wire.parse_from_bytes-write_to_bytes m bs written)
        (seed_from_proto-seed_to_proto s m h built)
