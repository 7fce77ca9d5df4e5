-- ===== src/Convert/Paths.antt =====
-- The paths, dates and labels that the conversions of src/convert/proto share.
use emerald_rs.Prelude.{
  ℕ, ◌^◌, ◌%◌, ◌*◌, ◌/◌, ◌<◌, ◌≡◌, ◌≢◌, refl, arith, String, str_eq, eq_iff, Bool-cases, inl, inr,
  ap, Option, some, none, Result, ok, map_err, ok_or, ◌>>=◌,
}
use emerald_rs.Util.{none_if_empty}
use emerald_rs.Structs.{Instant, ConversionError, invalid_field_value, StandardHdPath}
use emerald_rs.Convert.Messages.{ProtoHdPath}
use emerald_rs.Convert.Crates.{ConvertLib, IsHdPath}

-- A date without the part below a millisecond.
abbrev pub in_millis : Instant → Instant
in_millis t = t / 1_000_000 * 1_000_000

pub in_millis_twice : (t : Instant) → in_millis (in_millis t) ≡ in_millis t
in_millis_twice t = omega arith

module _ (lib : ConvertLib) where
  -- `TryFrom<&proto_HDPath> for StandardHDPath`. The message says which part is wrong.
  unfoldable pub hd_path_from_proto : ProtoHdPath → Result ConversionError StandardHdPath
  hd_path_from_proto m = do
    purpose ← ok_or (invalid_field_value "hd_path/purpose") (lib.purpose_of m.purpose)
    map_err invalid_field_value (lib.try_new purpose m.coin m.account m.change m.index)

  -- `From<StandardHDPath> for proto_HDPath`
  unfoldable pub hd_path_to_proto : StandardHdPath → ProtoHdPath
  hd_path_to_proto p = record {
    purpose = lib.purpose_number p.purpose;
    coin = p.coin_type;
    account = p.account;
    change = p.change;
    index = p.index;
  }

  -- A path whose parts are values of paths is read back as it was.
  pub hd_path_from_proto-hd_path_to_proto :
      (p : StandardHdPath) → IsHdPath p → hd_path_from_proto (hd_path_to_proto p) ≡ ok p
  unfolding hd_path_from_proto hd_path_to_proto
  hd_path_from_proto-hd_path_to_proto p h =
      rw (lib.purpose_of-purpose_number p.purpose h.purpose_valid, lib.try_new_lem p h) refl

  -- `timestamp_millis() as u64`
  abbrev pub instant_to_proto : Instant → ℕ
  instant_to_proto t = t / 1_000_000 % 2 ^ 64

  -- `timestamp_millis_opt(x as i64).single().unwrap_or_else(|| Utc.timestamp_millis(0))`
  abbrev pub unwrap_instant : Option Instant → Instant
  unwrap_instant (some t) = t
  unwrap_instant none = 0

  abbrev pub instant_from_proto : ℕ → Instant
  instant_from_proto x = unwrap_instant (lib.timestamp_millis_opt x)

  -- A date in the range of the library.
  abbrev pub IsDate : Instant → Type 0
  IsDate t = t / 1_000_000 < lib.time_limit

  pub timestamp_round :
      (t : Instant) → IsDate t → lib.timestamp_millis_opt (instant_to_proto t) ≡ some (in_millis t)
  timestamp_round t h =
      let same : t / 1_000_000 % 2 ^ 64 ≡ t / 1_000_000 = omega (arith, lib.time_limit_bound) in
      rw same (lib.timestamp_millis_opt_lem (t / 1_000_000) h)

  pub in_millis-IsDate : (t : Instant) → IsDate t → IsDate (in_millis t)
  in_millis-IsDate t h = omega arith

-- A label that is set, or the default of the field.
abbrev pub label_to_proto : Option String → String
label_to_proto none = ""
label_to_proto (some label) = label

-- An empty label is not told from a missing one.
abbrev pub IsLabel : Option String → Type 0
IsLabel l = l ≢ some ""

pub label_round : (l : Option String) → IsLabel l → none_if_empty (label_to_proto l) ≡ l
unfolding none_if_empty
label_round none h = refl
label_round (some s) h = elim (Bool-cases (str_eq s "")) [
  | inl empty ↦ absurd (h (ap some ((eq_iff s "").0 empty)))
  | inr filled ↦ rw filled refl
]
