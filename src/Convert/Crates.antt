-- ===== src/Convert/Crates.antt =====
-- What the conversions use of other crates, with what their documentation says.
use emerald_rs.Prelude.{ℕ, ◌*◌, ◌^◌, ◌<◌, ◌≤◌, ◌≡◌, ◌≢◌, Option, some, List, Result, ok, String}
use emerald_rs.Ethereum.Address.{Hex}
use emerald_rs.Structs.{Uuid, Instant, Purpose, custom, StandardHdPath, ConversionError}

-- The values that a part of a path can have.
abbrev pub IsPathValue : ℕ → Type 0
IsPathValue n = n < 2 ^ 31

-- A purpose that has no name of its own.
abbrev pub IsPurpose : Purpose → Type 0
IsPurpose (custom n) = (n < 2 ^ 31) × (n ≢ 44) × (n ≢ 49) × (n ≢ 84)
IsPurpose _ = Unit {0}

pub record IsHdPath (p : StandardHdPath) : Type 0 where
  pub purpose_valid : IsPurpose p.purpose
  pub coin_valid : IsPathValue p.coin_type
  pub account_valid : IsPathValue p.account
  pub change_valid : IsPathValue p.change
  pub index_valid : IsPathValue p.index

-- `uuid`, `chrono`, `hdpath`, `hex` and the keys of `bitcoin`
pub record ConvertLib : Type 0 where
  pub as_bytes : Uuid → List ℕ
  pub from_slice : List ℕ → Option Uuid
  -- `timestamp_millis_opt(x).single()` and the range in which there is one
  pub timestamp_millis_opt : ℕ → Option Instant
  pub time_limit : ℕ
  pub purpose_number : Purpose → ℕ
  pub purpose_of : ℕ → Option Purpose
  -- the error is the name of the part that has no valid value
  pub try_new : Purpose → ℕ → ℕ → ℕ → ℕ → Result String StandardHdPath
  pub hex : Hex
  pub public_key_from_slice : List ℕ → Option (List ℕ)
  pub from_slice-as_bytes : (id : Uuid) → id < 2 ^ 128 → from_slice (as_bytes id) ≡ some id
  pub time_limit_bound : time_limit ≤ 2 ^ 63
  pub timestamp_millis_opt_lem :
      (t : ℕ) → t < time_limit → timestamp_millis_opt t ≡ some (t * 1_000_000)
  pub purpose_of-purpose_number :
      (p : Purpose) → IsPurpose p → purpose_of (purpose_number p) ≡ some p
  pub try_new_lem :
      (p : StandardHdPath)
      → IsHdPath p
      → try_new p.purpose p.coin_type p.account p.change p.index ≡ ok p

-- `write_to_bytes` and `parse_from_bytes` of the `protobuf` crate for a message: what was written
-- parses as the message.
pub record Wire (M : Type 0) : Type 0 where
  pub write_to_bytes : M → Result ConversionError (List ℕ)
  pub parse_from_bytes : List ℕ → Result ConversionError M
  pub parse_from_bytes-write_to_bytes :
      (m : M) (bs : List ℕ) → write_to_bytes m ≡ ok bs → parse_from_bytes bs ≡ ok m
