-- ===== src/Parser/Teltonika.antt =====
-- internal/parser/teltonika.go: from decoded Teltonika records to parsed ones.
use gps_data_receiver.Prelude.{
  ℕ, suc, ◌+◌, ◌-◌, ◌/◌, ◌%◌, ◌≡◌, refl, ap, List, [], ◌∷◌, Option, none, some, length, ltb, ◌==◌,
  if◌then◌else◌,
}
use gps_data_receiver.Prelude.Int.{ℤ, pos, negsuc, is_zero}
use gps_data_receiver.Codec.Record.{Record, io_lookup}
use gps_data_receiver.Parser.Data.{Bytes, ParsedGpsData}

-- What the conversion takes from Go's library: a coordinate in units of 1e-7 degrees rounded to six
-- decimals, and an instant (milliseconds since 1970, then an offset in nanoseconds) as
-- YYYY-MM-DD HH:MM:SS.
pub record Library (F : Type 0) : Type 0 where
  pub round_coordinate : ℤ → F
  pub format_instant : ℕ → ℤ → Bytes

-- 3*time.Hour + 30*time.Minute, in nanoseconds
abbrev pub default_timezone_offset : ℤ
default_timezone_offset = pos 12_600_000_000_000

-- rec.Lon < 0, as 0 or 1
abbrev half : ℤ → ℤ
half (pos n) = pos 1
half (negsuc n) = pos 0

-- `ok && v == 1` for the ignition, IO 239
abbrev ignition : Option ℕ → ℤ
ignition none = pos 0
ignition (some v) = if v == 1 then pos 1 else pos 0

abbrev pub hex_digit : ℕ → ℕ
hex_digit n = if ltb n 10 then b'0' + n else b'a' + (n - 10)

-- hex.EncodeToString
unfoldable pub hex_encode : Bytes → Bytes
hex_encode [] = []
hex_encode (b ∷ bs) = hex_digit (b / 16) ∷ hex_digit (b % 16) ∷ hex_encode bs

module _ {F : Type 0} (lib : Library F) where
  unfoldable pub teltonika_record_to_parsed : Bytes → ℤ → Record → ParsedGpsData F
  teltonika_record_to_parsed imei tz_offset rec = record {
    lat = lib.round_coordinate rec.lat;
    lon = lib.round_coordinate rec.lon;
    speed = pos rec.speed;
    status = ignition (io_lookup 239 rec.ios);
    ew = half rec.lon;
    ns = half rec.lat;
    date_time = lib.format_instant rec.timestamp_ms tz_offset;
    imei = imei;
    raw_data = hex_encode rec.raw_bytes;
  }

  unfoldable pub teltonika_records_to_parsed : List Record → Bytes → ℤ → List (ParsedGpsData F)
  teltonika_records_to_parsed [] imei tz_offset = []
  teltonika_records_to_parsed (r ∷ rs) imei tz_offset =
      teltonika_record_to_parsed imei tz_offset r ∷ teltonika_records_to_parsed rs imei tz_offset

  -- The entry for other packages: an offset of zero means the default.
  unfoldable pub records_to_parsed : List Record → Bytes → ℤ → List (ParsedGpsData F)
  unfolding teltonika_records_to_parsed
  records_to_parsed rs imei tz_offset =
      teltonika_records_to_parsed rs imei
        (if is_zero tz_offset then default_timezone_offset else tz_offset)

  length-teltonika_records_to_parsed :
      (rs : List Record) (imei : Bytes) (tz_offset : ℤ)
      → length (teltonika_records_to_parsed rs imei tz_offset) ≡ length rs
  unfolding teltonika_records_to_parsed
  length-teltonika_records_to_parsed [] imei tz_offset = refl
  length-teltonika_records_to_parsed (r ∷ rs) imei tz_offset =
      ap suc (length-teltonika_records_to_parsed rs imei tz_offset)

  pub length-records_to_parsed :
      (rs : List Record) (imei : Bytes) (tz_offset : ℤ)
      → length (records_to_parsed rs imei tz_offset) ≡ length rs
  unfolding records_to_parsed
  length-records_to_parsed rs imei tz_offset = length-teltonika_records_to_parsed rs imei _
