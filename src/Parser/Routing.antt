-- ===== src/Parser/Routing.antt =====
-- internal/parser: `Parse` and `ParseWithIMEI`, which choose the parser, and the envelope in which the
-- TCP server and the HTTP handler queue Teltonika records.
pub mod Envelopes
use gps_data_receiver.Prelude.{
  ℕ, ◌==◌, List, [], ◌∷◌, Option, none, some, Bool, true, false, if◌then◌else◌, not, length, map,
  byte_at, codes,
}
use gps_data_receiver.Prelude.Int.{ℤ, pos, is_zero}
use gps_data_receiver.Prelude.Result.{Result, ok, err}
use gps_data_receiver.Codec.Detect.{
  Format, unknown, hooshnic_json, teltonika_avl, teltonika_queued, detect_format,
}
use gps_data_receiver.Codec.Packet.{PacketError, Parsed, parsed, refused, panicked, parse_packet}
use gps_data_receiver.Parser.Data.{Bytes, ParsedGpsData, ParseResult}
use gps_data_receiver.Parser.Teltonika.{
  Library, default_timezone_offset, teltonika_records_to_parsed,
}
use gps_data_receiver.Parser.Hooshnic.Items.{HooshnicLibrary, parse_hooshnic_json}

pub record TeltonikaEnvelope (F : Type 0) : Type 0 where
  pub teltonika : Bool
  pub imei : Bytes
  pub records : List (ParsedGpsData F)

-- The JSON library on envelopes, beside what the two parsers use.
pub record ParserLibrary (F : Type 0) : Type 0 where
  pub for_teltonika : Library F
  pub for_hooshnic : HooshnicLibrary F
  pub marshal : TeltonikaEnvelope F → Option Bytes
  pub unmarshal : Bytes → Result Bytes (TeltonikaEnvelope F)

pub data ParseError : Type 0 where
  empty_input : ParseError
  unknown_format : ℕ → ParseError
  invalid_envelope : Bytes → ParseError
  missing_marker : ParseError
  bad_packet : PacketError → ParseError
  bad_json : Bytes → ParseError

pub data Routed (F : Type 0) : Type 0 where
  accepted : ParseResult F → Routed F
  rejected : ParseError → Routed F
  crashed : Routed F

module _ {F : Type 0} (lib : ParserLibrary F) where
  unfoldable pub parse_teltonika_envelope : Bytes → List (ParsedGpsData F) → Option Bytes
  parse_teltonika_envelope imei records =
      lib.marshal (record { teltonika = true; imei = imei; records = records })

  -- A record without an IMEI gets that of the envelope.
  unfoldable pub fill_imei : Bytes → ParsedGpsData F → ParsedGpsData F
  fill_imei imei r = if length r.imei == 0 then record r { imei = imei } else r

  abbrev pub in_order : List (ParsedGpsData F) → ParseResult F
  in_order rs = record { records = (lib.for_hooshnic).sort_by_date_time rs; invalid = [] }

  unfoldable pub open_envelope : Result Bytes (TeltonikaEnvelope F) → Routed F
  unfolding fill_imei
  open_envelope (err e) = rejected (invalid_envelope e)
  open_envelope (ok env) =
      if not env.teltonika
      then rejected missing_marker
      else accepted (in_order (map (fill_imei env.imei) env.records))

  unfoldable pub unmarshal_teltonika_envelope : Bytes → Routed F
  unfolding open_envelope
  unmarshal_teltonika_envelope bytes = open_envelope (lib.unmarshal bytes)

  unfoldable pub of_packet : Bytes → ℤ → Parsed → Routed F
  unfolding teltonika_records_to_parsed
  of_packet imei tz_offset (parsed codec records) =
      accepted (in_order (teltonika_records_to_parsed lib.for_teltonika records imei tz_offset))
  of_packet imei tz_offset (refused codec records e) = rejected (bad_packet e)
  of_packet imei tz_offset panicked = crashed

  -- `spare` is what stands behind the bytes in their slice.
  unfoldable pub parse_teltonika_avl : Bytes → Bytes → Bytes → ℤ → Routed F
  unfolding of_packet
  parse_teltonika_avl bytes spare imei tz_offset =
      of_packet imei tz_offset (parse_packet bytes spare)

  unfoldable pub of_json : Result Bytes (ParseResult F) → Routed F
  of_json (err e) = rejected (bad_json e)
  of_json (ok r) = accepted r

  unfoldable pub route : Format → Bytes → Bytes → Bytes → ℤ → Routed F
  unfolding unmarshal_teltonika_envelope parse_teltonika_avl of_json
  route teltonika_queued bytes spare imei tz_offset = unmarshal_teltonika_envelope bytes
  route teltonika_avl bytes spare imei tz_offset = parse_teltonika_avl bytes spare imei tz_offset
  route hooshnic_json bytes spare imei tz_offset =
      of_json (parse_hooshnic_json lib.for_hooshnic bytes)
  route unknown bytes spare imei tz_offset = rejected (unknown_format (byte_at bytes 0))

  unfoldable pub parse_with_imei : Bytes → Bytes → Bytes → ℤ → Routed F
  unfolding route
  parse_with_imei bytes spare imei tz_offset =
      if length bytes == 0
      then rejected empty_input
      else route (detect_format bytes) bytes spare imei
          (if is_zero tz_offset then default_timezone_offset else tz_offset)

  unfoldable pub parse : Bytes → Bytes → Routed F
  unfolding parse_with_imei
  parse bytes spare = parse_with_imei bytes spare [] default_timezone_offset
