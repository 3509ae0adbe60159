-- ===== src/Parser/Hooshnic/Items.antt =====
-- internal/parser/parser.go: from the text of an item to a record, and `parseHooshnicJSON`.
pub mod Accounted
use gps_data_receiver.Prelude.{
  ℕ, ◌==◌, ◌&&◌, List, [], ◌∷◌, ◌++◌, Bool, true, false, if◌then◌else◌, not, ltb, length, get_or,
  codes,
}
use gps_data_receiver.Prelude.Int.{ℤ, pos}
use gps_data_receiver.Prelude.Result.{Result, ok, err, ◌>>=◌}
use gps_data_receiver.Parser.Data.{Bytes, ParsedGpsData, InvalidRecord, ParseResult}
use gps_data_receiver.Parser.Hooshnic.{invalid_record, preprocess_json, extract_data_items}

-- Go's library as the parser uses it: floats, strconv (`atoi` is the number that Atoi returns, with an
-- error or without), time (an instant in seconds since 1970, an offset in nanoseconds), the order of
-- sort.Slice by DateTime, and the JSON decoder on an array of objects with a string `data`.
pub record HooshnicLibrary (F : Type 0) : Type 0 where
  pub parse_float : Bytes → Result Bytes F
  pub of_int : ℕ → F
  pub add : F → F → F
  pub sub : F → F → F
  pub mul : F → F → F
  pub div : F → F → F
  pub floor : F → F
  pub round : F → F
  pub atoi : Bytes → ℤ
  pub print_int : ℕ → Bytes
  pub parse_time : Bytes → Result Bytes ℤ
  pub format_time : ℤ → ℤ → Bytes
  pub sort_by_date_time : List (ParsedGpsData F) → List (ParsedGpsData F)
  pub unmarshal_items : Bytes → Result Bytes (List Bytes)

-- fmt.Errorf("text: %w", err)
unfoldable pub wrap : {A : Type 0} → Bytes → Result Bytes A → Result Bytes A
wrap text (err e) = err (text ++ e)
wrap text (ok a) = ok a

abbrev push : ℕ → List Bytes → List Bytes
push c [] = (c ∷ []) ∷ []
push c (f ∷ fs) = (c ∷ f) ∷ fs

-- strings.Split with a separator of one byte
unfoldable pub split : ℕ → Bytes → List Bytes
split sep [] = [] ∷ []
split sep (c ∷ cs) = let rest = split sep cs in if c == sep then [] ∷ rest else push c rest

module _ {F : Type 0} (lib : HooshnicLibrary F) where
  unfoldable pub nmea_to_decimal_degrees : F → F
  nmea_to_decimal_degrees nmea =
      let degrees = lib.floor (lib.div nmea (lib.of_int 100)) in
      let minutes = lib.div (lib.sub nmea (lib.mul degrees (lib.of_int 100))) (lib.of_int 60) in
      lib.add degrees minutes

  unfoldable pub round_six : F → F
  round_six x = lib.div (lib.round (lib.mul x (lib.of_int 1_000_000))) (lib.of_int 1_000_000)

  unfoldable pub convert_nmea_to_decimal_degrees : Bytes → Bytes → Result Bytes (F × F)
  unfolding nmea_to_decimal_degrees round_six wrap
  convert_nmea_to_decimal_degrees nmea_lat nmea_lon = do
    lat ← wrap (codes "invalid latitude: ") (lib.parse_float nmea_lat)
    lon ← wrap (codes "invalid longitude: ") (lib.parse_float nmea_lon)
    ok (round_six (nmea_to_decimal_degrees lat), round_six (nmea_to_decimal_degrees lon))

  -- The offset is 3h30m.
  unfoldable pub parse_date_time : Bytes → Bytes → Result Bytes Bytes
  unfolding wrap
  parse_date_time date time = do
    t ← wrap (codes "invalid date/time format: ") (lib.parse_time (date ++ time))
    ok (lib.format_time t (pos 12_600_000_000_000))

  abbrev field : List Bytes → ℕ → Bytes
  field fields i = get_or fields i []

  unfoldable pub item_of_fields : Bytes → List Bytes → Result Bytes (ParsedGpsData F)
  unfolding convert_nmea_to_decimal_degrees parse_date_time wrap
  item_of_fields text fields = do
    place ←
        wrap (codes "failed to convert coordinates: ")
          (convert_nmea_to_decimal_degrees (field fields 1) (field fields 2))
    date_time ←
        wrap (codes "failed to parse date/time: ")
          (parse_date_time (field fields 4) (field fields 5))
    ok (record {
      lat = place.0;
      lon = place.1;
      speed = lib.atoi (field fields 6);
      status = lib.atoi (field fields 8);
      ew = lib.atoi (field fields 9);
      ns = lib.atoi (field fields 10);
      date_time = date_time;
      imei = field fields 11;
      raw_data = text;
    })

  unfoldable pub process_data_item : Bytes → Result Bytes (ParsedGpsData F)
  unfolding item_of_fields split
  process_data_item text =
      let fields = split b',' text in
      if not (length fields == 12)
      then err (codes "expected 12 fields, got " ++ lib.print_int (length fields))
      else item_of_fields text fields

  abbrev pub Processed : Type 0
  Processed = List (ParsedGpsData F) × List InvalidRecord

  unfoldable pub keep_processed : Bytes → Result Bytes (ParsedGpsData F) → Processed → Processed
  keep_processed text (err reason) (records, invalid) =
      (records, invalid_record text reason ∷ invalid)
  keep_processed text (ok r) (records, invalid) = (r ∷ records, invalid)

  unfoldable pub process_data_items : List Bytes → Processed
  unfolding keep_processed process_data_item
  process_data_items [] = ([], [])
  process_data_items ([] ∷ items) =
      keep_processed [] (err (codes "empty data field")) (process_data_items items)
  process_data_items ((c ∷ cs) ∷ items) =
      keep_processed (c ∷ cs) (process_data_item (c ∷ cs)) (process_data_items items)

  unfoldable pub decoded_or_extracted :
      Bytes → Result Bytes (List Bytes) → Result Bytes (List Bytes × List InvalidRecord)
  unfolding extract_data_items
  decoded_or_extracted json (ok items) = ok (items, [])
  decoded_or_extracted json (err e) =
      let extracted = extract_data_items json in
      if length extracted.0 == 0 && length extracted.1 == 0
      then err (codes "invalid JSON format: " ++ e)
      else ok extracted

  unfoldable pub decode_json_data : Bytes → Result Bytes (List Bytes × List InvalidRecord)
  unfolding decoded_or_extracted preprocess_json
  decode_json_data json =
      let trimmed = preprocess_json json in
      decoded_or_extracted trimmed (lib.unmarshal_items trimmed)

  unfoldable pub finish_hooshnic : List Bytes × List InvalidRecord → ParseResult F
  unfolding process_data_items
  finish_hooshnic (items, decode_invalid) =
      if length items == 0 && length decode_invalid == 0
      then record { records = []; invalid = [] }
      else (let processed = process_data_items items in
          record {
            records = lib.sort_by_date_time processed.0;
            invalid = decode_invalid ++ processed.1;
          })

  unfoldable pub parse_hooshnic_json : Bytes → Result Bytes (ParseResult F)
  unfolding decode_json_data finish_hooshnic wrap
  parse_hooshnic_json json = do
    decoded ← wrap (codes "failed to decode JSON data: ") (decode_json_data json)
    ok (finish_hooshnic decoded)
