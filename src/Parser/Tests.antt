-- ===== src/Parser/Tests.antt =====
-- internal/parser at concrete payloads.
use gps_data_receiver.Prelude.{
  bytes_eq, ℕ, ◌≡◌, refl, List, [], ◌∷◌, ◌++◌, some, true, arith, map, codes,
}
use gps_data_receiver.Prelude.Int.{pos}
use gps_data_receiver.Prelude.Result.{ok}
use gps_data_receiver.Codec.Detect.{has_prefix, teltonika_queued_prefix}
use gps_data_receiver.Codec.Samples.{sample_packet, sample_bytes, sample_packet-parsed}
use gps_data_receiver.Parser.Data.{Bytes, ParseResult}
use gps_data_receiver.Parser.Hooshnic.{
  invalid_record, read_json_string_value, preprocess_json, trim_right, replace_all, literal,
  trailing_comma_pattern, skip_spaces, data_object_start_pattern, find_all, extract_matches,
  keep_item, extract_data_items, unescape,
}
use gps_data_receiver.Parser.Hooshnic.Escaping.{
  escape, escape_byte, close, read_json_string_value-escape,
}
use gps_data_receiver.Parser.Hooshnic.Recovery.{Segment, write_text, extract_data_items-write_text}
use gps_data_receiver.Parser.Hooshnic.Items.{
  decode_json_data, decoded_or_extracted, parse_hooshnic_json,
}
use gps_data_receiver.Parser.Hooshnic.Items.Accounted.{Accounted, parse_hooshnic_json-Accounted}
use gps_data_receiver.Parser.Routing.{
  accepted, in_order, parse, parse_with_imei, parse_teltonika_envelope,
}
use gps_data_receiver.Parser.Routing.Envelopes.{
  forget_raw, envelope_of, parse-parse_teltonika_envelope, parse_with_imei-parse_packet,
}
use gps_data_receiver.Parser.Teltonika.{records_to_parsed}
use gps_data_receiver.Parser.Samples.{
  numbers, device, sample_records, device_records, envelope_text, library,
}
use gps_data_receiver.Parser.Sorting.{sort_by_date-Sorts}

-- A quote, a backslash and a line feed within the value.
read_json_string_value-escape_example :
    read_json_string_value (escape (codes "a\"b\\c" ++ 10 ∷ []) ++ close (codes ",x"))
    ≡ some (codes "a\"b\\c" ++ 10 ∷ [], codes ",x")
read_json_string_value-escape_example =
    read_json_string_value-escape (codes "a\"b\\c" ++ 10 ∷ []) (codes ",x")

abbrev segment : Bytes → Bytes → Segment
segment junk value = record { junk = junk; before = []; after = 32 ∷ []; value = value }

abbrev three_segments : List Segment
three_segments =
    segment (codes "[") (codes "{\"data\":\"1\"}")
    ∷ segment (codes ",") []
    ∷ segment (codes " oops ") (codes "2")
    ∷ []

extract_data_items-write_text_example :
    extract_data_items (write_text three_segments (segment (codes ",") (codes "cut"))) ≡ (
      codes "{\"data\":\"1\"}" ∷ codes "2" ∷ [],
      invalid_record [] (codes "empty data field")
          ∷ invalid_record (codes "{\"data\": \"cut") (codes "malformed JSON data object")
          ∷ [],
    )
unfolding escape escape_byte
extract_data_items-write_text_example =
    extract_data_items-write_text three_segments (segment (codes ",") (codes "cut"))
      (
        ((refl, tt), tt, (refl, tt)),
        (
          ((refl, tt), tt, (refl, tt)),
          (((refl, (refl, (refl, (refl, (refl, (refl, tt)))))), tt, (refl, tt)), tt),
        ),
      )
      ((refl, tt), tt, (refl, tt))

abbrev good_item : Bytes
good_item = codes "+V1,3556.2,05003.9,0,260224,052019,0,0,0,3,1,861826074262144"

abbrev cut_message : Bytes
cut_message = codes "[{\"data\":\"bad\"}{\"data\":\"" ++ good_item ++ codes "\"},{\"data\":\"cut"

cut_message-decodes :
    decode_json_data numbers cut_message
    ≡ ok (
      codes "bad" ∷ good_item ∷ [],
      invalid_record (codes "{\"data\":\"cut") (codes "malformed JSON data object") ∷ [],
    )
unfolding decode_json_data decoded_or_extracted preprocess_json trim_right replace_all literal
    trailing_comma_pattern skip_spaces has_prefix extract_data_items extract_matches keep_item
    find_all data_object_start_pattern read_json_string_value unescape
cut_message-decodes = refl

parse_hooshnic_json-Accounted_example :
    (r : ParseResult ℕ) × (parse_hooshnic_json numbers cut_message ≡ ok r)
    × Accounted numbers sort_by_date-Sorts
        (codes "bad" ∷ good_item ∷ [])
        (invalid_record (codes "{\"data\":\"cut") (codes "malformed JSON data object") ∷ [])
        r
parse_hooshnic_json-Accounted_example =
    parse_hooshnic_json-Accounted numbers sort_by_date-Sorts cut_message
      (codes "bad" ∷ good_item ∷ [])
      (invalid_record (codes "{\"data\":\"cut") (codes "malformed JSON data object") ∷ [])
      cut_message-decodes

envelope_begins : has_prefix envelope_text teltonika_queued_prefix ≡ true
unfolding has_prefix
envelope_begins = refl

envelope_encodes : library.marshal (envelope_of library device device_records) ≡ some envelope_text
unfolding bytes_eq records_to_parsed
envelope_encodes = refl

parse-parse_teltonika_envelope_example :
    (parse_teltonika_envelope library device device_records ≡ some envelope_text)
    × (parse library envelope_text []
        ≡ accepted (in_order library (map (forget_raw library) device_records)))
parse-parse_teltonika_envelope_example =
    parse-parse_teltonika_envelope library device envelope_text [] (pos 0) sample_records
      envelope_encodes envelope_begins refl

parse_with_imei-parse_packet_example :
    parse_with_imei library sample_packet [] device (pos 0)
    ≡ accepted (in_order library device_records)
parse_with_imei-parse_packet_example =
    parse_with_imei-parse_packet library sample_packet [] device (pos 0) 8 sample_records
      sample_bytes sample_packet-parsed (omega arith)
