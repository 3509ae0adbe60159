-- ===== src/Parser/Samples.antt =====
-- Stand-ins for the libraries that internal/parser uses, at concrete payloads, for the tests.
use gps_data_receiver.Prelude.{
  ℕ, List, [], ◌∷◌, some, none, true, map, length, codes, ◌&&◌, ◌==◌, if◌then◌else◌, bytes_eq,
}
use gps_data_receiver.Prelude.Int.{pos}
use gps_data_receiver.Prelude.Result.{ok, err}
use gps_data_receiver.Codec.Record.{Record}
use gps_data_receiver.Codec.Encode.{expected_record}
use gps_data_receiver.Codec.Samples.{codec8, sample}
use gps_data_receiver.Parser.Data.{Bytes, ParsedGpsData}
use gps_data_receiver.Parser.Teltonika.{Library, records_to_parsed}
use gps_data_receiver.Parser.Hooshnic.Items.{HooshnicLibrary}
use gps_data_receiver.Parser.Routing.{ParserLibrary}
use gps_data_receiver.Parser.Sorting.{sort_by_date}

-- Floats by their length, times by their length; the decoder refuses.
abbrev pub numbers : HooshnicLibrary ℕ
numbers = record {
  parse_float = λ text. ok (length text);
  of_int = λ n. n;
  add = λ x y. x;
  sub = λ x y. x;
  mul = λ x y. x;
  div = λ x y. x;
  floor = λ x. x;
  round = λ x. x;
  atoi = λ text. pos 0;
  print_int = λ n. codes "n";
  parse_time = λ text. ok (pos (length text));
  format_time = λ t offset. codes "2026-02-24 08:50:19";
  sort_by_date_time = sort_by_date;
  unmarshal_items = λ text. err (codes "unexpected end");
}

abbrev pub instants : Library ℕ
instants = record {
  round_coordinate = λ z. 0;
  format_instant = λ ms offset. codes "2019-06-10 13:34:46";
}

abbrev pub device : Bytes
device = codes "352093081452251"

abbrev pub sample_records : List Record
sample_records = expected_record codec8 sample ∷ []

abbrev pub device_records : List (ParsedGpsData ℕ)
device_records = records_to_parsed instants sample_records device (pos 0)

abbrev pub envelope_text : Bytes
envelope_text =
    codes "{\"_teltonika\":true,\"imei\":\"352093081452251\",\"records\":[{\"coordinate\":[0,0]}]}"

-- The JSON library, which knows one envelope, that of the test, by its marker, its IMEI and the number
-- of its records.
abbrev pub library : ParserLibrary ℕ
library = record {
  for_teltonika = instants;
  for_hooshnic = numbers;
  marshal = λ env.
      if env.teltonika && bytes_eq env.imei device && length env.records == 1
      then some envelope_text
      else none;
  unmarshal = λ text. ok (record {
    teltonika = true;
    imei = device;
    records =
        map (λ (r : ParsedGpsData ℕ). record r { raw_data = [] })
          (records_to_parsed instants sample_records device (pos 0));
  });
}
