-- ===== src/Parser/Routing/Envelopes.antt =====
-- internal/parser/teltonika.go: what the parsers make of packets and of queued envelopes.
use gps_data_receiver.Prelude.{
  ℕ, ◌<◌, ◌≤◌, ◌≡◌, ◌==◌, refl, ap, sym, List, [], ◌∷◌, some, Bool-cases, true, false, inl, inr,
  arith, leb, All, IsByte, length, map,
}
use gps_data_receiver.Prelude.Int.{ℤ}
use gps_data_receiver.Prelude.Result.{ok}
use gps_data_receiver.Codec.Record.{Record}
use gps_data_receiver.Codec.Packet.{parsed, parse_packet}
use gps_data_receiver.Codec.Detect.{
  has_prefix, detect_format, teltonika_queued, teltonika_queued_prefix, detect_format-parse_packet,
}
use gps_data_receiver.Parser.Data.{Bytes, ParsedGpsData}
use gps_data_receiver.Parser.Teltonika.{
  teltonika_record_to_parsed, teltonika_records_to_parsed, records_to_parsed,
}
use gps_data_receiver.Parser.Routing.{
  TeltonikaEnvelope, ParserLibrary, accepted, parse_teltonika_envelope, fill_imei, in_order,
  open_envelope, unmarshal_teltonika_envelope, of_packet, parse_teltonika_avl, route,
  parse_with_imei, parse,
}

has_prefix-length : (bytes text : Bytes) → has_prefix bytes text ≡ true → length text ≤ length bytes
unfolding has_prefix
has_prefix-length bytes [] h = omega arith
has_prefix-length [] (t ∷ ts) h = absurd (cc h)
has_prefix-length (b ∷ bs) (t ∷ ts) h = elim (Bool-cases (b == t)) [
  | inl same ↦ omega (arith, has_prefix-length bs ts (rw same at h))
  | inr differ ↦ absurd (cc (rw differ at h))
]

detect_format-queued :
    (bytes : Bytes)
    → has_prefix bytes teltonika_queued_prefix ≡ true
    → detect_format bytes ≡ teltonika_queued
unfolding detect_format
detect_format-queued bytes h =
    let size : 14 ≤ length bytes = has_prefix-length bytes teltonika_queued_prefix h in
    let long : leb 14 (length bytes) ≡ true = ground arith in rw (detect_format, long) (rw h refl)

module _ {F : Type 0} (lib : ParserLibrary F) where
  abbrev pub forget_raw : ParsedGpsData F → ParsedGpsData F
  forget_raw r = record r { raw_data = [] }

  fill_imei-of_device :
      (imei : Bytes) (tz_offset : ℤ) (rs : List Record)
      → map
          (fill_imei lib imei)
          (map forget_raw (teltonika_records_to_parsed lib.for_teltonika rs imei tz_offset))
        ≡ map forget_raw (teltonika_records_to_parsed lib.for_teltonika rs imei tz_offset)
  unfolding fill_imei teltonika_records_to_parsed teltonika_record_to_parsed
  fill_imei-of_device imei tz_offset [] = refl
  fill_imei-of_device imei tz_offset (r ∷ rs) =
      let same =
        fill_imei_same imei
          (forget_raw (teltonika_record_to_parsed lib.for_teltonika imei tz_offset r)) refl in
      λ i. same i ∷ fill_imei-of_device imei tz_offset rs i
    where
      fill_imei_same :
          (imei : Bytes) (r : ParsedGpsData F) → r.imei ≡ imei → fill_imei lib imei r ≡ r
      fill_imei_same imei r e = elim (Bool-cases (length r.imei == 0)) [
        | inl missing ↦ rw missing (λ i. record r { imei = sym e i })
        | inr given ↦ rw given refl
      ]

  -- The envelope of a device's records.
  abbrev pub envelope_of : Bytes → List (ParsedGpsData F) → TeltonikaEnvelope F
  envelope_of imei records = record { teltonika = true; imei = imei; records = records }

  -- What the TCP server or the HTTP handler queues for the records of a packet is the text that the
  -- JSON library makes of the envelope with the marker, the IMEI and those records, and from that text
  -- the consumer parses the same records in the order of their dates, except that their raw data is
  -- lost. The conditions are on the JSON library at this envelope: it encodes it, with the marker
  -- first, and decodes the text to the envelope without the raw data, a field that is not encoded.
  pub parse-parse_teltonika_envelope :
      (imei text spare : Bytes) (tz_offset : ℤ) (rs : List Record)
      → lib.marshal (envelope_of imei (records_to_parsed lib.for_teltonika rs imei tz_offset))
        ≡ some text
      → has_prefix text teltonika_queued_prefix ≡ true
      → lib.unmarshal text
        ≡ ok (
            envelope_of imei
              (map forget_raw (records_to_parsed lib.for_teltonika rs imei tz_offset)))
      → (parse_teltonika_envelope lib imei (records_to_parsed lib.for_teltonika rs imei tz_offset)
          ≡ some text)
        × (parse lib text spare
            ≡ accepted (
                in_order lib
                  (map forget_raw (records_to_parsed lib.for_teltonika rs imei tz_offset))))
  unfolding parse parse_with_imei route unmarshal_teltonika_envelope open_envelope records_to_parsed
      parse_teltonika_envelope
  parse-parse_teltonika_envelope imei text spare tz_offset rs encodes begins decodes =
      let size : 14 ≤ length text = has_prefix-length text teltonika_queued_prefix begins in
      let some_bytes : (length text == 0) ≡ false = ground arith in
      (
        encodes,
        rw (parse, some_bytes)
            (rw (detect_format-queued text begins)
              (rw decodes (ap (λ l. accepted (in_order lib l)) (fill_imei-of_device imei _ rs)))),
      )

  -- Every packet of bytes that ParsePacket accepts with a record is routed to it, and its records come
  -- back converted, under the given IMEI and in the order of their dates; an offset of zero means the
  -- default one.
  pub parse_with_imei-parse_packet :
      (bytes spare imei : Bytes) (tz_offset : ℤ) (codec : ℕ) (rs : List Record)
      → All IsByte bytes
      → parse_packet bytes spare ≡ parsed codec rs
      → 0 < length rs
      → parse_with_imei lib bytes spare imei tz_offset
        ≡ accepted (in_order lib (records_to_parsed lib.for_teltonika rs imei tz_offset))
  unfolding parse_with_imei route parse_teltonika_avl of_packet records_to_parsed detect_format
  parse_with_imei-parse_packet [] spare imei tz_offset codec rs small parses some_records =
      absurd
        (cc (detect_format-parse_packet [] spare {c = codec} {recs = rs} small parses some_records))
  parse_with_imei-parse_packet (b ∷ bs) spare imei tz_offset codec rs small parses some_records =
      let some_bytes : (length (b ∷ bs) == 0) ≡ false = ground arith in
      rw (parse_with_imei, some_bytes)
        (rw
          (detect_format-parse_packet (b ∷ bs) spare {c = codec} {recs = rs} small parses
            some_records)
          (rw parses refl))
