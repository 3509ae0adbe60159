-- ===== src/Codec/Record/RoundTrip.antt =====
-- internal/teltonika/codec/record.go: `decodeRecord` reads back the encoder's record.
use gps_data_receiver.Prelude.{
  ℕ, ◌≤◌, ◌≡◌, refl, sym, ap, ◌∙◌, List, [], ◌++◌, arith, length, take, drop, be, slice, byte_at,
  slice-encode_be, At, At-take, le→ltb, length-take, take-append-drop,
}
use gps_data_receiver.Prelude.Result.{ok}
use gps_data_receiver.Prelude.Int.{int32}
use gps_data_receiver.Codec.Record.{
  IoLayout, Record, Slice, visible, decoded, header_record, finish_record, decode_record,
  layout_for_codec,
}
use gps_data_receiver.Codec.Record.Fields.{At-field, byte_at-encode_be}
use gps_data_receiver.Codec.Record.Block.{layout_for_codec-LayoutFits, parse_io_block-encode}
use gps_data_receiver.Codec.Record.Append.{encode_header-append, encode_record-append}
use gps_data_receiver.Codec.Encode.{
  AvlRecord, encode_io_block, encode_header, encode_record, expected_ios, expected_record,
  RecordFits,
}

-- The fields of the header, each behind the one before it.
record ReadsHeader (buf : List ℕ) (r : AvlRecord) (rest : List ℕ) : Type 0 where
  timestamp : be (slice buf 0 8) ≡ r.timestamp
  priority : byte_at buf 8 ≡ r.priority
  lon : be (slice buf 9 13) ≡ r.lon
  lat : be (slice buf 13 17) ≡ r.lat
  altitude : be (slice buf 17 19) ≡ r.altitude
  angle : be (slice buf 19 21) ≡ r.angle
  satellites : byte_at buf 21 ≡ r.satellites
  speed : be (slice buf 22 24) ≡ r.speed
  after : At buf 24 rest

encode_header-ReadsHeader :
    (buf : List ℕ) (cfg : IoLayout) (r : AvlRecord) (rest : List ℕ)
    → buf ≡ encode_header r rest
    → RecordFits cfg r
    → ReadsHeader buf r rest
unfolding encode_header
encode_header-ReadsHeader buf cfg r rest e h =
    let a0 : At buf 0 (encode_header r rest) = (e, omega arith) in
    let a8 = At-field buf 0 8 r.timestamp _ a0 in
    let a9 = At-field buf 8 1 r.priority _ a8 in
    let a13 = At-field buf 9 4 r.lon _ a9 in
    let a17 = At-field buf 13 4 r.lat _ a13 in
    let a19 = At-field buf 17 2 r.altitude _ a17 in
    let a21 = At-field buf 19 2 r.angle _ a19 in
    let a22 = At-field buf 21 1 r.satellites _ a21 in
    record {
      timestamp = slice-encode_be buf 0 8 8 r.timestamp _ a0.0 refl h.timestamp;
      priority = byte_at-encode_be buf 8 r.priority _ a8 h.priority;
      lon = slice-encode_be buf 9 13 4 r.lon _ a9.0 refl h.lon;
      lat = slice-encode_be buf 13 17 4 r.lat _ a13.0 refl h.lat;
      altitude = slice-encode_be buf 17 19 2 r.altitude _ a17.0 refl h.altitude;
      angle = slice-encode_be buf 19 21 2 r.angle _ a19.0 refl h.angle;
      satellites = byte_at-encode_be buf 21 r.satellites _ a21 h.satellites;
      speed = slice-encode_be buf 22 24 2 r.speed _ a22.0 refl h.speed;
      after = At-field buf 22 2 r.speed rest a22;
    }

header_record-ReadsHeader :
    (buf : List ℕ) (cfg : IoLayout) (r : AvlRecord) (rest raw : List ℕ)
    → ReadsHeader buf r rest
    → raw ≡ encode_record cfg r []
    → header_record buf (expected_ios cfg r) raw ≡ expected_record cfg r
unfolding header_record expected_record
header_record-ReadsHeader buf cfg r rest raw v e = λ i. record {
  timestamp_ms = v.timestamp i;
  priority = v.priority i;
  lat = int32 (v.lat i);
  lon = int32 (v.lon i);
  altitude = v.altitude i;
  angle = v.angle i;
  satellites = v.satellites i;
  speed = v.speed i;
  event_io_id = 0;
  generation = 0;
  ios = expected_ios cfg r;
  raw_bytes = e i;
}

-- In a slice whose visible bytes start with a well-formed record, `decodeRecord` gives the record
-- and its length, and `rest` is what stands behind it.
pub decode_record-encode :
    (s : Slice) (codec_id : ℕ) (cfg : IoLayout) (r : AvlRecord) (rest : List ℕ)
    → layout_for_codec codec_id ≡ ok cfg
    → RecordFits cfg r
    → visible s ≡ encode_record cfg r rest
    → (off : ℕ) × (decode_record s codec_id ≡ decoded (expected_record cfg r) off)
      × At (visible s) off rest
      × (24 ≤ length (visible s))
unfolding encode_record decode_record finish_record
decode_record-encode s codec_id cfg r rest el h e =
    let block : List ℕ = encode_io_block cfg r rest in
    let v = encode_header-ReadsHeader (visible s) cfg r block e h in
    let more : List ℕ = drop s.len s.backing in
    let whole : s.backing ≡ encode_header r (block ++ more) =
      sym (take-append-drop s.len s.backing)
      ∙ ap (λ (l : List ℕ). l ++ more) e
      ∙ encode_header-append more r block in
    let b = encode_header-ReadsHeader s.backing cfg r (block ++ more) whole h in
    let (off, eb, ab) =
      parse_io_block-encode (visible s) cfg (layout_for_codec-LayoutFits codec_id cfg el) r 24 rest
        v.after h.block in
    let raw : take off (visible s) ≡ encode_record cfg r [] =
      At-take (visible s) off (encode_record cfg r []) rest ab
        (e ∙ sym (encode_record-append rest cfg r [])) in
    let long : 24 ≤ s.len = omega (arith, v.after.1, length-take s.len s.backing) in
    (
      off,
      rw (le→ltb s.len 9 (omega arith)) (
          rw (le→ltb (length s.backing) 24 b.after.1) (
            rw el (
              rw eb (
                ap (λ (x : Record). decoded x off)
                  (header_record-ReadsHeader s.backing cfg r (block ++ more) _ b raw))))),
      ab,
      v.after.1,
    )
