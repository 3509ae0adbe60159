-- ===== src/Codec/Tests.antt =====
-- internal/teltonika/codec at concrete packets.
use gps_data_receiver.Prelude.{
  ℕ, ◌≤◌, ◌≡◌, ◌≢◌, refl, List, [], ◌∷◌, ◌++◌, arith, All, IsByte, length, At, take_all,
}
use gps_data_receiver.Codec.Crc.{crc16_ibm, crc16_ibm_detects_changed_byte}
use gps_data_receiver.Codec.Record.{Record, Slice, visible, decoded, decode_record}
use gps_data_receiver.Codec.Record.RoundTrip.{decode_record-encode}
use gps_data_receiver.Codec.Encode.{
  codec_8, encode_packet, encode_record, expected_record, frame, frame_with,
}
use gps_data_receiver.Codec.Packet.{
  parse_packet, parsed, refused, panicked, crc_mismatch, max_data_field_length,
}
use gps_data_receiver.Codec.Packet.RoundTrip.{parse_packet-encode_packet}
use gps_data_receiver.Codec.Packet.Accepts.{payload_of, HasCodec, parse_packet_accepts_frames}
use gps_data_receiver.Codec.Packet.Corrupt.{parse_packet_refuses_changed_byte, parse_packet_panics}
use gps_data_receiver.Codec.Detect.{detect_format, teltonika_avl, detect_format-parse_packet}
use gps_data_receiver.Codec.Samples.{
  codec8, sample, sample-Fits, sample_layout, sample_size, sample_packet, sample_bytes,
  are_bytes-AreBytes, sample_packet-parsed,
}

abbrev sample_records : List Record
sample_records = expected_record codec8 sample ∷ []

parse_packet-encode_packet_example :
    parse_packet (encode_packet 8 codec8 (sample ∷ [])) [] ≡ parsed 8 sample_records
parse_packet-encode_packet_example =
    parse_packet-encode_packet codec_8 (sample ∷ []) [] (sample-Fits, tt) (omega arith) sample_size

parse_packet_accepts_frames_example :
    (tail : List ℕ) × (sample_packet ≡ frame (payload_of 8 sample_records) ++ tail)
    × (length (payload_of 8 sample_records) ≤ max_data_field_length)
    × HasCodec 8 sample_records
parse_packet_accepts_frames_example =
    parse_packet_accepts_frames sample_packet [] {c = 8} {recs = sample_records} sample_bytes
      sample_packet-parsed

detect_format-parse_packet_example : detect_format sample_packet ≡ teltonika_avl
detect_format-parse_packet_example =
    detect_format-parse_packet sample_packet [] {c = 8} {recs = sample_records} sample_bytes
      sample_packet-parsed (omega arith)

one_is_not_two : 1 ≢ (let two : ℕ = 2 in two)
one_is_not_two = omega arith

parse_packet_refuses_changed_byte_example :
    parse_packet (frame_with (8 ∷ 2 ∷ 1 ∷ []) (crc16_ibm (8 ∷ 1 ∷ 1 ∷ []))) []
    ≡ refused 0 [] (crc_mismatch (crc16_ibm (8 ∷ 1 ∷ 1 ∷ [])) (crc16_ibm (8 ∷ 2 ∷ 1 ∷ [])))
parse_packet_refuses_changed_byte_example =
    parse_packet_refuses_changed_byte (8 ∷ []) (1 ∷ []) [] 1 2 (omega arith, tt) (omega arith, tt)
      (omega arith) (omega arith) one_is_not_two (omega arith)

abbrev nine_zeros : List ℕ
nine_zeros = 0 ∷ 0 ∷ 0 ∷ 0 ∷ 0 ∷ 0 ∷ 0 ∷ 0 ∷ 0 ∷ []

nine_zeros-AreBytes : All IsByte (8 ∷ 1 ∷ (nine_zeros ++ 1 ∷ []))
nine_zeros-AreBytes = are_bytes-AreBytes (8 ∷ 1 ∷ (nine_zeros ++ 1 ∷ [])) refl

parse_packet_panics_example : parse_packet (frame (8 ∷ 1 ∷ (nine_zeros ++ 1 ∷ []))) [] ≡ panicked
parse_packet_panics_example =
    parse_packet_panics 8 1 nine_zeros [] nine_zeros-AreBytes (omega arith) (omega arith)
      (omega arith)

crc16_ibm_detects_changed_byte_example : let seven : ℕ = 7 in seven ≡ 7
crc16_ibm_detects_changed_byte_example =
    crc16_ibm_detects_changed_byte (1 ∷ []) (2 ∷ []) 7 7 (omega arith, tt) (omega arith)
      (omega arith) (omega arith, tt) refl

abbrev sample_slice : Slice
sample_slice = record {
  len = length (encode_record codec8 sample []);
  backing = encode_record codec8 sample [];
}

sample-visible : visible sample_slice ≡ encode_record codec8 sample []
sample-visible =
    take_all (length (encode_record codec8 sample [])) (encode_record codec8 sample [])
      (omega arith)

decode_record-encode_example :
    (off : ℕ) × (decode_record sample_slice 8 ≡ decoded (expected_record codec8 sample) off)
    × At (visible sample_slice) off []
    × (24 ≤ length (visible sample_slice))
decode_record-encode_example =
    decode_record-encode sample_slice 8 codec8 sample [] sample_layout sample-Fits sample-visible
