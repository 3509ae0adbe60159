-- ===== src/Codec/Samples.antt =====
-- A packet of the Codec 8 documentation, for the tests.
use gps_data_receiver.Prelude.{
  ℕ, ◌≡◌, refl, sym, ap, ◌∙◌, List, [], ◌∷◌, Bool, true, false, ◌&&◌, All, IsByte, ltb, ltb→lt, ltb,
  Bool-cases, inl, inr, length, ◌≤◌, arith, encode_be,
}
use gps_data_receiver.Prelude.Result.{ok}
use gps_data_receiver.Codec.Record.{IoLayout, layout_for_codec}
use gps_data_receiver.Codec.Crc.{crc16_ibm}
use gps_data_receiver.Codec.Packet.{parsed, parse_packet}
use gps_data_receiver.Codec.Packet.RoundTrip.{parse_packet-encode_layout}
use gps_data_receiver.Codec.Encode.{
  AvlRecord, RecordFits, expected_record, encode_packet, frame, frame_with, encode_payload,
  encode_records, encode_record, encode_header, encode_io_block, encode_generation, encode_group,
  encode_entries, encode_variable_group,
}

abbrev pub are_bytes : List ℕ → Bool
are_bytes [] = true
are_bytes (b ∷ bs) = ltb b 256 && are_bytes bs

pub are_bytes-AreBytes : (bs : List ℕ) → are_bytes bs ≡ true → All IsByte bs
are_bytes-AreBytes [] h = tt
are_bytes-AreBytes (b ∷ bs) h = elim (Bool-cases (ltb b 256)) [
  | inl small ↦ (ltb→lt b 256 small, are_bytes-AreBytes bs (rw small at h))
  | inr large ↦ absurd (cc (rw large at h))
]

abbrev pub codec8 : IoLayout
codec8 = record {
  event_id_width = 1;
  count_width = 1;
  id_width = 1;
  has_generation = false;
  has_variable_io = false;
}

abbrev pub sample : AvlRecord
sample = record {
  timestamp = 1_560_161_086_000;
  priority = 1;
  lon = 0;
  lat = 0;
  altitude = 0;
  angle = 0;
  satellites = 0;
  speed = 0;
  event_id = 1;
  generation = 0;
  total = 5;
  one = record { id = 21; value = 3 } ∷ record { id = 1; value = 1 } ∷ [];
  two = record { id = 66; value = 24_079 } ∷ [];
  four = record { id = 241; value = 24_602 } ∷ [];
  eight = record { id = 78; value = 0 } ∷ [];
  variable = [];
}

pub sample-Fits : RecordFits codec8 sample
sample-Fits = record {
  timestamp = omega arith;
  priority = omega arith;
  lon = omega arith;
  lat = omega arith;
  altitude = omega arith;
  angle = omega arith;
  satellites = omega arith;
  speed = omega arith;
  block = record {
    event_id = omega arith;
    generation = tt;
    total = omega arith;
    one = (omega arith, ((omega arith, omega arith), ((omega arith, omega arith), tt)));
    two = (omega arith, ((omega arith, omega arith), tt));
    four = (omega arith, ((omega arith, omega arith), tt));
    eight = (omega arith, ((omega arith, omega arith), tt));
    variable = tt;
  };
}

pub sample_layout : layout_for_codec 8 ≡ ok codec8
unfolding layout_for_codec
sample_layout = refl

pub sample_size : length (encode_payload 8 codec8 (sample ∷ [])) ≤ 2048
unfolding encode_payload encode_records encode_record encode_header encode_be encode_io_block
    encode_generation encode_group encode_entries encode_variable_group
sample_size = omega arith

abbrev pub sample_packet : List ℕ
sample_packet =
    0x00 ∷ 0x00 ∷ 0x00 ∷ 0x00 ∷ 0x00 ∷ 0x00 ∷ 0x00 ∷ 0x36 ∷ 0x08 ∷ 0x01 ∷ 0x00 ∷ 0x00 ∷ 0x01 ∷ 0x6b
    ∷ 0x40 ∷ 0xd8 ∷ 0xea ∷ 0x30 ∷ 0x01 ∷ 0x00 ∷ 0x00 ∷ 0x00 ∷ 0x00 ∷ 0x00 ∷ 0x00 ∷ 0x00 ∷ 0x00
    ∷ 0x00 ∷ 0x00 ∷ 0x00 ∷ 0x00 ∷ 0x00 ∷ 0x00 ∷ 0x00 ∷ 0x01 ∷ 0x05 ∷ 0x02 ∷ 0x15 ∷ 0x03 ∷ 0x01
    ∷ 0x01 ∷ 0x01 ∷ 0x42 ∷ 0x5e ∷ 0x0f ∷ 0x01 ∷ 0xf1 ∷ 0x00 ∷ 0x00 ∷ 0x60 ∷ 0x1a ∷ 0x01 ∷ 0x4e
    ∷ 0x00 ∷ 0x00 ∷ 0x00 ∷ 0x00 ∷ 0x00 ∷ 0x00 ∷ 0x00 ∷ 0x00 ∷ 0x01 ∷ 0x00 ∷ 0x00 ∷ 0xc7 ∷ 0xcf ∷ []

pub encode_packet-sample : encode_packet 8 codec8 (sample ∷ []) ≡ sample_packet
unfolding encode_packet frame frame_with crc16_ibm encode_payload encode_records encode_record
    encode_header encode_be encode_io_block encode_generation encode_group encode_entries
    encode_variable_group
encode_packet-sample = refl

pub sample_bytes : All IsByte sample_packet
sample_bytes = are_bytes-AreBytes sample_packet refl

-- What ParsePacket makes of it.
pub sample_packet-parsed :
    parse_packet sample_packet [] ≡ parsed 8 (expected_record codec8 sample ∷ [])
sample_packet-parsed =
    ap (λ (l : List ℕ). parse_packet l []) (sym encode_packet-sample)
    ∙ parse_packet-encode_layout 8 codec8 (sample ∷ []) [] sample_layout (sample-Fits, tt)
        (omega arith) sample_size
