-- ===== src/Codec/Encode.antt =====
-- The AVL protocol as its devices write it: an encoder, independent of the decoder of
-- internal/teltonika/codec. Every function takes the bytes that follow.
use gps_data_receiver.Prelude.{
  ℕ, ◌^◌, ◌<◌, min, List, [], ◌∷◌, ◌++◌, Bool, true, false, length, take, be, encode_be, All,
  IsByte,
}
use gps_data_receiver.Prelude.Int.{int32}
use gps_data_receiver.Codec.Crc.{crc16_ibm}
use gps_data_receiver.Codec.Record.{IoMap, IoLayout, Record, put}

-- The codecs of the protocol, their ids and the widths of their fields.
pub data Protocol : Type 0 where
  codec_8 codec_8_extended codec_16 : Protocol

abbrev pub protocol_id : Protocol → ℕ
protocol_id codec_8 = 8
protocol_id codec_8_extended = 142
protocol_id codec_16 = 16

-- The widths in bytes of the event's id, of a count and of an id; a byte of generation; values of
-- variable size.
abbrev protocol_with : ℕ → ℕ → ℕ → Bool → Bool → IoLayout
protocol_with event count id generation variable = record {
  event_id_width = event;
  count_width = count;
  id_width = id;
  has_generation = generation;
  has_variable_io = variable;
}

abbrev pub protocol_layout : Protocol → IoLayout
protocol_layout codec_8 = protocol_with 1 1 1 false false
protocol_layout codec_8_extended = protocol_with 2 2 2 false true
protocol_layout codec_16 = protocol_with 2 1 2 true false

pub record IoEntry : Type 0 where
  pub id : ℕ
  pub value : ℕ

pub record VariableEntry : Type 0 where
  pub id : ℕ
  pub value : List ℕ

-- `lat` and `lon` are 32-bit words, in two's complement.
pub record AvlRecord : Type 0 where
  pub timestamp : ℕ
  pub priority : ℕ
  pub lon : ℕ
  pub lat : ℕ
  pub altitude : ℕ
  pub angle : ℕ
  pub satellites : ℕ
  pub speed : ℕ
  pub event_id : ℕ
  pub generation : ℕ
  pub total : ℕ
  pub one : List IoEntry
  pub two : List IoEntry
  pub four : List IoEntry
  pub eight : List IoEntry
  pub variable : List VariableEntry

unfoldable pub encode_entries : ℕ → ℕ → List IoEntry → List ℕ → List ℕ
encode_entries value_size id_width [] rest = rest
encode_entries value_size id_width (e ∷ es) rest =
    encode_be id_width e.id
    ++ (encode_be value_size e.value ++ encode_entries value_size id_width es rest)

unfoldable pub encode_group : ℕ → IoLayout → List IoEntry → List ℕ → List ℕ
encode_group value_size cfg es rest =
    encode_be cfg.count_width (length es) ++ encode_entries value_size cfg.id_width es rest

unfoldable pub encode_variables : ℕ → List VariableEntry → List ℕ → List ℕ
encode_variables id_width [] rest = rest
encode_variables id_width (e ∷ es) rest =
    encode_be id_width e.id
    ++ (encode_be 2 (length e.value) ++ (e.value ++ encode_variables id_width es rest))

unfoldable pub encode_variable_group : Bool → IoLayout → List VariableEntry → List ℕ → List ℕ
encode_variable_group false cfg es rest = rest
encode_variable_group true cfg es rest =
    encode_be cfg.count_width (length es) ++ encode_variables cfg.id_width es rest

unfoldable pub encode_generation : Bool → ℕ → List ℕ → List ℕ
encode_generation false g rest = rest
encode_generation true g rest = encode_be 1 g ++ rest

unfoldable pub encode_io_block : IoLayout → AvlRecord → List ℕ → List ℕ
encode_io_block cfg r rest =
    encode_be cfg.event_id_width r.event_id
    ++ encode_generation cfg.has_generation r.generation (
        encode_be cfg.count_width r.total
        ++ encode_group 1 cfg r.one (
            encode_group 2 cfg r.two (
              encode_group 4 cfg r.four (
                encode_group 8 cfg r.eight
                  (encode_variable_group cfg.has_variable_io cfg r.variable rest)))))

unfoldable pub encode_header : AvlRecord → List ℕ → List ℕ
encode_header r rest =
    encode_be 8 r.timestamp
    ++ (encode_be 1 r.priority
        ++ (encode_be 4 r.lon
            ++ (encode_be 4 r.lat
                ++ (encode_be 2 r.altitude
                    ++ (encode_be 2 r.angle
                        ++ (encode_be 1 r.satellites ++ (encode_be 2 r.speed ++ rest)))))))

unfoldable pub encode_record : IoLayout → AvlRecord → List ℕ → List ℕ
encode_record cfg r rest = encode_header r (encode_io_block cfg r rest)

unfoldable pub encode_records : IoLayout → List AvlRecord → List ℕ → List ℕ
encode_records cfg [] rest = rest
encode_records cfg (r ∷ rs) rest = encode_record cfg r (encode_records cfg rs rest)

-- The codec's id, the records between two copies of their count.
unfoldable pub encode_payload : ℕ → IoLayout → List AvlRecord → List ℕ
encode_payload codec_id cfg rs = codec_id ∷ length rs ∷ encode_records cfg rs (length rs ∷ [])

-- Four zeros, the payload's length, the payload, a checksum.
unfoldable pub frame_with : List ℕ → ℕ → List ℕ
frame_with payload crc =
    0 ∷ 0 ∷ 0 ∷ 0 ∷ (encode_be 4 (length payload) ++ (payload ++ encode_be 4 crc))

unfoldable pub frame : List ℕ → List ℕ
unfolding frame_with
frame payload = frame_with payload (crc16_ibm payload)

unfoldable pub encode_packet : ℕ → IoLayout → List AvlRecord → List ℕ
encode_packet codec_id cfg rs = frame (encode_payload codec_id cfg rs)

-- The map that the entries fill, a later entry replacing an earlier one with the same id.
unfoldable pub put_entries : List IoEntry → IoMap → IoMap
put_entries [] ios = ios
put_entries (e ∷ es) ios = put_entries es (put e.id e.value ios)

-- Of a value of variable size the first 8 bytes count.
unfoldable pub put_variables : List VariableEntry → IoMap → IoMap
put_variables [] ios = ios
put_variables (e ∷ es) ios =
    put_variables es (put e.id (be (take (min (length e.value) 8) e.value)) ios)

unfoldable pub put_variable_group : Bool → List VariableEntry → IoMap → IoMap
put_variable_group false es ios = ios
put_variable_group true es ios = put_variables es ios

unfoldable pub expected_ios : IoLayout → AvlRecord → IoMap
expected_ios cfg r =
    put_variable_group cfg.has_variable_io r.variable
      (put_entries r.eight (put_entries r.four (put_entries r.two (put_entries r.one []))))

-- What the program keeps of a record: neither the event's id nor the generation.
unfoldable pub expected_record : IoLayout → AvlRecord → Record
expected_record cfg r = record {
  timestamp_ms = r.timestamp;
  priority = r.priority;
  lat = int32 r.lat;
  lon = int32 r.lon;
  altitude = r.altitude;
  angle = r.angle;
  satellites = r.satellites;
  speed = r.speed;
  event_io_id = 0;
  generation = 0;
  ios = expected_ios cfg r;
  raw_bytes = encode_record cfg r [];
}

-- Every field fits the bytes that it is written in.
abbrev pub EntryFits : ℕ → ℕ → IoEntry → Type 0
EntryFits value_size id_width e = (e.id < 256 ^ id_width) × (e.value < 256 ^ value_size)

abbrev pub GroupFits : ℕ → IoLayout → List IoEntry → Type 0
GroupFits value_size cfg es =
    (length es < 256 ^ cfg.count_width) × All (EntryFits value_size cfg.id_width) es

abbrev pub VariableFits : ℕ → VariableEntry → Type 0
VariableFits id_width e = (e.id < 256 ^ id_width) × (length e.value < 256 ^ 2) × All IsByte e.value

abbrev pub VariableGroupFits : Bool → IoLayout → List VariableEntry → Type 0
VariableGroupFits false cfg es = Unit
VariableGroupFits true cfg es =
    (length es < 256 ^ cfg.count_width) × All (VariableFits cfg.id_width) es

abbrev pub GenerationFits : Bool → ℕ → Type 0
GenerationFits false g = Unit
GenerationFits true g = g < 256

pub record BlockFits (cfg : IoLayout) (r : AvlRecord) : Type 0 where
  pub event_id : r.event_id < 256 ^ cfg.event_id_width
  pub generation : GenerationFits cfg.has_generation r.generation
  pub total : r.total < 256 ^ cfg.count_width
  pub one : GroupFits 1 cfg r.one
  pub two : GroupFits 2 cfg r.two
  pub four : GroupFits 4 cfg r.four
  pub eight : GroupFits 8 cfg r.eight
  pub variable : VariableGroupFits cfg.has_variable_io cfg r.variable

pub record RecordFits (cfg : IoLayout) (r : AvlRecord) : Type 0 where
  pub timestamp : r.timestamp < 256 ^ 8
  pub priority : r.priority < 256
  pub lon : r.lon < 256 ^ 4
  pub lat : r.lat < 256 ^ 4
  pub altitude : r.altitude < 256 ^ 2
  pub angle : r.angle < 256 ^ 2
  pub satellites : r.satellites < 256
  pub speed : r.speed < 256 ^ 2
  pub block : BlockFits cfg r
