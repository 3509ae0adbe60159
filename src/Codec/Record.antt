-- ===== src/Codec/Record.antt =====
-- internal/teltonika/codec/record.go: decoding of one AVL record. The child modules prove it.
pub mod Fields
pub mod Block
pub mod Append
pub mod RoundTrip
pub mod Sound
pub mod Bytes
use gps_data_receiver.Prelude.{
  ℕ, zero, suc, ◌+◌, min, List, [], ◌∷◌, ltb, leb, ◌==◌, if◌then◌else◌, Bool, true, false, Option,
  none, some, length, take, be, slice, byte_at,
}
use gps_data_receiver.Prelude.Int.{ℤ, int32}
use gps_data_receiver.Prelude.Result.{Result, ok, err, ◌>>=◌}

pub data DecodeError : Type 0 where
  record_too_short unsupported_codec missing_event_id missing_generation : DecodeError
  end_of_io_block end_of_io_id end_of_io_value : DecodeError
  missing_variable_length end_of_variable_value : DecodeError

-- map[uint16]uint64, as an association list with one entry for a key
abbrev pub IoMap : Type 0
IoMap = List (ℕ × ℕ)

-- ios[id] = val
unfoldable pub put : ℕ → ℕ → IoMap → IoMap
put k v [] = (k, v) ∷ []
put k v ((j, w) ∷ m) = if j == k then (k, v) ∷ m else (j, w) ∷ put k v m

-- v, ok := ios[id]
unfoldable pub io_lookup : ℕ → IoMap → Option ℕ
io_lookup k [] = none
io_lookup k ((j, w) ∷ m) = if j == k then some w else io_lookup k m

-- `lat` and `lon` are the signed words before the division by 10_000_000.0, so in units of 1e-7
-- degrees.
pub record Record : Type 0 where
  pub timestamp_ms : ℕ
  pub priority : ℕ
  pub lat : ℤ
  pub lon : ℤ
  pub altitude : ℕ
  pub angle : ℕ
  pub satellites : ℕ
  pub speed : ℕ
  pub event_io_id : ℕ
  pub generation : ℕ
  pub ios : IoMap
  pub raw_bytes : List ℕ

pub record IoLayout : Type 0 where
  pub event_id_width : ℕ
  pub count_width : ℕ
  pub id_width : ℕ
  pub has_generation : Bool
  pub has_variable_io : Bool

unfoldable pub layout_for_codec : ℕ → Result DecodeError IoLayout
layout_for_codec codec_id =
    if codec_id == 0x08
    then ok (record {
      event_id_width = 1;
      count_width = 1;
      id_width = 1;
      has_generation = false;
      has_variable_io = false;
    })
    else if codec_id == 0x8e
    then ok (record {
      event_id_width = 2;
      count_width = 2;
      id_width = 2;
      has_generation = false;
      has_variable_io = true;
    })
    else if codec_id == 0x10
    then ok (record {
      event_id_width = 2;
      count_width = 1;
      id_width = 2;
      has_generation = true;
      has_variable_io = false;
    })
    else err unsupported_codec

-- One byte, or two for every other width; the value and the offset behind it.
unfoldable pub read_field : DecodeError → List ℕ → ℕ → ℕ → Result DecodeError (ℕ × ℕ)
read_field e buf off width =
    if width == 1
    then (if leb (length buf) off then err e else ok (byte_at buf off, off + 1))
    else if ltb (length buf) (off + 2)
    then err e
    else ok (be (slice buf off (off + 2)), off + 2)

unfoldable pub read_io_count : List ℕ → ℕ → ℕ → Result DecodeError (ℕ × ℕ)
unfolding read_field
read_io_count = read_field end_of_io_block

unfoldable pub read_io_id : List ℕ → ℕ → ℕ → Result DecodeError (ℕ × ℕ)
unfolding read_field
read_io_id = read_field end_of_io_id

-- The event's id is read and dropped; the offset behind it.
unfoldable pub skip_event_id : List ℕ → ℕ → ℕ → Result DecodeError ℕ
unfolding read_field
skip_event_id buf off width = do p ← read_field missing_event_id buf off width; ok p.1

unfoldable pub skip_generation : Bool → List ℕ → ℕ → Result DecodeError ℕ
skip_generation false buf off = ok off
skip_generation true buf off = if leb (length buf) off then err missing_generation else ok (off + 1)

-- The value of an entry. The sizes in use are 1, 2, 4 and 8.
unfoldable pub read_sized_value : ℕ → List ℕ → IoMap → ℕ → ℕ → Result DecodeError (IoMap × ℕ)
unfolding put
read_sized_value value_size buf ios id off =
    if ltb (length buf) (off + value_size)
    then err end_of_io_value
    else ok (put id (be (slice buf off (off + value_size))) ios, off + value_size)

-- The body of the loop in `parseGroup`.
unfoldable pub read_entry : ℕ → ℕ → List ℕ → IoMap → ℕ → Result DecodeError (IoMap × ℕ)
unfolding read_sized_value
read_entry value_size id_width buf ios off = do
  p ← read_io_id buf off id_width
  read_sized_value value_size buf ios p.0 p.1

-- for i := uint16(0); i < n; i++, with the rounds left
unfoldable pub read_entries : ℕ → ℕ → ℕ → List ℕ → IoMap → ℕ → Result DecodeError (IoMap × ℕ)
read_entries zero value_size id_width buf ios off = ok (ios, off)
read_entries (suc n) value_size id_width buf ios off = do
  s ← read_entry value_size id_width buf ios off
  read_entries n value_size id_width buf s.0 s.1

unfoldable pub parse_group : ℕ → IoLayout → List ℕ → IoMap → ℕ → Result DecodeError (IoMap × ℕ)
parse_group value_size cfg buf ios off = do
  p ← read_io_count buf off cfg.count_width
  read_entries p.0 value_size cfg.id_width buf ios p.1

-- The value of an entry of variable size: at most 8 bytes enter it.
unfoldable pub read_value : List ℕ → IoMap → ℕ → ℕ → ℕ → Result DecodeError (IoMap × ℕ)
unfolding put
read_value buf ios id start len =
    if ltb (length buf) (start + len)
    then err end_of_variable_value
    else ok (put id (be (slice buf start (start + min len 8))) ios, start + len)

unfoldable pub read_variable_value : List ℕ → IoMap → ℕ → ℕ → Result DecodeError (IoMap × ℕ)
unfolding read_value
read_variable_value buf ios id off =
    if ltb (length buf) (off + 2)
    then err missing_variable_length
    else read_value buf ios id (off + 2) (be (slice buf off (off + 2)))

-- The body of the loop over the entries of variable size.
unfoldable pub read_variable : ℕ → List ℕ → IoMap → ℕ → Result DecodeError (IoMap × ℕ)
unfolding read_variable_value
read_variable id_width buf ios off = do
  p ← read_io_id buf off id_width
  read_variable_value buf ios p.0 p.1

unfoldable pub read_variables : ℕ → ℕ → List ℕ → IoMap → ℕ → Result DecodeError (IoMap × ℕ)
read_variables zero id_width buf ios off = ok (ios, off)
read_variables (suc n) id_width buf ios off = do
  s ← read_variable id_width buf ios off
  read_variables n id_width buf s.0 s.1

unfoldable pub parse_variable_group :
    Bool → IoLayout → List ℕ → IoMap → ℕ → Result DecodeError (IoMap × ℕ)
parse_variable_group false cfg buf ios off = ok (ios, off)
parse_variable_group true cfg buf ios off = do
  p ← read_io_count buf off cfg.count_width
  read_variables p.0 cfg.id_width buf ios p.1

unfoldable pub parse_io_block : List ℕ → ℕ → IoLayout → Result DecodeError (IoMap × ℕ)
parse_io_block buf off cfg = do
  after_event ← skip_event_id buf off cfg.event_id_width
  after_generation ← skip_generation cfg.has_generation buf after_event
  total ← read_io_count buf after_generation cfg.count_width
  g1 ← parse_group 1 cfg buf [] total.1
  g2 ← parse_group 2 cfg buf g1.0 g1.1
  g4 ← parse_group 4 cfg buf g2.0 g2.1
  g8 ← parse_group 8 cfg buf g4.0 g4.1
  parse_variable_group cfg.has_variable_io cfg buf g8.0 g8.1

-- A Go slice: its length, and the bytes from its start up to its capacity.
pub record Slice : Type 0 where
  pub len : ℕ
  pub backing : List ℕ

-- The bytes that indexing may read.
abbrev pub visible : Slice → List ℕ
visible s = take s.len s.backing

-- What `decodeRecord` comes to. Slicing beyond the capacity panics.
pub data Decoded : Type 0 where
  decoded : Record → ℕ → Decoded
  failed : DecodeError → Decoded
  panicked : Decoded

-- The fields in front of the IO block, from the first 24 bytes.
unfoldable pub header_record : List ℕ → IoMap → List ℕ → Record
header_record buf ios raw = record {
  timestamp_ms = be (slice buf 0 8);
  priority = byte_at buf 8;
  lat = int32 (be (slice buf 13 17));
  lon = int32 (be (slice buf 9 13));
  altitude = be (slice buf 17 19);
  angle = be (slice buf 19 21);
  satellites = byte_at buf 21;
  speed = be (slice buf 22 24);
  event_io_id = 0;
  generation = 0;
  ios = ios;
  raw_bytes = raw;
}

unfoldable pub finish_record : Slice → Result DecodeError (IoMap × ℕ) → Decoded
finish_record s (ok (ios, off)) = decoded (header_record s.backing ios (take off (visible s))) off
finish_record s (err e) = failed e

-- The slice expression buf[off : off+15] at off = 9 is checked against the capacity, not the length.
unfoldable pub decode_record : Slice → ℕ → Decoded
decode_record s codec_id =
    if ltb s.len 9
    then failed record_too_short
    else if ltb (length s.backing) 24
    then panicked
    else finish_record s (do cfg ← layout_for_codec codec_id; parse_io_block (visible s) 24 cfg)
