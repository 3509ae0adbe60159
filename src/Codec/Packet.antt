-- ===== src/Codec/Packet.antt =====
-- internal/teltonika/codec/packet.go: a whole AVL packet. The child modules prove it.
pub mod RoundTrip
pub mod Sound
pub mod Corrupt
mod Slices
pub mod Accepts
use gps_data_receiver.Prelude.{
  ℕ, zero, suc, ◌+◌, ◌-◌, List, [], ◌∷◌, ◌++◌, ltb, leb, ◌==◌, not, ◌||◌, if◌then◌else◌, length,
  take, drop, be, slice, byte_at, bit_or,
}
use gps_data_receiver.Codec.Crc.{crc16_ibm}
use gps_data_receiver.Codec.Record.{DecodeError, Record, Slice, Decoded, decoded, decode_record}

pub data PacketError : Type 0 where
  packet_too_short invalid_preamble : PacketError
  invalid_data_field_length : ℕ → PacketError
  truncated : ℕ → ℕ → PacketError
  crc_mismatch : ℕ → ℕ → PacketError
  payload_too_short : PacketError
  count_mismatch : ℕ → ℕ → PacketError
  unexpected_end : ℕ → PacketError
  bad_record : ℕ → DecodeError → PacketError
  trailing_bytes : PacketError
  wrong_record_count : ℕ → ℕ → PacketError

-- The three results of `ParsePacket`; with an error, the records read before it, or none.
pub data Parsed : Type 0 where
  parsed : ℕ → List Record → Parsed
  refused : ℕ → List Record → PacketError → Parsed
  panicked : Parsed

abbrev pub max_data_field_length : ℕ
max_data_field_length = 2048

-- payload[off:end]; `backing` is the payload up to the capacity of the packet's slice.
abbrev pub sub_slice : List ℕ → ℕ → ℕ → Slice
sub_slice backing off end = record { len = end - off; backing = drop off backing }

-- After the loop.
unfoldable pub finish_records : ℕ → ℕ → ℕ → ℕ → List Record → Parsed
finish_records codec_id num_records off end records =
    if not (off == end)
    then refused codec_id records trailing_bytes
    else if not (length records == num_records)
    then refused codec_id records (wrong_record_count (length records) num_records)
    else parsed codec_id records

-- The rest of the loop's body, on what `decodeRecord` came to; `next` is the loop from there on.
unfoldable pub continue_records :
    (ℕ → List Record → Parsed) → ℕ → ℕ → ℕ → List Record → Decoded → Parsed
continue_records next codec_id i off records (decoded rec consumed) =
    next (off + consumed) (records ++ rec ∷ [])
continue_records next codec_id i off records (Decoded.failed e) =
    refused codec_id records (bad_record i e)
continue_records next codec_id i off records Decoded.panicked = panicked

-- for i := 0; i < numRecords; i++, with the rounds left
unfoldable pub read_records : ℕ → ℕ → ℕ → List ℕ → ℕ → ℕ → ℕ → List Record → Parsed
read_records zero num_records codec_id backing end i off records =
    finish_records codec_id num_records off end records
read_records (suc n) num_records codec_id backing end i off records =
    if leb end off
    then refused codec_id [] (unexpected_end i)
    else continue_records (read_records n num_records codec_id backing end (i + 1)) codec_id i off
        records (decode_record (sub_slice backing off end) codec_id)

-- From the payload on, whose bytes `backing` starts with.
unfoldable pub parse_payload : ℕ → List ℕ → Parsed
parse_payload data_field_len backing =
    if ltb data_field_len 3
    then refused 0 [] payload_too_short
    else (let last = data_field_len - 1 in
        if not (byte_at backing 1 == byte_at backing last)
        then refused 0 [] (count_mismatch (byte_at backing 1) (byte_at backing last))
        else read_records (byte_at backing 1) (byte_at backing 1) (byte_at backing 0) backing last 0
            2 [])

unfoldable pub check_crc : ℕ → List ℕ → Parsed
check_crc data_field_len backing =
    let received = be (slice backing data_field_len (data_field_len + 4)) in
    let computed = crc16_ibm (take data_field_len backing) in
    if not (received == computed)
    then refused 0 [] (crc_mismatch received computed)
    else parse_payload data_field_len backing

-- The packet is `bytes`, in a slice with the bytes `spare` behind it.
unfoldable pub check_length : ℕ → List ℕ → List ℕ → Parsed
check_length data_field_len bytes spare =
    if data_field_len == 0 || ltb max_data_field_length data_field_len
    then refused 0 [] (invalid_data_field_length data_field_len)
    else if ltb (length bytes) (8 + data_field_len + 4)
    then refused 0 [] (truncated (length bytes) (8 + data_field_len + 4))
    else check_crc data_field_len (drop 8 (bytes ++ spare))

-- data[0]|data[1]|data[2]|data[3]
abbrev pub preamble : List ℕ → ℕ
preamble bytes =
    bit_or (bit_or (bit_or (byte_at bytes 0) (byte_at bytes 1)) (byte_at bytes 2)) (byte_at bytes 3)

unfoldable pub parse_packet : List ℕ → List ℕ → Parsed
parse_packet bytes spare =
    if ltb (length bytes) 12
    then refused 0 [] packet_too_short
    else if not (preamble bytes == 0)
    then refused 0 [] invalid_preamble
    else check_length (be (slice bytes 4 8)) bytes spare
