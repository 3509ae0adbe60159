-- ===== src/Codec/Detect.antt =====
-- internal/teltonika/codec/detect.go: the format of a payload by its first bytes.
use gps_data_receiver.Prelude.{
  ℕ, ◌<◌, ◌≡◌, List, [], ◌∷◌, ◌++◌, arith, Bool, true, false, ◌&&◌, ◌||◌, length, ltb, leb, ◌==◌,
  if◌then◌else◌, inl, inr, byte_at, encode_be, ap, ◌∙◌, IsByte, All, codes,
}
use gps_data_receiver.Codec.Record.{Record}
use gps_data_receiver.Codec.Record.Sound.{IsSupported}
use gps_data_receiver.Codec.Encode.{frame}
use gps_data_receiver.Codec.Packet.{parsed, parse_packet}
use gps_data_receiver.Codec.Packet.Accepts.{payload_of, parse_packet_accepts_frames}

pub data Format : Type 0 where
  unknown hooshnic_json teltonika_avl teltonika_queued : Format

-- `{"_teltonika":`
abbrev pub teltonika_queued_prefix : List ℕ
teltonika_queued_prefix = codes "{\"_teltonika\":"

-- bytes.HasPrefix
unfoldable pub has_prefix : List ℕ → List ℕ → Bool
has_prefix bytes [] = true
has_prefix [] (p ∷ ps) = false
has_prefix (b ∷ bs) (p ∷ ps) = b == p && has_prefix bs ps

unfoldable pub detect_format : List ℕ → Format
unfolding has_prefix
detect_format bytes =
    if leb 14 (length bytes) && has_prefix bytes teltonika_queued_prefix
    then teltonika_queued
    else if leb 9 (length bytes)
        && (byte_at bytes 0 == 0
            && (byte_at bytes 1 == 0 && (byte_at bytes 2 == 0 && byte_at bytes 3 == 0)))
        && (byte_at bytes 8 == 0x08 || (byte_at bytes 8 == 0x8e || byte_at bytes 8 == 0x10))
    then teltonika_avl
    else if ltb 0 (length bytes) && (byte_at bytes 0 == b'[' || byte_at bytes 0 == b'{')
    then hooshnic_json
    else unknown

frame_prefix :
    (c : ℕ) (recs : List Record) (tail : List ℕ)
    → IsSupported c
    → detect_format (frame (payload_of c recs) ++ tail) ≡ teltonika_avl
unfolding detect_format frame payload_of encode_be
frame_prefix c recs tail h = ground arith

-- The router sends every packet that `ParsePacket` accepts with at least one record to that parser.
pub detect_format-parse_packet :
    (bytes spare : List ℕ) {c : ℕ} {recs : List Record}
    → All IsByte bytes
    → parse_packet bytes spare ≡ parsed c recs
    → 0 < length recs
    → detect_format bytes ≡ teltonika_avl
detect_format-parse_packet bytes spare {c} {recs} small e some =
    let (tail, eq, short, codec) =
      parse_packet_accepts_frames bytes spare {c = c} {recs = recs} small e in
    elim codec [
      | inl empty ↦ absurd (omega arith)
      | inr known ↦ ap detect_format eq ∙ frame_prefix c recs tail known
    ]
