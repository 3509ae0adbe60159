-- ===== src/Codec/Packet/RoundTrip.antt =====
-- internal/teltonika/codec/packet.go: `ParsePacket` reads back the encoder's packets.
use gps_data_receiver.Prelude.{
  ℕ, suc, ◌+◌, ◌-◌, ◌^◌, ◌≤◌, ◌<◌, ◌≡◌, refl, sym, ap, ◌∙◌, List, [], ◌∷◌, ◌++◌, map, append_assoc,
  append-nil, arith, length, take, drop, All, IsByte, encode_be, length-encode_be, slice-encode_be,
  be, slice, take-append, drop-append, get_or-append, length-append, le→ltb, lt→leb_false, ==_iff,
}
use gps_data_receiver.Prelude.Result.{ok}
use gps_data_receiver.Codec.Record.{Record, IoLayout, Slice, visible, layout_for_codec}
use gps_data_receiver.Codec.Record.RoundTrip.{decode_record-encode}
use gps_data_receiver.Codec.Encode.{
  AvlRecord, encode_record, encode_records, expected_record, RecordFits, frame, frame_with,
  encode_payload, encode_packet, Protocol, codec_8, codec_8_extended, codec_16, protocol_id,
  protocol_layout,
}
use gps_data_receiver.Codec.Crc.{crc16_ibm, crc16_ibm-lt}
use gps_data_receiver.Codec.Record.Append.{encode_record-append}
use gps_data_receiver.Codec.Record.Bytes.{encode_payload-AreBytes}
use gps_data_receiver.Codec.Packet.Slices.{visible-sub_slice, length-visible}
use gps_data_receiver.Codec.Packet.{
  parsed, sub_slice, finish_records, read_records, continue_records, parse_payload, check_crc,
  check_length, parse_packet, max_data_field_length,
}

module _ (codec_id : ℕ) (cfg : IoLayout) (layout : layout_for_codec codec_id ≡ ok cfg) where
  module _ (backing : List ℕ) (end num : ℕ) (fits : end ≤ length backing) where
    -- From an offset where the rest of the records stands, the loop appends all of them.
    read_records-encode :
        (rs : List AvlRecord) (i off : ℕ) (acc : List Record)
        → All (RecordFits cfg) rs
        → off ≤ end
        → visible (sub_slice backing off end) ≡ encode_records cfg rs []
        → length acc + length rs ≡ num
        → read_records (length rs) num codec_id backing end i off acc
          ≡ parsed codec_id (acc ++ map (expected_record cfg) rs)
    unfolding read_records continue_records finish_records encode_records
    read_records-encode [] i off acc h le e n =
        let stop : off ≡ end = omega (arith, ap length e, length-visible backing off end fits) in
        ground (arith, append-nil acc)
    read_records-encode (r ∷ rs) i off acc (h, hs) le e n =
        let s : Slice = sub_slice backing off end in
        let (used, er, a, big) =
          decode_record-encode s codec_id cfg r (encode_records cfg rs []) layout h e in
        let size = length-visible backing off end fits in
        let next : List Record = acc ++ expected_record cfg r ∷ [] in
        let later =
          read_records-encode rs (i + 1) (off + used) next hs (omega arith)
            (visible-sub_slice backing off used end ∙ a.0)
            (omega (arith, length-append acc (expected_record cfg r ∷ []))) in
        rw (lt→leb_false end off (omega arith))
          (rw er (later ∙ ap (parsed codec_id) (append_assoc acc (expected_record cfg r ∷ []) _)))

-- What stands behind the header of a framed payload, in a slice with more bytes behind it.
unfoldable pub body : List ℕ → ℕ → List ℕ → List ℕ
body payload crc spare = payload ++ (encode_be 4 crc ++ spare)

drop-frame_with :
    (payload : List ℕ) (crc : ℕ) (spare : List ℕ)
    → drop 8 (frame_with payload crc ++ spare) ≡ body payload crc spare
unfolding frame_with body
drop-frame_with payload crc spare =
    let n : ℕ = length payload in
    simp append_assoc
      (drop-append (encode_be 4 n) (body payload crc spare) 4 (length-encode_be 4 n))

-- A payload of a legal length passes every check in front of the checksum's.
pub parse_packet-frame_with :
    (payload : List ℕ) (crc : ℕ) (spare : List ℕ)
    → 0 < length payload
    → length payload ≤ max_data_field_length
    → parse_packet (frame_with payload crc) spare
      ≡ check_crc (length payload) (body payload crc spare)
unfolding parse_packet check_length frame_with
parse_packet-frame_with payload crc spare pos short =
    let n : ℕ = length payload in
    let tail : List ℕ = payload ++ encode_be 4 crc in
    let whole : List ℕ = frame_with payload crc in
    let size : length whole ≡ 12 + n = omega (
      arith,
      length-append (encode_be 4 n) tail,
      length-append payload (encode_be 4 crc),
      length-encode_be 4 n,
      length-encode_be 4 crc,
    ) in
    let n_read : be (slice whole 4 8) ≡ n =
      slice-encode_be whole 4 8 4 n tail refl refl (omega arith) in
    rw (le→ltb (length whole) 12 (omega arith))
      (rw n_read (ground (arith, drop-frame_with payload crc spare)))

pub take-body :
    (payload : List ℕ) (crc : ℕ) (spare : List ℕ)
    → take (length payload) (body payload crc spare) ≡ payload
unfolding body
take-body payload crc spare = take-append payload (encode_be 4 crc ++ spare) (length payload) refl

pub checksum-body :
    (payload : List ℕ) (crc : ℕ) (spare : List ℕ)
    → crc < 2 ^ 16
    → be (slice (body payload crc spare) (length payload) (length payload + 4)) ≡ crc
unfolding body
checksum-body payload crc spare h =
    let n : ℕ = length payload in
    let trailer : List ℕ = encode_be 4 crc ++ spare in
    slice-encode_be (payload ++ trailer) n (n + 4) 4 crc spare (drop-append payload trailer n refl)
      refl (omega arith)

-- A payload of bytes with its own checksum passes that check too.
pub parse_packet-frame :
    (payload spare : List ℕ)
    → All IsByte payload
    → 0 < length payload
    → length payload ≤ max_data_field_length
    → parse_packet (frame payload) spare
      ≡ parse_payload (length payload) (body payload (crc16_ibm payload) spare)
unfolding frame check_crc
parse_packet-frame payload spare bytes pos short =
    let crc : ℕ = crc16_ibm payload in
    parse_packet-frame_with payload crc spare pos short
    ∙ rw (take-body payload crc spare)
        (rw (checksum-body payload crc spare (crc16_ibm-lt payload bytes)) (ground arith))

encode_records-append :
    (more : List ℕ) (cfg : IoLayout) (rs : List AvlRecord) (rest : List ℕ)
    → encode_records cfg rs rest ++ more ≡ encode_records cfg rs (rest ++ more)
unfolding encode_records
encode_records-append more cfg [] rest = refl
encode_records-append more cfg (r ∷ rs) rest =
    encode_record-append more cfg r (encode_records cfg rs rest)
    ∙ ap (encode_record cfg r) (encode_records-append more cfg rs rest)

layout_for_codec-IsByte :
    (codec_id : ℕ) (cfg : IoLayout) → layout_for_codec codec_id ≡ ok cfg → IsByte codec_id
unfolding layout_for_codec
layout_for_codec-IsByte codec_id cfg h = ground arith

parse_payload-records :
    (codec_id : ℕ) (cfg : IoLayout) (rs : List AvlRecord) (tail : List ℕ)
    → layout_for_codec codec_id ≡ ok cfg
    → All (RecordFits cfg) rs
    → parse_payload
        (length (encode_records cfg rs []) + 3)
        (codec_id ∷ length rs ∷ (encode_records cfg rs [] ++ length rs ∷ tail))
      ≡ parsed codec_id (map (expected_record cfg) rs)
unfolding parse_payload
parse_payload-records codec_id cfg rs tail layout fits =
    let num : ℕ = length rs in
    let records : List ℕ = encode_records cfg rs [] in
    let n : ℕ = length records in
    let behind : List ℕ = records ++ num ∷ tail in
    let last : n + 3 - 1 ≡ suc (suc n) = omega arith in
    let width : suc (suc n) - 2 ≡ n = omega arith in
    let loop =
      read_records-encode codec_id cfg layout (codec_id ∷ num ∷ behind) (suc (suc n)) num
        (omega (arith, length-append records (num ∷ tail))) rs 0 2 [] fits (omega arith)
        (ap (λ (k : ℕ). take k behind) width ∙ take-append records (num ∷ tail) n refl)
        (omega arith) in
    rw (le→ltb (n + 3) 3 (omega arith))
      (rw last (rw (get_or-append records tail num 0) (rw ((==_iff num num).1 refl) loop)))

parse_payload-encode :
    (codec_id : ℕ) (cfg : IoLayout) (rs : List AvlRecord) (tail : List ℕ)
    → layout_for_codec codec_id ≡ ok cfg
    → All (RecordFits cfg) rs
    → parse_payload
        (length (encode_payload codec_id cfg rs))
        (encode_payload codec_id cfg rs ++ tail)
      ≡ parsed codec_id (map (expected_record cfg) rs)
unfolding encode_payload
parse_payload-encode codec_id cfg rs tail layout fits =
    let num : ℕ = length rs in
    let records : List ℕ = encode_records cfg rs [] in
    let split : encode_records cfg rs (num ∷ []) ≡ records ++ num ∷ [] =
      sym (encode_records-append (num ∷ []) cfg rs []) in
    let size : suc (suc (length (records ++ num ∷ []))) ≡ length records + 3 =
      omega (arith, length-append records (num ∷ [])) in
    ap (λ (l : List ℕ). parse_payload (suc (suc (length l))) (codec_id ∷ num ∷ (l ++ tail))) split
    ∙ ap (λ (k : ℕ). parse_payload k (codec_id ∷ num ∷ ((records ++ num ∷ []) ++ tail))) size
    ∙ ap (λ (l : List ℕ). parse_payload (length records + 3) (codec_id ∷ num ∷ l))
        (append_assoc records (num ∷ []) tail)
    ∙ parse_payload-records codec_id cfg rs tail layout fits

pub parse_packet-encode_layout :
    (codec_id : ℕ) (cfg : IoLayout) (rs : List AvlRecord) (spare : List ℕ)
    → layout_for_codec codec_id ≡ ok cfg
    → All (RecordFits cfg) rs
    → length rs < 256
    → length (encode_payload codec_id cfg rs) ≤ max_data_field_length
    → parse_packet (encode_packet codec_id cfg rs) spare
      ≡ parsed codec_id (map (expected_record cfg) rs)
unfolding encode_packet body
parse_packet-encode_layout codec_id cfg rs spare layout fits count short =
    let payload : List ℕ = encode_payload codec_id cfg rs in
    let bytes =
      encode_payload-AreBytes codec_id cfg rs (layout_for_codec-IsByte codec_id cfg layout) count
        fits in
    parse_packet-frame payload spare bytes (unfold encode_payload in omega arith) short
    ∙ parse_payload-encode codec_id cfg rs _ layout fits

layout_for_codec-protocol :
    (c : Protocol) → layout_for_codec (protocol_id c) ≡ ok (protocol_layout c)
unfolding layout_for_codec
layout_for_codec-protocol codec_8 = refl
layout_for_codec-protocol codec_8_extended = refl
layout_for_codec-protocol codec_16 = refl

-- A packet of one of the three codecs, written with the ids and the field widths of the protocol, is
-- read back whole, whatever bytes stand behind it in its slice, if its fields fit their bytes, it has
-- at most 255 records, and its payload is at most 2048 bytes long. The event's id and the generation
-- are not kept.
pub parse_packet-encode_packet :
    (c : Protocol) (rs : List AvlRecord) (spare : List ℕ)
    → All (RecordFits (protocol_layout c)) rs
    → length rs ≤ 255
    → length (encode_payload (protocol_id c) (protocol_layout c) rs) ≤ 2048
    → parse_packet (encode_packet (protocol_id c) (protocol_layout c) rs) spare
      ≡ parsed (protocol_id c) (map (expected_record (protocol_layout c)) rs)
parse_packet-encode_packet c rs spare fits count short =
    parse_packet-encode_layout (protocol_id c) (protocol_layout c) rs spare
      (layout_for_codec-protocol c) fits (omega arith) short
