-- ===== src/Codec/Packet/Corrupt.antt =====
-- internal/teltonika/codec/packet.go on damaged and on hostile packets.
use gps_data_receiver.Prelude.{
  ℕ, zero, suc, ◌+◌, ◌-◌, ◌≤◌, ◌<◌, ◌≡◌, ◌≢◌, refl, ap, ◌∙◌, List, [], ◌∷◌, ◌++◌, append_assoc,
  arith, length, length-append, ◌==◌, ==_iff, Bool-cases, inl, inr, le→ltb, lt→leb_false,
  get_or-append, All, All-append, IsByte, encode_be, length-encode_be,
}
use gps_data_receiver.Codec.Crc.{crc16_ibm, crc16_ibm-lt, crc16_ibm_detects_changed_byte}
use gps_data_receiver.Codec.Record.Sound.{decode_record_panics}
use gps_data_receiver.Codec.Encode.{frame, frame_with}
use gps_data_receiver.Codec.Packet.{
  refused, panicked, crc_mismatch, sub_slice, read_records, continue_records, parse_payload,
  check_crc, parse_packet, max_data_field_length,
}
use gps_data_receiver.Codec.Packet.RoundTrip.{
  body, parse_packet-frame_with, parse_packet-frame, take-body, checksum-body,
}

-- A framed payload of which one byte was changed on the way, the checksum not, is refused for its
-- checksum, whatever the byte and wherever it stands in the payload.
pub parse_packet_refuses_changed_byte :
    (xs ys spare : List ℕ) (a b : ℕ)
    → All IsByte xs
    → All IsByte ys
    → IsByte a
    → IsByte b
    → a ≢ b
    → length (xs ++ b ∷ ys) ≤ max_data_field_length
    → parse_packet (frame_with (xs ++ b ∷ ys) (crc16_ibm (xs ++ a ∷ ys))) spare
      ≡ refused 0 [] (crc_mismatch (crc16_ibm (xs ++ a ∷ ys)) (crc16_ibm (xs ++ b ∷ ys)))
unfolding check_crc
parse_packet_refuses_changed_byte xs ys spare a b hx hy ha hb ne short =
    let sent : List ℕ = xs ++ a ∷ ys in
    let got : List ℕ = xs ++ b ∷ ys in
    let crc : ℕ = crc16_ibm sent in
    let small = crc16_ibm-lt sent (All-append IsByte xs (a ∷ ys) hx (ha, hy)) in
    parse_packet-frame_with got crc spare (omega (arith, length-append xs (b ∷ ys))) short
    ∙ rw (take-body got crc spare) (
        rw (checksum-body got crc spare small) (elim (Bool-cases (crc == crc16_ibm got)) [
          | inl same ↦ absurd (
              ne (
                crc16_ibm_detects_changed_byte xs ys a b hx ha hb hy
                  ((==_iff crc (crc16_ibm got)).0 same)))
          | inr differ ↦ rw differ
        ]))

parse_payload_panics :
    (c n : ℕ) (inner rest : List ℕ)
    → 0 < n
    → 9 ≤ length inner
    → length inner + length rest < 23
    → parse_payload (length inner + 3) (c ∷ n ∷ (inner ++ n ∷ rest)) ≡ panicked
unfolding parse_payload read_records continue_records
parse_payload_panics c zero inner rest pos long short = absurd (omega arith)
parse_payload_panics c (suc n) inner rest pos long short =
    let k : ℕ = length inner in
    let backing : List ℕ = c ∷ suc n ∷ (inner ++ suc n ∷ rest) in
    let last : k + 3 - 1 ≡ suc (suc k) = omega arith in
    rw (le→ltb (k + 3) 3 (omega arith)) (
      rw last (
        rw (get_or-append inner rest (suc n) 0) (
          rw ((==_iff (suc n) (suc n)).1 refl) (
            rw (lt→leb_false (suc (suc k)) 2 (omega arith)) (
              rw (
                decode_record_panics (sub_slice backing 2 (suc (suc k))) c (omega arith)
                  (omega (arith, length-append inner (suc n ∷ rest)))))))))

-- A well-framed packet with a correct checksum makes `ParsePacket` panic, for every codec id, if it
-- announces a record and the bytes of its records are at least 9, and fewer than 19 together with
-- the spare capacity of the slice (which is none for the frames that a session reads).
pub parse_packet_panics :
    (c n : ℕ) (inner spare : List ℕ)
    → All IsByte (c ∷ n ∷ (inner ++ n ∷ []))
    → 0 < n
    → 9 ≤ length inner
    → length inner + length spare < 19
    → parse_packet (frame (c ∷ n ∷ (inner ++ n ∷ []))) spare ≡ panicked
unfolding body
parse_packet_panics c n inner spare bytes pos long short =
    let payload : List ℕ = c ∷ n ∷ (inner ++ n ∷ []) in
    let rest : List ℕ = encode_be 4 (crc16_ibm payload) ++ spare in
    let size : suc (suc (length (inner ++ n ∷ []))) ≡ length inner + 3 =
      omega (arith, length-append inner (n ∷ [])) in
    parse_packet-frame payload spare bytes (omega arith) (omega arith)
    ∙ ap (λ (k : ℕ). parse_payload k (c ∷ n ∷ ((inner ++ n ∷ []) ++ rest))) size
    ∙ ap (λ (l : List ℕ). parse_payload (length inner + 3) (c ∷ n ∷ l))
        (append_assoc inner (n ∷ []) rest)
    ∙ parse_payload_panics c n inner rest pos long (
        omega (
          arith,
          length-append (encode_be 4 (crc16_ibm payload)) spare,
          length-encode_be 4 (crc16_ibm payload),
        ))
