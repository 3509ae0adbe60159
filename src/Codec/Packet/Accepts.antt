-- ===== src/Codec/Packet/Accepts.antt =====
-- internal/teltonika/codec/packet.go: an accepted packet is a frame around its records' bytes.
use gps_data_receiver.Prelude.{
  ℕ, suc, ◌+◌, ◌-◌, ◌≤◌, ◌≡◌, refl, sym, ap, ◌∙◌, List, [], ◌∷◌, ◌++◌, append_assoc, subst, arith,
  length, take, drop, length-append, length-take, length-drop, take-append-drop, false, drop-drop,
  ltb, ◌==◌, ==_iff, Bool-cases, ◌⊎◌, inl, inr, le→ltb, take-suc, get_or, be, slice,
  take-append_left, drop-append_left, All, All-take, All-drop, IsByte, bit_or, encode_be,
  encode_be-be,
}
use gps_data_receiver.Prelude.Bits.{bit_or_bounds}
use gps_data_receiver.Codec.Crc.{crc16_ibm}
use gps_data_receiver.Codec.Record.{Record}
use gps_data_receiver.Codec.Record.Sound.{IsSupported}
use gps_data_receiver.Codec.Encode.{frame}
use gps_data_receiver.Codec.Packet.{
  parsed, parse_payload, check_crc, check_length, parse_packet, preamble, max_data_field_length,
}
use gps_data_receiver.Codec.Packet.Sound.{raw_of, read_records-Tiles}

-- The payload that the records `recs` of codec `c` were read from.
unfoldable pub payload_of : ℕ → List Record → List ℕ
payload_of c recs = c ∷ length recs ∷ (raw_of recs ++ length recs ∷ [])

-- Where there is a record, its codec has a layout.
abbrev pub HasCodec : ℕ → List Record → Type 0
HasCodec c recs = (length recs ≡ 0) ⊎ IsSupported c

parse_payload_sound :
    (n : ℕ) (backing : List ℕ) {c : ℕ} {recs : List Record}
    → n ≤ length backing
    → parse_payload n backing ≡ parsed c recs
    → (take n backing ≡ payload_of c recs) × HasCodec c recs
unfolding parse_payload payload_of
parse_payload_sound (suc (suc (suc m))) (b0 ∷ b1 ∷ rest) {c} {recs} h e =
    let last : suc (suc (suc m)) - 1 ≡ suc (suc m) = omega arith in
    let width : suc (suc m) - 2 ≡ m = omega arith in
    let long : ltb (suc (suc (suc m))) 3 ≡ false = le→ltb (suc (suc (suc m))) 3 (omega arith) in
    elim (Bool-cases (b1 == get_or rest m 0)) [
      | inl same ↦
          let (rs, er, en, ec, el, codec) =
            read_records-Tiles b1 b0 (b0 ∷ b1 ∷ rest) (suc (suc m)) (omega arith) b1 0 2 [] {c = c}
              {recs = recs} (omega arith) (rw (long, last, same) at e) in
          let count : length recs ≡ b1 = ap length er ∙ en in
          let end_byte : get_or rest m 0 ≡ length recs =
            sym ((==_iff b1 (get_or rest m 0)).0 same) ∙ sym count in
          let raw : take m rest ≡ raw_of recs =
            sym (ap (λ (k : ℕ). take k rest) width) ∙ el ∙ ap raw_of (sym er) in
          (
            ap (λ (l : List ℕ). b0 ∷ b1 ∷ l) (take-suc m rest 0 (omega arith))
                ∙ (λ i. (sym ec) i ∷ (sym count) i ∷ (raw i ++ end_byte i ∷ [])),
            elim codec [
              | inl zero_rounds ↦ inl (omega arith)
              | inr known ↦ inr (subst IsSupported (sym ec) known)
            ],
          )
      | inr differ ↦ cc (rw (long, last, differ) at e)
    ]
parse_payload_sound _ _ h e = ground arith

check_crc_sound :
    (n : ℕ) (backing : List ℕ) {c : ℕ} {recs : List Record}
    → n ≤ length backing
    → check_crc n backing ≡ parsed c recs
    → (take n backing ≡ payload_of c recs)
      × (be (slice backing n (n + 4)) ≡ crc16_ibm (payload_of c recs))
      × HasCodec c recs
unfolding check_crc
check_crc_sound n backing {c} {recs} h e =
    elim (Bool-cases (be (slice backing n (n + 4)) == crc16_ibm (take n backing))) [
      | inl same ↦
          let (p, codec) = parse_payload_sound n backing {c = c} {recs = recs} h (rw same at e) in
          (
            p,
            (==_iff (be (slice backing n (n + 4))) (crc16_ibm (take n backing))).0 same
                ∙ ap crc16_ibm p,
            codec,
          )
      | inr differ ↦ cc (rw differ at e)
    ]

record LengthChecked (n : ℕ) (bytes spare : List ℕ) (c : ℕ) (recs : List Record) : Type 0 where
  legal : n ≤ max_data_field_length
  room : n + 12 ≤ length bytes
  checked : check_crc n (drop 8 (bytes ++ spare)) ≡ parsed c recs

check_length_sound :
    (n : ℕ) (bytes spare : List ℕ) {c : ℕ} {recs : List Record}
    → check_length n bytes spare ≡ parsed c recs
    → LengthChecked n bytes spare c recs
unfolding check_length
check_length_sound n bytes spare {c} {recs} e = record {
  legal = ground arith;
  room = ground arith;
  checked = ground arith;
}

preamble_zero :
    (bytes : List ℕ) → 4 ≤ length bytes → preamble bytes ≡ 0 → bytes ≡ 0 ∷ 0 ∷ 0 ∷ 0 ∷ drop 4 bytes
preamble_zero (a ∷ b ∷ c ∷ d ∷ rest) h e =
    let w = bit_or_bounds a b in
    let x = bit_or_bounds (bit_or a b) c in
    let y = bit_or_bounds (bit_or (bit_or a b) c) d in
    let ea : a ≡ 0 = omega arith in
    let eb : b ≡ 0 = omega arith in
    let ec : c ≡ 0 = omega arith in
    let ed : d ≡ 0 = omega arith in λ i. ea i ∷ eb i ∷ ec i ∷ ed i ∷ rest
preamble_zero _ h e = absurd (omega arith)

-- A list of bytes whose parts are those of a frame is that frame, and what follows.
frame_parts :
    (bytes payload : List ℕ) (n : ℕ)
    → All IsByte bytes
    → n + 12 ≤ length bytes
    → bytes ≡ 0 ∷ 0 ∷ 0 ∷ 0 ∷ drop 4 bytes
    → be (take 4 (drop 4 bytes)) ≡ n
    → take n (drop 8 bytes) ≡ payload
    → be (take 4 (drop n (drop 8 bytes))) ≡ crc16_ibm payload
    → bytes ≡ frame payload ++ drop 4 (drop n (drop 8 bytes))
unfolding frame
frame_parts bytes payload n small room zeros size body crc =
    let t : List ℕ = drop 8 bytes in
    let t_length : length t ≡ length bytes - 8 = length-drop 8 bytes in
    let n_is : length payload ≡ n = omega (arith, ap length (sym body), length-take n t) in
    let head_length : length (take 4 (drop 4 bytes)) ≡ 4 =
      omega (arith, length-take 4 (drop 4 bytes), length-drop 4 bytes) in
    let head : take 4 (drop 4 bytes) ≡ encode_be 4 (length payload) =
      sym (
        encode_be-be 4 (take 4 (drop 4 bytes))
          (All-take IsByte 4 (drop 4 bytes) (All-drop IsByte 4 bytes small)) head_length)
      ∙ ap (encode_be 4) (size ∙ sym n_is) in
    let crc_length : length (take 4 (drop n t)) ≡ 4 =
      omega (arith, length-take 4 (drop n t), length-drop n t) in
    let trailer : take 4 (drop n t) ≡ encode_be 4 (crc16_ibm payload) =
      sym (
        encode_be-be 4 (take 4 (drop n t))
          (All-take IsByte 4 (drop n t) (All-drop IsByte n t (All-drop IsByte 8 bytes small)))
          crc_length)
      ∙ ap (encode_be 4) crc in
    let rest : List ℕ = drop 4 (drop n t) in
    zeros
    ∙ ap (λ (l : List ℕ). 0 ∷ 0 ∷ 0 ∷ 0 ∷ l)
        (sym (take-append-drop 4 (drop 4 bytes))
          ∙ (λ i. head i ++ drop-drop 4 4 bytes 8 refl i)
          ∙ ap (λ (l : List ℕ). encode_be 4 (length payload) ++ l)
              (sym (take-append-drop n t)
                ∙ (λ i. body i ++ sym (take-append-drop 4 (drop n t)) i)
                ∙ (λ i. payload ++ (trailer i ++ rest)))
          ∙ simp append_assoc)

-- What `ParsePacket` accepts is, from its first byte on, the frame around the accepted records'
-- own bytes between two copies of their number, with the checksum of all that; the payload has at
-- most 2048 bytes, and the codec of a packet with records is one of the three supported.
pub parse_packet_accepts_frames :
    (bytes spare : List ℕ) {c : ℕ} {recs : List Record}
    → All IsByte bytes
    → parse_packet bytes spare ≡ parsed c recs
    → (tail : List ℕ) × (bytes ≡ frame (payload_of c recs) ++ tail)
      × (length (payload_of c recs) ≤ max_data_field_length)
      × HasCodec c recs
unfolding parse_packet
parse_packet_accepts_frames bytes spare {c} {recs} small e =
    let n : ℕ = be (slice bytes 4 8) in
    let t : List ℕ = drop 8 bytes in
    let long : 12 ≤ length bytes = ground arith in
    let zero_preamble : preamble bytes ≡ 0 = ground arith in
    let v = check_length_sound n bytes spare {c = c} {recs = recs} (ground arith) in
    let room = v.room in
    let dropped : drop 8 (bytes ++ spare) ≡ t ++ spare =
      drop-append_left 8 bytes spare (omega arith) in
    let t_length : length t ≡ length bytes - 8 = length-drop 8 bytes in
    let (body, crc, codec) =
      check_crc_sound n (t ++ spare) {c = c} {recs = recs} (omega (arith, length-append t spare))
        (rw dropped at v.checked) in
    let body' : take n t ≡ payload_of c recs =
      sym (take-append_left n t spare (omega arith)) ∙ body in
    let width : n + 4 - n ≡ 4 = omega arith in
    let crc' : be (take 4 (drop n t)) ≡ crc16_ibm (payload_of c recs) =
      ap be (
        sym (take-append_left 4 (drop n t) spare (omega (arith, length-drop n t)))
        ∙ ap (take 4) (sym (drop-append_left n t spare (omega arith)))
        ∙ ap (λ (k : ℕ). take k (drop n (t ++ spare))) (sym width))
      ∙ crc in
    (
      drop 4 (drop n t),
      frame_parts bytes (payload_of c recs) n small v.room
          (preamble_zero bytes (omega arith) zero_preamble) refl body' crc',
      omega (arith, v.legal, ap length (sym body'), length-take n t),
      codec,
    )
