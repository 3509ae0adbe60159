-- ===== src/Mirror/Encoding/Lossless.antt =====
-- internal/hooshnics/forwarder.go: a mirrored request holds the device's bytes, all of them.
use gps_data_receiver.Prelude.{
  ℕ, ◌+◌, ◌-◌, ◌*◌, ◌/◌, ◌%◌, ◌<◌, ◌≡◌, refl, ap, arith, [], ◌∷◌, true, false, not, ◌&&◌, ◌||◌,
  Bool-cases, inl, inr, if◌then◌else◌, ltb, All, IsByte, codes, bytes_eq,
}
use gps_data_receiver.Parser.Data.{Bytes}
use gps_data_receiver.Parser.Teltonika.{hex_encode, hex_digit}
use gps_data_receiver.Mirror.Encoding.{
  TextLibrary, RawMeta, RawRequest, as_is, wrapped, is, is_json, pick_encoding, build_raw_request,
}

-- The receiver's reading of lower case hexadecimal text.
abbrev pub digit_value : ℕ → ℕ
digit_value c = if ltb c b'a' then c - b'0' else c - b'a' + 10

unfoldable pub hex_decode : Bytes → Bytes
hex_decode (h ∷ l ∷ text) = (digit_value h * 16 + digit_value l) ∷ hex_decode text
hex_decode _ = []

unfoldable pub payload_of_request : RawRequest → Bytes
unfolding hex_decode
payload_of_request (as_is payload imei source_type) = payload
payload_of_request (wrapped e) =
    if is "hex" e.payload_encoding then hex_decode e.payload else e.payload

digit_value-hex_digit : (n : ℕ) → n < 16 → digit_value (hex_digit n) ≡ n
digit_value-hex_digit n small = ground arith

hex_decode-hex_encode : (bytes : Bytes) → All IsByte bytes → hex_decode (hex_encode bytes) ≡ bytes
unfolding hex_decode hex_encode
hex_decode-hex_encode [] small = refl
hex_decode-hex_encode (b ∷ bs) (b_small, small) =
    rw (digit_value-hex_digit (b / 16) (omega arith)) (
      rw (digit_value-hex_digit (b % 16) (omega arith)) (
        let whole : b / 16 * 16 + b % 16 ≡ b = omega arith in
        rw whole (ap (◌∷◌ b) (hex_decode-hex_encode bs small))))

text_of : Bytes × Bytes → Bytes
text_of e = if is "hex" e.0 then hex_decode e.1 else e.1

hex_name : is "hex" (codes "hex") ≡ true
unfolding bytes_eq
hex_name = refl

module _ (lib : TextLibrary) where
  text_of-hex :
      (payload : Bytes) → All IsByte payload → text_of (codes "hex", hex_encode payload) ≡ payload
  unfolding text_of
  text_of-hex payload small = rw hex_name (hex_decode-hex_encode payload small)

  text_of-pick_encoding :
      (encoding payload : Bytes)
      → All IsByte payload
      → text_of (pick_encoding lib encoding payload) ≡ payload
  unfolding pick_encoding
  text_of-pick_encoding encoding payload small =
      elim (Bool-cases (
        is "" encoding || is "binary" encoding || is "hex" encoding || not (lib.is_utf8 payload))) [
          | inl opaque' ↦ rw opaque' (text_of-hex payload small)
          | inr plain ↦ elim (Bool-cases (is "json" encoding && not (is_json lib payload))) [
            | inl odd ↦ rw plain (rw odd (text_of-hex payload small))
            | inr fine ↦
                let no_hex : is "hex" encoding ≡ false = ground arith in
                rw plain (rw fine (unfold text_of in rw no_hex refl))
          ]
        ]

  -- Whatever the payload and its description: the request for the mirror holds the payload's bytes,
  -- as they are or, if the request says that its encoding is hex, in hexadecimal.
  pub payload_of_request-build_raw_request :
      (payload : Bytes) (meta : RawMeta)
      → All IsByte payload
      → payload_of_request (build_raw_request lib payload meta) ≡ payload
  unfolding build_raw_request payload_of_request text_of
  payload_of_request-build_raw_request payload meta small =
      let encoding : Bytes = lib.to_lower (lib.trim_space meta.encoding) in
      let source_type : Bytes = lib.trim_space meta.source_type in
      elim (Bool-cases (
        is_json lib payload
        && (is "" encoding || is "json" encoding)
        && not (is "teltonika" source_type))) [
          | inl json ↦ rw json refl
          | inr other ↦ rw other (text_of-pick_encoding encoding payload small)
        ]
