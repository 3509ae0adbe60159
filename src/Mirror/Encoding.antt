-- ===== src/Mirror/Encoding.antt =====
-- internal/hooshnics/forwarder.go: how a payload is put into the body of a request.
pub mod Lossless
use gps_data_receiver.Prelude.{
  ℕ, zero, suc, ◌%◌, ◌==◌, ◌&&◌, ◌||◌, List, [], ◌∷◌, Option, none, some, Bool, true, false, not,
  if◌then◌else◌, ltb, leb, length, bytes_eq, codes,
}
use Prim.Native.String.{String}
use gps_data_receiver.Parser.Data.{Bytes}
use gps_data_receiver.Parser.Teltonika.{hex_encode}

-- strings.TrimSpace, strings.ToLower, utf8.Valid and strings.HasPrefix.
pub record TextLibrary : Type 0 where
  pub trim_space : Bytes → Bytes
  pub to_lower : Bytes → Bytes
  pub is_utf8 : Bytes → Bool
  pub has_prefix : Bytes → Bytes → Bool

-- `received_at` is the time that a request carries: the callers all set it.
pub record RawMeta : Type 0 where
  pub imei : Bytes
  pub source_type : Bytes
  pub encoding : Bytes
  pub received_at : ℕ

-- The fields of the JSON envelope.
pub record Envelope : Type 0 where
  pub payload : Bytes
  pub payload_encoding : Bytes
  pub source_type : Bytes
  pub received_at : ℕ
  pub imei : Bytes

-- The payload as it is, with the IMEI and the source type for the headers; or an envelope.
pub data RawRequest : Type 0 where
  as_is : Bytes → Bytes → Bytes → RawRequest
  wrapped : Envelope → RawRequest

-- bytes.TrimLeft(payload, " \t\r\n")
unfoldable pub trim_left : Bytes → Bytes
trim_left [] = []
trim_left (b ∷ bs) =
    let rest = trim_left bs in if b == 32 || b == 9 || b == 13 || b == 10 then rest else b ∷ bs

unfoldable pub starts_json : Bytes → Bool
starts_json [] = false
starts_json (b ∷ bs) = b == b'{' || b == b'['

abbrev pub is : String → Bytes → Bool
is name bytes = bytes_eq bytes (codes name)

unfoldable pub is_hex_digits : Bytes → Bool
is_hex_digits [] = true
is_hex_digits (b ∷ bs) =
    (leb b'0' b && leb b b'9' || leb b'a' b && leb b b'f' || leb b'A' b && leb b b'F')
    && is_hex_digits bs

module _ (lib : TextLibrary) where
  unfoldable pub looks_like_hex : Bytes → Bool
  unfolding is_hex_digits
  looks_like_hex payload =
      let s = lib.trim_space payload in
      not (ltb (length s) 20) && length s % 2 == 0 && is_hex_digits s

  unfoldable pub is_json : Bytes → Bool
  unfolding trim_left starts_json
  is_json payload = starts_json (trim_left payload) && lib.is_utf8 payload

  -- The encoding and the text of the payload.
  unfoldable pub pick_encoding : Bytes → Bytes → Bytes × Bytes
  unfolding is_json
  pick_encoding encoding payload =
      if is "" encoding || is "binary" encoding || is "hex" encoding || not (lib.is_utf8 payload)
      then (codes "hex", hex_encode payload)
      else if is "json" encoding && not (is_json payload)
      then (codes "hex", hex_encode payload)
      else (encoding, payload)

  unfoldable pub default_source_type : Bytes → Bytes → Bytes
  default_source_type encoding source_type =
      if is "" source_type
      then if is "hex" encoding then codes "teltonika" else codes "http"
      else source_type

  unfoldable pub build_raw_request : Bytes → RawMeta → RawRequest
  unfolding pick_encoding default_source_type
  build_raw_request payload meta =
      let encoding = lib.to_lower (lib.trim_space meta.encoding) in
      let source_type = lib.trim_space meta.source_type in
      let imei = lib.trim_space meta.imei in
      let encoded = pick_encoding encoding payload in
      if is_json payload
        && (is "" encoding || is "json" encoding)
        && not (is "teltonika" source_type)
      then as_is payload imei source_type
      else wrapped (record {
        payload = encoded.1;
        payload_encoding = encoded.0;
        source_type = default_source_type encoded.0 source_type;
        received_at = meta.received_at;
        imei = imei;
      })

  -- The description of a body that came over HTTP.
  unfoldable pub body_meta : Bytes → Bytes → Bytes → ℕ → RawMeta
  unfolding looks_like_hex trim_left starts_json
  body_meta body imei content_type now =
      if lib.has_prefix (lib.to_lower (lib.trim_space content_type))
        (codes "application/octet-stream")
      then record {
        imei = imei;
        source_type = codes "teltonika";
        encoding = codes "hex";
        received_at = now;
      }
      else if starts_json (trim_left body)
      then record {
        imei = imei;
        source_type = codes "hooshnic";
        encoding = codes "json";
        received_at = now;
      }
      else if looks_like_hex body
      then record {
        imei = imei;
        source_type = codes "teltonika";
        encoding = codes "hex";
        received_at = now;
      }
      else if lib.is_utf8 body
      then record {
        imei = imei;
        source_type = codes "http";
        encoding = codes "text";
        received_at = now;
      }
      else record {
        imei = imei;
        source_type = codes "http";
        encoding = codes "hex";
        received_at = now;
      }

  unfoldable pub http_request : Bytes → Bytes → Bytes → ℕ → RawRequest
  unfolding build_raw_request body_meta
  http_request body imei content_type now =
      build_raw_request body (body_meta body imei content_type now)
