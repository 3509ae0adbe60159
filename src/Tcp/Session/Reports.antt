-- ===== src/Tcp/Session/Reports.antt =====
-- internal/teltonika/tcp/session.go: a well-behaved device is served completely.
use gps_data_receiver.Prelude.{
  ℕ, zero, suc, ◌%◌, ◌^◌, ◌≤◌, ◌<◌, ◌≡◌, refl, ap, ◌∙◌, List, [], ◌∷◌, ◌++◌, map, arith, some, true,
  length, encode_be, length-encode_be, be, be-encode_be, All,
}
use gps_data_receiver.Prelude.Result.{ok}
use gps_data_receiver.Codec.Record.{Record, IoLayout, layout_for_codec}
use gps_data_receiver.Codec.Encode.{
  AvlRecord, frame, encode_packet, encode_payload, expected_record, RecordFits,
}
use gps_data_receiver.Codec.Packet.{max_data_field_length}
use gps_data_receiver.Codec.Packet.RoundTrip.{parse_packet-encode_layout}
use gps_data_receiver.Parser.Data.{Bytes, ParsedGpsData}
use gps_data_receiver.Parser.Teltonika.{records_to_parsed, length-records_to_parsed}
use gps_data_receiver.Tcp.Session.{
  Server, Event, wrote, submitted, PostAckJob, valid, returned, validate_frame, validate_packet,
  validate_parsed, with_envelope, acknowledge, on_frame, session_loop, read_frame, read_imei,
  read_imei_of, handshake, accept, run, is_imei_allowed, after,
}
use gps_data_receiver.Tcp.Session.Frames.{read_full-append, read_frame-frame_with}

-- A report of a device: records that its codec can write, at least one, in a packet of legal size.
pub record Report : Type 0 where
  pub codec_id : ℕ
  pub layout : IoLayout
  pub first : AvlRecord
  pub others : List AvlRecord

abbrev pub records_of : Report → List AvlRecord
records_of r = r.first ∷ r.others

pub record ReportFits (r : Report) : Type 0 where
  pub layout_is : layout_for_codec r.codec_id ≡ ok r.layout
  pub records_fit : All (RecordFits r.layout) (records_of r)
  pub count_fits : length (records_of r) < 256
  pub size_fits : length (encode_payload r.codec_id r.layout (records_of r)) ≤ max_data_field_length

abbrev pub packet_of : Report → Bytes
packet_of r = encode_packet r.codec_id r.layout (records_of r)

-- The stream of reports that a device sends after the handshake.
unfoldable pub send_reports : List Report → Bytes
send_reports [] = []
send_reports (r ∷ rs) = packet_of r ++ send_reports rs

unfoldable pub send_imei : Bytes → Bytes → Bytes
send_imei imei rest = encode_be 2 (length imei) ++ (imei ++ rest)

length-map {ℓ ℓ'} :
    {A : Type ℓ} {B : Type ℓ'} (f : A → B) (xs : List A) → length (map f xs) ≡ length xs
length-map f [] = refl
length-map f (x ∷ xs) = ap suc (length-map f xs)

module _ {F : Type 0} (server : Server F) (marshal : Bytes → List (ParsedGpsData F) → Bytes) where
  -- The job of a report: its packet as it came, and the envelope of its records.
  unfoldable pub job_of : Bytes → Report → PostAckJob
  job_of imei r = record {
    imei = imei;
    frame = packet_of r;
    envelope = marshal imei (
        records_to_parsed server.library (map (expected_record r.layout) (records_of r)) imei
          server.tz_offset);
  }

  unfoldable pub served : Bytes → List Report → List Event
  served imei [] = []
  served imei (r ∷ rs) =
      wrote (encode_be 4 (length (records_of r))) ∷ submitted (job_of imei r) ∷ served imei rs

module _ {F : Type 0} (server : Server F) (marshal : Bytes → List (ParsedGpsData F) → Bytes)
    (total : (imei : Bytes) (ps : List (ParsedGpsData F))
      → server.marshal imei ps ≡ some (marshal imei ps)) where
  validate_parsed_lem :
      (imei frame : Bytes) (ps : List (ParsedGpsData F))
      → 0 < length ps
      → length ps < 256
      → validate_parsed server imei frame ps
        ≡ valid
            (length ps)
            (some (record { imei = imei; frame = frame; envelope = marshal imei ps }))
  unfolding validate_parsed with_envelope
  validate_parsed_lem imei frame [] some_records few = absurd (omega arith)
  validate_parsed_lem imei frame (p ∷ ps) some_records few =
      let small : length (p ∷ ps) % 2 ^ 32 ≡ length (p ∷ ps) = omega arith in
      rw (total imei (p ∷ ps)) (rw small)

  served-step :
      (imei : Bytes) (r : Report) (rest : Bytes) (k writes : ℕ)
      → ReportFits r
      → session_loop server (suc k) imei (packet_of r ++ rest) (suc writes)
        ≡ after
            (wrote (encode_be 4 (length (records_of r)))
              ∷ submitted (job_of server marshal imei r)
              ∷ [])
            (session_loop server k imei rest writes)
  unfolding session_loop on_frame acknowledge encode_packet frame validate_frame validate_packet
      validate_parsed with_envelope job_of
  served-step imei r rest k writes fits =
      rw
        (read_frame-frame_with (encode_payload r.codec_id r.layout (records_of r)) rest _
          (unfold encode_payload in omega arith) fits.size_fits)
        (rw
          (parse_packet-encode_layout r.codec_id r.layout (records_of r) [] fits.layout_is
            fits.records_fit fits.count_fits fits.size_fits)
          (let decoded : List Record = map (expected_record r.layout) (records_of r) in
            let ps : List (ParsedGpsData F) =
              records_to_parsed server.library decoded imei server.tz_offset in
            let size : length ps ≡ length (records_of r) =
              length-records_to_parsed server.library decoded imei server.tz_offset
              ∙ length-map (expected_record r.layout) (records_of r) in
            rw
              (validate_parsed_lem imei (packet_of r) ps (omega (arith, size))
                (omega (arith, size, fits.count_fits)))
              rw size))

  session_loop-served :
      (imei : Bytes) (rs : List Report) (k writes : ℕ)
      → All ReportFits rs
      → length rs ≤ k
      → length rs ≤ writes
      → session_loop server k imei (send_reports rs) writes
        ≡ record { events = served server marshal imei rs; ending = returned }
  unfolding session_loop send_reports served read_frame
  session_loop-served imei [] zero writes fits rounds room = refl
  session_loop-served imei [] (suc k) writes fits rounds room = refl
  session_loop-served imei (r ∷ rs) zero writes fits rounds room = absurd (omega arith)
  session_loop-served imei (r ∷ rs) (suc k) zero fits rounds room = absurd (omega arith)
  session_loop-served imei (r ∷ rs) (suc k) (suc writes) fits rounds room =
      served-step imei r (send_reports rs) k writes fits.0
      ∙ ap
          (after (
            wrote (encode_be 4 (length (records_of r)))
            ∷ submitted (job_of server marshal imei r)
            ∷ []))
          (session_loop-served imei rs k writes fits.1 (omega arith) (omega arith))

pub read_imei-send_imei :
    (imei rest : Bytes)
    → 0 < length imei
    → length imei ≤ 32
    → read_imei (send_imei imei rest) ≡ ok (imei, rest)
unfolding read_imei read_imei_of send_imei
read_imei-send_imei imei rest pos short =
    let n_is : be (encode_be 2 (length imei)) ≡ length imei =
      be-encode_be 2 (length imei) (omega arith) in
    rw
      (read_full-append 2 (encode_be 2 (length imei)) (imei ++ rest)
        (length-encode_be 2 (length imei)))
      (rw n_is (rw (read_full-append (length imei) imei rest refl) (ground arith)))

-- A device on the whitelist whose name has 1 to 32 bytes, and which then sends reports that its
-- codec can write, gets the handshake's 0x01 and for each report, in order, an ACK with the number
-- of its records; each report's packet and parsed records go to the pipeline, each once, after its
-- ACK. This holds when the writes go through, the rounds are enough and the JSON library encodes.
pub run-serves :
    {F : Type 0} (server : Server F) (marshal : Bytes → List (ParsedGpsData F) → Bytes)
    (total : (imei : Bytes) (ps : List (ParsedGpsData F))
      → server.marshal imei ps ≡ some (marshal imei ps))
    (imei : Bytes) (rs : List Report) (k writes : ℕ)
    → is_imei_allowed server.imei_allow imei ≡ true
    → 0 < length imei
    → length imei ≤ 32
    → All ReportFits rs
    → length rs ≤ k
    → length rs ≤ writes
    → run server k (send_imei imei (send_reports rs)) (suc writes)
      ≡ record { events = wrote (0x01 ∷ []) ∷ served server marshal imei rs; ending = returned }
unfolding run handshake accept
run-serves server marshal total imei rs k writes allowed pos short fits rounds room =
    rw (read_imei-send_imei imei (send_reports rs) pos short)
      (rw allowed (rw (session_loop-served server marshal total imei rs k writes fits rounds room)))
