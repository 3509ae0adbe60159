-- ===== src/Tcp/Session/Protocol.antt =====
-- internal/teltonika/tcp/session.go: what any session does, whatever the device sends.
use gps_data_receiver.Prelude.{
  ℕ, zero, suc, ◌%◌, ◌^◌, ◌<◌, ◌≡◌, refl, sym, ap, ◌∙◌, List, [], ◌∷◌, arith, none, some,
  Bool-cases, true, false, inl, inr, length, encode_be, Option-cases,
}
use gps_data_receiver.Prelude.Result.{Result, ok, err}
use gps_data_receiver.Codec.Record.{Record}
use gps_data_receiver.Codec.Packet.{Parsed, parsed, refused, panicked, parse_packet}
use gps_data_receiver.Parser.Data.{Bytes, ParsedGpsData}
use gps_data_receiver.Parser.Teltonika.{records_to_parsed, length-records_to_parsed}
use gps_data_receiver.Tcp.Session.{
  ReadError, Server, Event, wrote, submitted, PostAckJob, Validated, valid, panics, Run,
  validate_frame, validate_packet, validate_parsed, with_envelope, acknowledge, on_frame,
  session_loop, read_frame, read_imei, handshake, accept, reject, run, is_imei_allowed,
}

module _ {F : Type 0} (server : Server F) where
  -- The frame of an accepted report: it parses to records, of which the ACK gives the number.
  pub record Accepted (imei : Bytes) (count : ℕ) (job : PostAckJob) : Type 0 where
    pub codec : ℕ
    pub records : List Record
    pub some_record : 0 < length records
    pub parses : parse_packet job.frame [] ≡ parsed codec records
    pub count_is : count ≡ length records % 2 ^ 32
    pub imei_is : job.imei ≡ imei
    pub envelope_is :
        server.marshal imei (records_to_parsed server.library records imei server.tz_offset)
        ≡ some job.envelope

  -- An ACK of 0 comes with no job, any other ACK is that of an accepted report, whose job follows.
  pub data Served (imei : Bytes) : List Event → Type 0 where
    silent : Served imei []
    nothing : {es : List Event} → Served imei es → Served imei (wrote (encode_be 4 0) ∷ es)
    report :
        {es : List Event} (count : ℕ) (job : PostAckJob)
        → Accepted imei count job
        → Served imei es
        → Served imei (wrote (encode_be 4 count) ∷ submitted job ∷ es)

  -- One answer, and nothing else to a device that is not admitted.
  pub data Answered (k : ℕ) (input : Bytes) : List Event → Type 0 where
    unanswered : Answered k input []
    rejected :
        (imei rest : Bytes)
        → read_imei input ≡ ok (imei, rest)
        → is_imei_allowed server.imei_allow imei ≡ false
        → Answered k input (wrote (0x00 ∷ []) ∷ [])
    admitted :
        (imei rest : Bytes) {es : List Event}
        → read_imei input ≡ ok (imei, rest)
        → is_imei_allowed server.imei_allow imei ≡ true
        → Served imei es
        → Answered k input (wrote (0x01 ∷ []) ∷ es)

  -- What `validateFrame` may give.
  data Judged (imei frame : Bytes) : Validated → Type 0 where
    broken : Judged imei frame panics
    empty : Judged imei frame (valid 0 none)
    full :
        (count : ℕ) (job : PostAckJob)
        → Accepted imei count job
        → Judged imei frame (valid count (some job))

  judge_parsed :
      (imei frame : Bytes) (c : ℕ) (recs : List Record) (ps : List (ParsedGpsData F))
      → parse_packet frame [] ≡ parsed c recs
      → records_to_parsed server.library recs imei server.tz_offset ≡ ps
      → Judged imei frame (validate_parsed server imei frame ps)
  unfolding validate_parsed with_envelope
  judge_parsed imei frame c recs [] e ep = empty
  judge_parsed imei frame c recs (p ∷ ps) e ep =
      let size = length-records_to_parsed server.library recs imei server.tz_offset in
      elim (Option-cases (server.marshal imei (p ∷ ps))) [
        | inl failed ↦ rw failed empty
        | inr (envelope, done) ↦ rw done (
            full _ _ (record {
              codec = c;
              records = recs;
              some_record = omega (arith, size, ap length ep);
              parses = e;
              count_is = ap (λ (n : ℕ). n % 2 ^ 32) (ap length (sym ep) ∙ size);
              imei_is = refl;
              envelope_is = ap (server.marshal imei) ep ∙ done;
            }))
      ]

  judge_packet :
      (imei frame : Bytes) (p : Parsed)
      → parse_packet frame [] ≡ p
      → Judged imei frame (validate_packet server imei frame p)
  unfolding validate_packet
  judge_packet imei frame (parsed c recs) e = judge_parsed imei frame c recs _ e refl
  judge_packet imei frame (refused c recs x) e = empty
  judge_packet imei frame panicked e = broken

  acknowledge-Served :
      (imei frame : Bytes) (next : Bytes → ℕ → Run) (rest : Bytes) (writes : ℕ) (v : Validated)
      → Judged imei frame v
      → ((w : ℕ) → Served imei (next rest w).events)
      → Served imei (acknowledge server next rest writes v).events
  unfolding acknowledge
  acknowledge-Served imei frame next rest writes v broken h = silent
  acknowledge-Served imei frame next rest zero v empty h = silent
  acknowledge-Served imei frame next rest zero v (full count job a) h = silent
  acknowledge-Served imei frame next rest (suc w) v empty h = nothing (h w)
  acknowledge-Served imei frame next rest (suc w) v (full count job a) h = report count job a (h w)

  on_frame-Served :
      (next : Bytes → ℕ → Run) (imei : Bytes) (writes : ℕ) (r : Result ReadError (Bytes × Bytes))
      → ((rest : Bytes) (w : ℕ) → Served imei (next rest w).events)
      → Served imei (on_frame server next imei writes r).events
  unfolding on_frame validate_frame
  on_frame-Served next imei writes (err e) h = silent
  on_frame-Served next imei writes (ok (frame, rest)) h =
      acknowledge-Served imei frame next rest writes _
        (judge_packet imei frame (parse_packet frame []) refl) (h rest)

  session_loop-Served :
      (k : ℕ) (imei input : Bytes) (writes : ℕ)
      → Served imei (session_loop server k imei input writes).events
  unfolding session_loop
  session_loop-Served zero imei input writes = silent
  session_loop-Served (suc k) imei input writes =
      on_frame-Served (session_loop server k imei) imei writes (read_frame input)
        (λ rest w. session_loop-Served k imei rest w)

  handshake-Answered :
      (k writes : ℕ) (input : Bytes) (r : Result ReadError (Bytes × Bytes))
      → read_imei input ≡ r
      → Answered k input (handshake server k writes r).events
  unfolding handshake accept reject
  handshake-Answered k writes input (err e) h = unanswered
  handshake-Answered k zero input (ok (imei, rest)) h =
      elim (Bool-cases (is_imei_allowed server.imei_allow imei)) [
        | inl yes' ↦ rw yes' unanswered
        | inr no' ↦ rw no' unanswered
      ]
  handshake-Answered k (suc w) input (ok (imei, rest)) h =
      elim (Bool-cases (is_imei_allowed server.imei_allow imei)) [
        | inl yes' ↦ rw yes' (admitted imei rest h yes' (session_loop-Served k imei rest w))
        | inr no' ↦ rw no' (rejected imei rest h no')
      ]

  -- Whatever the device sends, whenever the session is cancelled and whichever write fails: the
  -- session answers the IMEI once, with 0x00 and nothing more if the device is not admitted. After
  -- 0x01 each ACK that is not 0 is the number of records of a frame that parses, and is followed by
  -- the submission of that frame's job, under the IMEI of the handshake; no other job is submitted.
  pub run-Answered :
      (k : ℕ) (input : Bytes) (writes : ℕ) → Answered k input (run server k input writes).events
  unfolding run
  run-Answered k input writes = handshake-Answered k writes input (read_imei input) refl
