-- ===== src/Tcp/Session.antt =====
-- internal/teltonika/tcp/session.go, and `isIMEIAllowed` of server.go: one device connection. The
-- connection is the bytes that the device sends before it closes or falls silent for longer than
-- the read deadline, and the number of writes that go through before one fails.
pub mod Frames
pub mod Protocol
pub mod Reports
pub mod Crash
use gps_data_receiver.Prelude.{
  ℕ, zero, suc, ◌+◌, ◌%◌, ◌^◌, List, [], ◌∷◌, ◌++◌, Option, none, some, Bool, true, false, not,
  ◌&&◌, ◌||◌, length, take, drop, ltb, ◌==◌, if◌then◌else◌, be, slice, encode_be, bytes_eq,
}
use gps_data_receiver.Prelude.Int.{ℤ}
use gps_data_receiver.Prelude.Result.{Result, ok, err, ◌>>=◌}
use gps_data_receiver.Codec.Packet.{Parsed, parsed, refused, panicked, parse_packet, preamble}
use gps_data_receiver.Parser.Data.{Bytes, ParsedGpsData}
use gps_data_receiver.Parser.Teltonika.{Library, records_to_parsed}

pub data ReadError : Type 0 where
  closed : ReadError
  invalid_imei_length : ℕ → ReadError
  invalid_preamble : ReadError
  invalid_data_field_length : ℕ → ReadError

-- io.ReadFull for n bytes: these, and what is left to read.
unfoldable pub read_full : ℕ → Bytes → Result ReadError (Bytes × Bytes)
read_full n input = if ltb (length input) n then err closed else ok (take n input, drop n input)

read_imei_of : ℕ → Bytes → Result ReadError (Bytes × Bytes)
unfolding read_full
read_imei_of n input = if n == 0 || ltb 32 n then err (invalid_imei_length n) else read_full n input

unfoldable pub read_imei : Bytes → Result ReadError (Bytes × Bytes)
unfolding read_imei_of
read_imei input = do len_buf ← read_full 2 input; read_imei_of (be len_buf.0) len_buf.1

read_payload : Bytes → ℕ → Bytes → Result ReadError (Bytes × Bytes)
unfolding read_full
read_payload header n input =
    if not (preamble header == 0)
    then err invalid_preamble
    else if n == 0 || ltb 2048 n
    then err (invalid_data_field_length n)
    else (do payload ← read_full (n + 4) input; ok (header ++ payload.0, payload.1))

-- A frame: the header and what its length announces.
unfoldable pub read_frame : Bytes → Result ReadError (Bytes × Bytes)
unfolding read_payload
read_frame input = do
  header ← read_full 8 input
  read_payload header.0 (be (slice header.0 4 8)) header.1

-- Work for the pipeline behind the ACK.
pub record PostAckJob : Type 0 where
  pub imei : Bytes
  pub frame : Bytes
  pub envelope : Bytes

-- An empty whitelist admits every device.
unfoldable pub listed : Bytes → List Bytes → Bool
unfolding bytes_eq
listed imei [] = false
listed imei (a ∷ as') = bytes_eq imei a || listed imei as'

unfoldable pub is_imei_allowed : List Bytes → Bytes → Bool
unfolding listed
is_imei_allowed [] imei = true
is_imei_allowed (a ∷ as') imei = listed imei (a ∷ as')

-- What a session does for others to see, and how it ends: a panic in it ends the process.
pub data Event : Type 0 where
  wrote : Bytes → Event
  submitted : PostAckJob → Event

pub data Ending : Type 0 where
  returned crashed : Ending

pub record Run : Type 0 where
  pub events : List Event
  pub ending : Ending

abbrev pub after : List Event → Run → Run
after es r = record r { events = es ++ r.events }

abbrev pub stop : Run
stop = record { events = []; ending = returned }

pub data Validated : Type 0 where
  valid : ℕ → Option PostAckJob → Validated
  panics : Validated

-- `marshal` is the JSON library's encoding of the envelope, which may fail.
pub record Server (F : Type 0) : Type 0 where
  pub library : Library F
  pub marshal : Bytes → List (ParsedGpsData F) → Option Bytes
  pub imei_allow : List Bytes
  pub tz_offset : ℤ

abbrev submit : Option PostAckJob → List Event
submit none = []
submit (some job) = submitted job ∷ []

module _ {F : Type 0} (server : Server F) where
  with_envelope : Bytes → Bytes → ℕ → Option Bytes → Validated
  with_envelope imei frame count none = valid 0 none
  with_envelope imei frame count (some envelope) =
      valid (count % 2 ^ 32) (some (record { imei = imei; frame = frame; envelope = envelope }))

  validate_parsed : Bytes → Bytes → List (ParsedGpsData F) → Validated
  unfolding with_envelope
  validate_parsed imei frame [] = valid 0 none
  validate_parsed imei frame (p ∷ ps) =
      with_envelope imei frame (length (p ∷ ps)) (server.marshal imei (p ∷ ps))

  validate_packet : Bytes → Bytes → Parsed → Validated
  unfolding validate_parsed
  validate_packet imei frame (parsed codec records) =
      validate_parsed imei frame (records_to_parsed server.library records imei server.tz_offset)
  validate_packet imei frame (refused codec records e) = valid 0 none
  validate_packet imei frame panicked = panics

  -- The frame was made to measure, so nothing stands behind it in its slice.
  unfoldable pub validate_frame : Bytes → Bytes → Validated
  unfolding validate_packet
  validate_frame imei frame = validate_packet imei frame (parse_packet frame [])

  -- writeAck, and the job only once the ACK is written
  acknowledge : (Bytes → ℕ → Run) → Bytes → ℕ → Validated → Run
  acknowledge next rest writes panics = record { events = []; ending = crashed }
  acknowledge next rest zero (valid count job) = stop
  acknowledge next rest (suc writes) (valid count job) =
      after (wrote (encode_be 4 count) ∷ submit job) (next rest writes)

  on_frame : (Bytes → ℕ → Run) → Bytes → ℕ → Result ReadError (Bytes × Bytes) → Run
  unfolding acknowledge
  on_frame next imei writes (err e) = stop
  on_frame next imei writes (ok (frame, rest)) =
      acknowledge next rest writes (validate_frame imei frame)

  -- The loop, with the rounds until the context is cancelled.
  unfoldable pub session_loop : ℕ → Bytes → Bytes → ℕ → Run
  unfolding on_frame
  session_loop zero imei input writes = stop
  session_loop (suc k) imei input writes =
      on_frame (session_loop k imei) imei writes (read_frame input)

  accept : ℕ → Bytes → Bytes → ℕ → Run
  accept k imei input zero = stop
  accept k imei input (suc writes) =
      after (wrote (0x01 ∷ []) ∷ []) (session_loop k imei input writes)

  reject : ℕ → Run
  reject zero = stop
  reject (suc writes) = record { events = wrote (0x00 ∷ []) ∷ []; ending = returned }

  handshake : ℕ → ℕ → Result ReadError (Bytes × Bytes) → Run
  unfolding accept reject
  handshake k writes (err e) = stop
  handshake k writes (ok (imei, rest)) =
      if not (is_imei_allowed server.imei_allow imei)
      then reject writes
      else accept k imei rest writes

  unfoldable pub run : ℕ → Bytes → ℕ → Run
  unfolding handshake
  run k input writes = handshake k writes (read_imei input)
