-- ===== src/Queue/Handler.antt =====
-- cmd/server/main.go: `messageHandler`, which parses a message, filters its records and sends them.
pub mod Delivery
use gps_data_receiver.Prelude.{
  ℕ, ◌==◌, List, [], ◌∷◌, ◌++◌, Option, none, some, Bool, true, false, not, if◌then◌else◌, length,
  codes,
}
use gps_data_receiver.Prelude.Result.{Result, ok, err}
use gps_data_receiver.Codec.Detect.{Format, teltonika_avl, teltonika_queued, detect_format}
use gps_data_receiver.Parser.Data.{Bytes, ParsedGpsData, InvalidRecord, ParseResult}
use gps_data_receiver.Filter.{StoppageFilter, filter_data}
use gps_data_receiver.Sender.Http.{HttpSender, World, SendFailure, SendResult, Sent, send}

-- What the handler uses: `ParseWithIMEI` without an IMEI, `SanitizeUTF8`, the JSON library on the
-- records, and whether the mirror and the database are configured.
pub record Services (F : Type 0) : Type 0 where
  pub parse : Bytes → Result Bytes (ParseResult F)
  pub sanitize : Bytes → Bytes
  pub marshal : List (ParsedGpsData F) → Option Bytes
  pub sum32 : Bytes → ℕ
  pub has_mirror : Bool
  pub has_store : Bool

pub data Deed (F : Type 0) : Type 0 where
  stored_invalid : List InvalidRecord → Deed F
  mirrored_parsed : Bytes → Deed F
  sent : Bytes → Sent → Deed F
  stored_failed : List (ParsedGpsData F) → Bytes → Deed F
  stored_success : List (ParsedGpsData F) → Deed F

-- `error` none: the message is acknowledged.
pub record Handled (F : Type 0) : Type 0 where
  pub deeds : List (Deed F)
  pub error : Option SendFailure
  pub filter : StoppageFilter

abbrev pub with_message : Bytes → World → World
with_message payload w = record w { message = payload }

module _ {F : Type 0} (services : Services F) (w : World) (sender : HttpSender) where
  abbrev when_stored : Bool → Deed F → List (Deed F)
  when_stored true d = d ∷ []
  when_stored false d = []

  unfoldable pub enqueue_invalid : List InvalidRecord → List (Deed F)
  enqueue_invalid [] = []
  enqueue_invalid (r ∷ rs) = when_stored services.has_store (stored_invalid (r ∷ rs))

  unfoldable pub store_full_invalid_payload : Bytes → Bytes → List (Deed F)
  unfolding enqueue_invalid
  store_full_invalid_payload payload reason =
      enqueue_invalid (record { raw_data = payload; reason = reason } ∷ [])

  -- The end, by the result of `Send`.
  abbrev conclude :
      Option SendFailure
      → SendResult
      → List (ParsedGpsData F)
      → List (Deed F)
      → StoppageFilter
      → Handled F
  conclude none r records deeds sf = record {
    deeds = deeds ++ when_stored services.has_store (stored_success records);
    error = none;
    filter = sf;
  }
  conclude (some e) r records deeds sf = record {
    deeds = deeds ++ when_stored services.has_store (stored_failed records r.target_server);
    error = some e;
    filter = sf;
  }

  send_payload : Option Bytes → List (ParsedGpsData F) → List (Deed F) → StoppageFilter → Handled F
  send_payload none records deeds sf = record { deeds = deeds; error = none; filter = sf }
  send_payload (some payload) records deeds sf =
      let delivery = send (with_message payload w) sender in
      conclude (delivery.result).error delivery.result records
        (deeds
          ++ ((if services.has_mirror then mirrored_parsed payload ∷ [] else [])
              ++ sent payload delivery ∷ []))
        sf

  send_filtered : List (ParsedGpsData F) → List (Deed F) → StoppageFilter → Handled F
  unfolding send_payload
  send_filtered [] deeds sf = record { deeds = deeds; error = none; filter = sf }
  send_filtered (r ∷ rs) deeds sf = send_payload (services.marshal (r ∷ rs)) (r ∷ rs) deeds sf

  handle_records : Bytes → List (ParsedGpsData F) → List InvalidRecord → StoppageFilter → Handled F
  unfolding send_filtered enqueue_invalid store_full_invalid_payload
  handle_records payload [] invalid sf = record {
    deeds =
        enqueue_invalid invalid
        ++ (if length invalid == 0
            then store_full_invalid_payload payload (codes "no valid GPS records found")
            else []);
    error = none;
    filter = sf;
  }
  handle_records payload (r ∷ rs) invalid sf =
      let filtered = filter_data services.sum32 (r ∷ rs) sf in
      send_filtered filtered.0 (enqueue_invalid invalid) filtered.1

  handle_parsed : Bytes → Result Bytes (ParseResult F) → StoppageFilter → Handled F
  unfolding handle_records
  handle_parsed payload (err e) sf = record {
    deeds = store_full_invalid_payload payload e;
    error = none;
    filter = sf;
  }
  handle_parsed payload (ok r) sf = handle_records payload r.records r.invalid sf

  -- Binary payloads and those of the TCP server are not sanitized.
  abbrev readable : Format → Bytes → Bytes
  readable teltonika_queued payload = payload
  readable teltonika_avl payload = payload
  readable _ payload = services.sanitize payload

  unfoldable pub message_handler : Bytes → StoppageFilter → Handled F
  unfolding handle_parsed
  message_handler payload sf =
      handle_parsed payload (services.parse (readable (detect_format payload) payload)) sf
