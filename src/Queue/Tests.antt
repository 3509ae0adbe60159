-- ===== src/Queue/Tests.antt =====
-- internal/queue/consumer.go and the message handler with concrete messages.
use gps_data_receiver.Prelude.{
  ◌⊎◌, ℕ, ◌≡◌, refl, List, [], ◌∷◌, none, some, false, true, length, lookup,
}
use gps_data_receiver.Prelude.Int.{ℤ, pos}
use gps_data_receiver.Prelude.Result.{ok}
use gps_data_receiver.Parser.Data.{Bytes, ParsedGpsData, ParseResult}
use gps_data_receiver.Filter.{StoppageFilter, is_stoppage, filter_data}
use gps_data_receiver.Filter.Redelivery.{IsStoppage}
use gps_data_receiver.Sender.Reply.{response, send_to_server}
use gps_data_receiver.Sender.Http.{HttpSender, World, send}
use gps_data_receiver.Queue.Handler.{Services, enqueue_invalid, message_handler}
use gps_data_receiver.Queue.Handler.Delivery.{
  Delivers, message_handler_loses_stoppages, message_handler-Delivers,
}
use gps_data_receiver.Queue.Consumer.{
  text, Message, HandlerOutcome, panics, Pending, claim_stale_messages,
}
use gps_data_receiver.Queue.Consumer.Acks.{OnlyIds, MayGo, claim_stale_messages_lem}

abbrev at_speed : ℕ → ParsedGpsData ℤ
at_speed speed = record {
  lat = pos 0;
  lon = pos 0;
  speed = pos speed;
  status = pos 0;
  ew = pos 1;
  ns = pos 1;
  date_time = [];
  imei = b'4' ∷ b'2' ∷ [];
  raw_data = [];
}

abbrev standing_vehicle : ParseResult ℤ
standing_vehicle = record { records = at_speed 0 ∷ []; invalid = [] }

abbrev services : Services ℤ
services = record {
  parse = λ payload. ok standing_vehicle;
  sanitize = λ payload. payload;
  marshal = λ records. some (b'{' ∷ b'}' ∷ []);
  sum32 = length;
  has_mirror = false;
  has_store = true;
}

abbrev sender : HttpSender
sender = record {
  load_balancer = record { servers = (b'a' ∷ []) ∷ []; counter = 0 };
  max_attempts = 1;
  paused_until = [];
}

abbrev world : ℕ → World
world status = record {
  message = [];
  library = record { atoi = λ header. none; parse_time = λ header. none };
  look = λ n i. 0;
  reply = λ n server. response status [] 0;
  after_reply = λ n. n;
  cancelled = λ n. false;
}

abbrev fresh : StoppageFilter
fresh = record { shards = λ i. []; enabled = true }

stops : IsStoppage (at_speed 0)
unfolding is_stoppage
stops = refl

message_handler_loses_stoppages_example :
    ((message_handler services
        (world 500)
        sender
        []
        (message_handler services (world 500) sender [] fresh).filter).error
      ≡ none)
    × ((message_handler services
          (world 500)
          sender
          []
          (message_handler services (world 500) sender [] fresh).filter).deeds
        ≡ enqueue_invalid services (world 500) sender [])
message_handler_loses_stoppages_example =
    message_handler_loses_stoppages services (world 500) sender [] standing_vehicle (at_speed 0) []
      fresh refl refl (stops, tt) refl

kept : (filter_data length (at_speed 0 ∷ []) fresh).0 ≡ at_speed 0 ∷ []
unfolding filter_data lookup
kept = refl

acked : (message_handler services (world 200) sender [] fresh).error ≡ none
unfolding message_handler send filter_data lookup send_to_server
acked = refl

message_handler-Delivers_example :
    ((services.marshal (at_speed 0 ∷ []) ≡ none)
      × ((message_handler services (world 200) sender [] fresh).deeds
          ≡ enqueue_invalid services (world 200) sender []))
    ⊎ ((json : Bytes) × (services.marshal (at_speed 0 ∷ []) ≡ some json)
        × Delivers json (message_handler services (world 200) sender [] fresh).deeds)
message_handler-Delivers_example =
    message_handler-Delivers services (world 200) sender [] standing_vehicle (at_speed 0)
      (at_speed 0) [] [] fresh refl refl kept acked

abbrev broken_handler : Bytes → HandlerOutcome
broken_handler payload = panics

abbrev messages : List Message
messages =
    record { id = b'1' ∷ []; data_field = some (text (b'x' ∷ [])) }
    ∷ record { id = b'2' ∷ []; data_field = none }
    ∷ []

abbrev pending : List Pending
pending = record { id = b'3' ∷ []; retry_count = 3 } ∷ []

claim_stale_messages_lem_example :
    OnlyIds
      (MayGo broken_handler (pos 3) (some pending) (some messages))
      (claim_stale_messages broken_handler (pos 3) (some pending) (some messages))
claim_stale_messages_lem_example =
    claim_stale_messages_lem broken_handler (pos 3) (some pending) (some messages)
