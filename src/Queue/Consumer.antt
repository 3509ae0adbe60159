-- ===== src/Queue/Consumer.antt =====
-- internal/queue/consumer.go: which messages a worker acknowledges. Redis is outside: a batch is what
-- XREADGROUP or XAUTOCLAIM delivered, and the model ends with the commands for Redis.
pub mod Acks
use gps_data_receiver.Prelude.{
  ℕ, zero, suc, ◌==◌, min, List, [], ◌∷◌, ◌++◌, Option, none, some, Bool, true, false,
  if◌then◌else◌, leb,
}
use gps_data_receiver.Prelude.Int.{ℤ, pos, negsuc}
use gps_data_receiver.Parser.Data.{Bytes}
use gps_data_receiver.Sender.Http.{SendFailure, err_rate_limited}

-- The value of a message's field `data`.
pub data Value : Type 0 where
  text raw : Bytes → Value
  other : Value

pub record Message : Type 0 where
  pub id : Bytes
  pub data_field : Option Value

-- What a call of the handler comes to; a panic is recovered.
pub data HandlerOutcome : Type 0 where
  returned : Option SendFailure → HandlerOutcome
  panics : HandlerOutcome

-- Whether a message is to be acknowledged, and the wait before that is known, in nanoseconds.
pub record Consumed : Type 0 where
  pub acked : Bool
  pub waited : ℕ

abbrev pub max_redelivery_delay : ℕ
max_redelivery_delay = 30_000_000_000

abbrev pub consumed_at_once : Bool → Consumed
consumed_at_once acked = record { acked = acked; waited = 0 }

-- Only a rate limit has a delay.
unfoldable pub consume_outcome : HandlerOutcome → Consumed
consume_outcome panics = consumed_at_once false
consume_outcome (returned none) = consumed_at_once true
consume_outcome (returned (some (err_rate_limited server delay))) = record {
  acked = false;
  waited = min delay max_redelivery_delay;
}
consume_outcome (returned (some e)) = consumed_at_once false

unfoldable pub consume_value : (Bytes → HandlerOutcome) → Option Value → Consumed
unfolding consume_outcome
consume_value handler none = consumed_at_once true
consume_value handler (some (text payload)) = consume_outcome (handler payload)
consume_value handler (some (raw payload)) = consume_outcome (handler payload)
consume_value handler (some other) = consumed_at_once true

unfoldable pub handle_message : (Bytes → HandlerOutcome) → Message → Consumed
unfolding consume_value
handle_message handler m = consume_value handler m.data_field

-- The ids that the goroutines of a batch append, for the messages that were started, in the order in
-- which the goroutines end.
unfoldable pub ack_ids : (Bytes → HandlerOutcome) → List Message → List Bytes
unfolding handle_message
ack_ids handler [] = []
ack_ids handler (m ∷ ms) =
    let rest = ack_ids handler ms in if (handle_message handler m).acked then m.id ∷ rest else rest

pub data Command : Type 0 where
  xack xdel : List Bytes → Command

unfoldable pub batch_ack : List Bytes → List Command
batch_ack [] = []
batch_ack (id ∷ ids) = xack (id ∷ ids) ∷ xdel (id ∷ ids) ∷ []

unfoldable pub process_batch : (Bytes → HandlerOutcome) → List Message → List Command
unfolding ack_ids batch_ack
process_batch handler ms = batch_ack (ack_ids handler ms)

-- An entry of XPENDING.
pub record Pending : Type 0 where
  pub id : Bytes
  pub retry_count : ℕ

unfoldable pub dead_ids : ℕ → List Pending → List Bytes
dead_ids max_retries [] = []
dead_ids max_retries (p ∷ ps) =
    let rest = dead_ids max_retries ps in
    if leb max_retries p.retry_count then p.id ∷ rest else rest

-- `pending` is none when Redis failed.
unfoldable pub drop_excessive_retries : ℤ → Option (List Pending) → List Command
unfolding dead_ids batch_ack
drop_excessive_retries (pos (suc n)) (some pending) = batch_ack (dead_ids (suc n) pending)
drop_excessive_retries _ _ = []

abbrev process_claimed : (Bytes → HandlerOutcome) → Option (List Message) → List Command
process_claimed handler none = []
process_claimed handler (some claimed) = process_batch handler claimed

-- A round of the reclaimer.
unfoldable pub claim_stale_messages :
    (Bytes → HandlerOutcome) → ℤ → Option (List Pending) → Option (List Message) → List Command
unfolding drop_excessive_retries process_batch
claim_stale_messages handler max_retries pending claimed =
    drop_excessive_retries max_retries pending ++ process_claimed handler claimed
