-- ===== src/Queue/Consumer/Acks.antt =====
-- internal/queue/consumer.go: no message leaves the stream unless it is done with.
use gps_data_receiver.Prelude.{
  ℕ, zero, suc, ◌≤◌, ◌<◌, ◌≡◌, ◌⊎◌, inl, inr, refl, arith, List, [], ◌∷◌, Option, none, some, true,
  Bool-cases, All, All-append, leb,
}
use gps_data_receiver.Prelude.Int.{ℤ, pos, negsuc}
use gps_data_receiver.Parser.Data.{Bytes}
use gps_data_receiver.Sender.Http.{
  no_servers_available, err_rate_limited, context_cancelled, max_retry_attempts,
}
use gps_data_receiver.Queue.Consumer.{
  Value, text, raw, other, Message, HandlerOutcome, returned, panics, consume_outcome,
  consume_value, handle_message, ack_ids, Command, xack, xdel, batch_ack, process_batch, Pending,
  dead_ids, drop_excessive_retries, process_claimed, claim_stale_messages,
}

-- There is nothing left to do for a message: it has no payload, or the handler took it.
pub data IsDone (handler : Bytes → HandlerOutcome) : Option Value → Type 0 where
  no_field : IsDone handler none
  odd_field : IsDone handler (some other)
  took_text :
      (payload : Bytes) → handler payload ≡ returned none → IsDone handler (some (text payload))
  took_raw :
      (payload : Bytes) → handler payload ≡ returned none → IsDone handler (some (raw payload))

-- The id is one of these, of a message that satisfies P.
abbrev pub OneOf : (Message → Type 0) → List Message → Bytes → Type 0
OneOf P [] id = ⊥
OneOf P (m ∷ ms) id = ((id ≡ m.id) × P m) ⊎ OneOf P ms id

abbrev pub WornOut : ℤ → List Pending → Bytes → Type 0
WornOut max_retries [] id = ⊥
WornOut (pos n) (p ∷ ps) id = ((id ≡ p.id) × (0 < n) × (n ≤ p.retry_count)) ⊎ WornOut (pos n) ps id
WornOut (negsuc n) (p ∷ ps) id = ⊥

-- The ids that a command removes or acknowledges.
abbrev pub ids_of : Command → List Bytes
ids_of (xack ids) = ids
ids_of (xdel ids) = ids

consume_outcome_acks : (o : HandlerOutcome) → (consume_outcome o).acked ≡ true → o ≡ returned none
unfolding consume_outcome
consume_outcome_acks panics h = absurd (cc h)
consume_outcome_acks (returned none) h = refl
consume_outcome_acks (returned (some no_servers_available)) h = absurd (cc h)
consume_outcome_acks (returned (some (err_rate_limited server delay))) h = absurd (cc h)
consume_outcome_acks (returned (some context_cancelled)) h = absurd (cc h)
consume_outcome_acks (returned (some (max_retry_attempts e))) h = absurd (cc h)

module _ (handler : Bytes → HandlerOutcome) where
  consume_value-IsDone :
      (v : Option Value) → (consume_value handler v).acked ≡ true → IsDone handler v
  unfolding consume_value
  consume_value-IsDone none h = no_field
  consume_value-IsDone (some (text payload)) h =
      took_text payload (consume_outcome_acks (handler payload) h)
  consume_value-IsDone (some (raw payload)) h =
      took_raw payload (consume_outcome_acks (handler payload) h)
  consume_value-IsDone (some other) h = odd_field

  abbrev pub Done : Message → Type 0
  Done m = IsDone handler m.data_field

  All-OneOf :
      (m : Message) (ms : List Message) (ids : List Bytes)
      → All (OneOf Done ms) ids
      → All (OneOf Done (m ∷ ms)) ids
  All-OneOf m ms [] h = tt
  All-OneOf m ms (id ∷ ids) (h, hs) = (inr h, All-OneOf m ms ids hs)

  ack_ids-OneOf : (ms : List Message) → All (OneOf Done ms) (ack_ids handler ms)
  unfolding ack_ids handle_message
  ack_ids-OneOf [] = tt
  ack_ids-OneOf (m ∷ ms) =
      let rest = All-OneOf m ms (ack_ids handler ms) (ack_ids-OneOf ms) in
      elim (Bool-cases (handle_message handler m).acked) [
        | inl acks ↦ rw acks (inl (refl, consume_value-IsDone m.data_field acks), rest)
        | inr leaves ↦ rw leaves rest
      ]

abbrev pub entries {ℓ} : {A : Type ℓ} → Option (List A) → List A
entries none = []
entries (some xs) = xs

module _ (P : Bytes → Type 0) where
  abbrev pub OnlyIds : List Command → Type 0
  OnlyIds commands = All (λ (c : Command). All P (ids_of c)) commands

  batch_ack-OnlyIds : (ids : List Bytes) → All P ids → OnlyIds (batch_ack ids)
  unfolding batch_ack
  batch_ack-OnlyIds [] h = tt
  batch_ack-OnlyIds (id ∷ ids) h = (h, (h, tt))

All-weaken :
    {P Q : Bytes → Type 0}
    → ((id : Bytes) → P id → Q id)
    → (ids : List Bytes) → All P ids
    → All Q ids
All-weaken f [] h = tt
All-weaken f (id ∷ ids) (h, hs) = (f id h, All-weaken f ids hs)

dead_ids-WornOut :
    (n : ℕ) (pending : List Pending)
    → All (WornOut (pos (suc n)) pending) (dead_ids (suc n) pending)
unfolding dead_ids
dead_ids-WornOut n [] = tt
dead_ids-WornOut n (p ∷ ps) =
    let rest : All (WornOut (pos (suc n)) (p ∷ ps)) (dead_ids (suc n) ps) =
      All-weaken (λ id h. inr h) (dead_ids (suc n) ps) (dead_ids-WornOut n ps) in
    elim (Bool-cases (leb (suc n) p.retry_count)) [
      | inl worn ↦
          let many : suc n ≤ p.retry_count = ground arith in
          rw worn (inl (refl, omega arith, many), rest)
      | inr fresh ↦ rw fresh rest
    ]

module _ (handler : Bytes → HandlerOutcome) (max_retries : ℤ) (pending : Option (List Pending))
    (claimed : Option (List Message)) where
  -- May this message leave the stream?
  abbrev pub MayGo : Bytes → Type 0
  MayGo id = WornOut max_retries (entries pending) id ⊎ OneOf (Done handler) (entries claimed) id

drop-MayGo :
    (handler : Bytes → HandlerOutcome) (max_retries : ℤ) (pending : Option (List Pending))
    (claimed : Option (List Message))
    → OnlyIds
        (MayGo handler max_retries pending claimed)
        (drop_excessive_retries max_retries pending)
unfolding drop_excessive_retries
drop-MayGo handler (pos (suc n)) (some pending) claimed =
    batch_ack-OnlyIds _ (dead_ids (suc n) pending)
      (All-weaken (λ id h. inl h) (dead_ids (suc n) pending) (dead_ids-WornOut n pending))
drop-MayGo handler (pos zero) pending claimed = tt
drop-MayGo handler (pos (suc n)) none claimed = tt
drop-MayGo handler (negsuc n) pending claimed = tt

claimed-MayGo :
    (handler : Bytes → HandlerOutcome) (max_retries : ℤ) (pending : Option (List Pending))
    (claimed : Option (List Message))
    → OnlyIds (MayGo handler max_retries pending claimed) (process_claimed handler claimed)
unfolding process_batch
claimed-MayGo handler max_retries pending none = tt
claimed-MayGo handler max_retries pending (some claimed) =
    batch_ack-OnlyIds _ (ack_ids handler claimed)
      (All-weaken (λ id h. inr h) (ack_ids handler claimed) (ack_ids-OneOf handler claimed))

-- A round of the reclaimer acknowledges and deletes a message only if it is one of the claimed, and
-- has no payload or was taken by the handler without an error, or if it was delivered `maxRetries`
-- times or more and that limit is positive. Messages whose handler fails or panics stay.
pub claim_stale_messages_lem :
    (handler : Bytes → HandlerOutcome) (max_retries : ℤ) (pending : Option (List Pending))
    (claimed : Option (List Message))
    → OnlyIds
        (MayGo handler max_retries pending claimed)
        (claim_stale_messages handler max_retries pending claimed)
unfolding claim_stale_messages
claim_stale_messages_lem handler max_retries pending claimed =
    All-append _ (drop_excessive_retries max_retries pending) (process_claimed handler claimed)
      (drop-MayGo handler max_retries pending claimed)
      (claimed-MayGo handler max_retries pending claimed)
