-- ===== src/Queue/Handler/Delivery.antt =====
-- cmd/server/main.go: what the answer of `messageHandler` to the queue means.
use gps_data_receiver.Prelude.{
  ℕ, ◌≡◌, ◌⊎◌, inl, inr, refl, List, [], ◌∷◌, ◌++◌, Option, none, some, Option-cases, true, All,
  if◌then◌else◌,
}
use gps_data_receiver.Prelude.Result.{ok}
use gps_data_receiver.Codec.Detect.{detect_format}
use gps_data_receiver.Parser.Data.{Bytes, ParsedGpsData, ParseResult}
use gps_data_receiver.Filter.{StoppageFilter, filter_data}
use gps_data_receiver.Filter.Redelivery.{IsStoppage, filter_data_twice}
use gps_data_receiver.Sender.Reply.{Outcome, delivered, rate_limited, failed, SendError}
use gps_data_receiver.Sender.Http.{HttpSender, World, SendFailure, SendResult, Sent, Attempt, send}
use gps_data_receiver.Sender.Http.Attempts.{Tells, send-Truthful}
use gps_data_receiver.Queue.Handler.{
  Services, Deed, Handled, stored_invalid, mirrored_parsed, sent, stored_failed, stored_success,
  with_message, conclude, when_stored, readable, enqueue_invalid, send_payload, send_filtered,
  handle_records, handle_parsed, message_handler,
}

-- One of the attempts delivered these bytes.
unfoldable pub IsDelivered : Bytes → List Attempt → Type 0
IsDelivered json [] = ⊥
IsDelivered json (a ∷ attempts) =
    ((a.outcome ≡ delivered) × (a.body ≡ json)) ⊎ IsDelivered json attempts

Outcome-cases :
    (o : Outcome)
    → (o ≡ delivered)
      ⊎ (((delay : ℕ) × (o ≡ rate_limited delay)) ⊎ ((e : SendError) × (o ≡ failed e)))
Outcome-cases delivered = inl refl
Outcome-cases (rate_limited delay) = inr (inl (delay, refl))
Outcome-cases (failed e) = inr (inr (e, refl))

Tells-IsDelivered :
    (w : World) (max : ℕ) (attempts : List Attempt) (r : SendResult)
    → Tells w max attempts r
    → r.error ≡ none
    → IsDelivered w.message attempts
unfolding Tells IsDelivered
Tells-IsDelivered w max [] r tells fine = tells fine
Tells-IsDelivered w max (a ∷ attempts) r tells fine = elim (Outcome-cases a.outcome) [
  | inl done ↦ inl (done, (rw (Tells, done) at tells).1)
  | inr (inl (delay, limits)) ↦
      inr (Tells-IsDelivered w max attempts r (rw (Tells, limits) at tells) fine)
  | inr (inr (e, fails)) ↦
      inr (Tells-IsDelivered w max attempts r (rw (Tells, fails) at tells) fine)
]

module _ {F : Type 0} where
  -- A call of `Send` with these bytes stands among the deeds, and one of its attempts delivered them.
  unfoldable pub Delivers : Bytes → List (Deed F) → Type 0
  Delivers json [] = ⊥
  Delivers json (sent payload delivery ∷ deeds) =
      ((payload ≡ json) × IsDelivered json delivery.attempts) ⊎ Delivers json deeds
  Delivers json (stored_invalid rs ∷ deeds) = Delivers json deeds
  Delivers json (mirrored_parsed payload ∷ deeds) = Delivers json deeds
  Delivers json (stored_failed rs server ∷ deeds) = Delivers json deeds
  Delivers json (stored_success rs ∷ deeds) = Delivers json deeds

  Delivers-append_right :
      (json : Bytes) (ds es : List (Deed F)) → Delivers json es → Delivers json (ds ++ es)
  unfolding Delivers
  Delivers-append_right json [] es h = h
  Delivers-append_right json (sent payload delivery ∷ ds) es h =
      inr (Delivers-append_right json ds es h)
  Delivers-append_right json (stored_invalid rs ∷ ds) es h = Delivers-append_right json ds es h
  Delivers-append_right json (mirrored_parsed payload ∷ ds) es h =
      Delivers-append_right json ds es h
  Delivers-append_right json (stored_failed rs server ∷ ds) es h =
      Delivers-append_right json ds es h
  Delivers-append_right json (stored_success rs ∷ ds) es h = Delivers-append_right json ds es h

  Delivers-append_left :
      (json : Bytes) (ds es : List (Deed F)) → Delivers json ds → Delivers json (ds ++ es)
  unfolding Delivers
  Delivers-append_left json [] es h = elim h [ ]
  Delivers-append_left json (sent payload delivery ∷ ds) es (inl here) = inl here
  Delivers-append_left json (sent payload delivery ∷ ds) es (inr later) =
      inr (Delivers-append_left json ds es later)
  Delivers-append_left json (stored_invalid rs ∷ ds) es h = Delivers-append_left json ds es h
  Delivers-append_left json (mirrored_parsed payload ∷ ds) es h = Delivers-append_left json ds es h
  Delivers-append_left json (stored_failed rs server ∷ ds) es h = Delivers-append_left json ds es h
  Delivers-append_left json (stored_success rs ∷ ds) es h = Delivers-append_left json ds es h

module _ {F : Type 0} (services : Services F) (w : World) (sender : HttpSender) where
  filter-send_payload :
      (o : Option Bytes) (records : List (ParsedGpsData F)) (deeds : List (Deed F))
      (sf : StoppageFilter)
      → (send_payload services w sender o records deeds sf).filter ≡ sf
  unfolding send_payload
  filter-send_payload none records deeds sf = refl
  filter-send_payload (some payload) records deeds sf =
      elim (Option-cases (send (with_message payload w) sender).result.error) [
        | inl fine ↦ rw fine refl
        | inr (e, bad) ↦ rw bad refl
      ]

  filter-send_filtered :
      (records : List (ParsedGpsData F)) (deeds : List (Deed F)) (sf : StoppageFilter)
      → (send_filtered services w sender records deeds sf).filter ≡ sf
  unfolding send_filtered
  filter-send_filtered [] deeds sf = refl
  filter-send_filtered (r ∷ rs) deeds sf =
      filter-send_payload (services.marshal (r ∷ rs)) (r ∷ rs) deeds sf

  send_filtered_nothing :
      (records : List (ParsedGpsData F)) (deeds : List (Deed F)) (sf : StoppageFilter)
      → records ≡ []
      → ((send_filtered services w sender records deeds sf).error ≡ none)
        × ((send_filtered services w sender records deeds sf).deeds ≡ deeds)
  unfolding send_filtered
  send_filtered_nothing [] deeds sf empty = (refl, refl)
  send_filtered_nothing (r ∷ rs) deeds sf empty = absurd (cc empty)

  -- A message whose records all are stoppages is acknowledged when it comes a second time and the
  -- filter is enabled, and nothing of it is sent then, even if the first time it failed: a message
  -- that could not be sent is lost, not delivered later.
  pub message_handler_loses_stoppages :
      (payload : Bytes) (r : ParseResult F) (p : ParsedGpsData F) (ps : List (ParsedGpsData F))
      (sf : StoppageFilter)
      → services.parse (readable services w sender (detect_format payload) payload) ≡ ok r
      → r.records ≡ p ∷ ps
      → All IsStoppage (p ∷ ps)
      → sf.enabled ≡ true
      → let again : Handled F =
          message_handler services w sender payload
            (message_handler services w sender payload sf).filter in
        (again.error ≡ none) × (again.deeds ≡ enqueue_invalid services w sender r.invalid)
  unfolding message_handler handle_parsed handle_records
  message_handler_loses_stoppages payload r p ps sf reads records stops on =
      let seen = filter_data services.sum32 (p ∷ ps) sf in
      let invalid : List (Deed F) = enqueue_invalid services w sender r.invalid in
      let state : (send_filtered services w sender seen.0 invalid seen.1).filter ≡ seen.1 =
        filter-send_filtered seen.0 invalid seen.1 in
      rw reads (
        rw records (
          rw state (
            send_filtered_nothing _ invalid _
              (filter_data_twice services.sum32 (p ∷ ps) sf on stops))))

  send_payload-Delivers :
      (payload : Bytes) (records : List (ParsedGpsData F)) (deeds : List (Deed F))
      (sf : StoppageFilter)
      → (send_payload services w sender (some payload) records deeds sf).error ≡ none
      → Delivers payload (send_payload services w sender (some payload) records deeds sf).deeds
  unfolding send_payload Delivers
  send_payload-Delivers payload records deeds sf acked =
      by_error (send (with_message payload w) sender).result.error refl acked
    where
      deeds_of : Sent → List (Deed F)
      deeds_of delivery =
          (if services.has_mirror then mirrored_parsed payload ∷ [] else [])
          ++ sent payload delivery ∷ []

      by_error :
          (e : Option SendFailure)
          → (send (with_message payload w) sender).result.error ≡ e
          → (conclude services w sender e
              (send (with_message payload w) sender).result
              records
              (deeds ++ deeds_of (send (with_message payload w) sender))
              sf).error
            ≡ none
          → Delivers {F = F} payload
              (conclude services w sender e
                (send (with_message payload w) sender).result
                records
                (deeds ++ deeds_of (send (with_message payload w) sender))
                sf).deeds
      by_error (some e) bad acked = absurd (cc acked)
      by_error none fine acked =
          let delivery : Sent = send (with_message payload w) sender in
          let done : IsDelivered payload delivery.attempts =
            Tells-IsDelivered (with_message payload w) sender.max_attempts delivery.attempts
              delivery.result ((send-Truthful (with_message payload w) sender).tells) fine in
          let own : Delivers {F = F} payload (sent payload delivery ∷ []) = inl (refl, done) in
          Delivers-append_left payload (deeds ++ deeds_of delivery)
            (when_stored services w sender services.has_store (stored_success records))
            (Delivers-append_right payload deeds (deeds_of delivery) (
              Delivers-append_right payload
                (if services.has_mirror then mirrored_parsed payload ∷ [] else [])
                (sent payload delivery ∷ []) own))

  -- When the handler has a message acknowledged of which the filter keeps records, either the JSON of
  -- those records could not be made, and then the message is dropped with nothing done but the storing
  -- of its invalid records; or that JSON is what a call of `Send` was given, and one of the call's
  -- attempts delivered it.
  pub message_handler-Delivers :
      (payload : Bytes) (r : ParseResult F) (p f : ParsedGpsData F) (ps fs : List (ParsedGpsData F))
      (sf : StoppageFilter)
      → services.parse (readable services w sender (detect_format payload) payload) ≡ ok r
      → r.records ≡ p ∷ ps
      → (filter_data services.sum32 (p ∷ ps) sf).0 ≡ f ∷ fs
      → (message_handler services w sender payload sf).error ≡ none
      → ((services.marshal (f ∷ fs) ≡ none)
          × ((message_handler services w sender payload sf).deeds
              ≡ enqueue_invalid services w sender r.invalid))
        ⊎ ((json : Bytes) × (services.marshal (f ∷ fs) ≡ some json)
            × Delivers json (message_handler services w sender payload sf).deeds)
  unfolding message_handler handle_parsed handle_records send_filtered send_payload
  message_handler-Delivers payload r p f ps fs sf reads records keeps acked =
      elim (Option-cases (services.marshal (f ∷ fs))) [
        | inl fails ↦ inl (fails, rw (reads, records, keeps, fails) refl)
        | inr (json, encodes) ↦ inr (
          json,
          encodes,
          rw (reads, records, keeps, encodes)
              (send_payload-Delivers json (f ∷ fs) (enqueue_invalid services w sender r.invalid)
                (filter_data services.sum32 (p ∷ ps) sf).1
                (rw (reads, records, keeps, encodes) at acked)),
        )
      ]
