-- ===== src/Api/Ingest/Tracked.antt =====
-- internal/api/handler.go: what the tracker knows of a report after its answer.
use gps_data_receiver.Prelude.{
  ℕ, ◌==◌, ◌≡◌, [], ◌∷◌, Option, none, some, true, false, Bool-cases, inl, inr, length,
}
use gps_data_receiver.Prelude.Result.{Result, ok, err}
use gps_data_receiver.Parser.Data.{Bytes}
use gps_data_receiver.Tracking.{
  RequestStatus, received, queued, failed, RequestTracker, update_status, update_error,
}
use gps_data_receiver.Tracking.Status.{
  Knows, track_request-Knows, update_status_queued-Knows, update_status_failed-Knows,
  update_error-Knows,
}
use gps_data_receiver.Api.Ingest.{
  Request, Handler, State, Answer, queued_as, panic, Reception, Prepared, ready, invalid, crashes,
  request_id, when_tracked, settle, is_over_limit, enqueue_prepared, after_enqueue, receive_body,
  receive_gps_data, prepare_body_for_queue, track_body,
}

abbrev pub TrackerKnows : Bytes → RequestStatus → Option RequestTracker → Type 0
TrackerKnows id status none = ⊥
TrackerKnows id status (some rt) = Knows id status rt

-- What the tracker is to say of a report with this answer.
abbrev pub expected_status : Answer → RequestStatus
expected_status (queued_as id) = queued
expected_status panic = received
expected_status _ = failed

module _ (req : Request) (named : (length (request_id req) == 0) ≡ false) where
  when_tracked-Knows :
      (f : RequestTracker → RequestTracker) (old new : RequestStatus)
      → ((rt : RequestTracker) → Knows (request_id req) old rt → Knows (request_id req) new (f rt))
      → (tracker : Option RequestTracker) → TrackerKnows (request_id req) old tracker
      → TrackerKnows (request_id req) new (when_tracked f (request_id req) tracker)
  unfolding when_tracked
  when_tracked-Knows f old new step none knows = knows
  when_tracked-Knows f old new step (some rt) knows = rw named (step rt knows)

  settle_failed-Knows :
      (message : Bytes) (old : RequestStatus) (tracker : Option RequestTracker)
      → TrackerKnows (request_id req) old tracker
      → TrackerKnows (request_id req) failed (settle req failed message tracker)
  unfolding settle
  settle_failed-Knows message old =
      when_tracked-Knows (update_status (request_id req) failed message req.settled_at) old failed
        (update_status_failed-Knows (request_id req) message req.settled_at old)

  settle_queued-Knows :
      (message : Bytes) (old : RequestStatus) (tracker : Option RequestTracker)
      → TrackerKnows (request_id req) old tracker
      → TrackerKnows (request_id req) queued (settle req queued message tracker)
  unfolding settle
  settle_queued-Knows message old =
      when_tracked-Knows (update_status (request_id req) queued message req.settled_at) old queued
        (update_status_queued-Knows (request_id req) message req.settled_at old)

  module _ {F : Type 0} (h : Handler F) where
    abbrev TellsTruth : Reception → Type 0
    TellsTruth v = TrackerKnows (request_id req) (expected_status v.answer) (v.state).tracker

    enqueue_prepared-TellsTruth :
        (raw : Bytes) (s : State) (redis : Result Bytes (Bytes × ℕ)) (p : Prepared h)
        → TrackerKnows (request_id req) received s.tracker
        → TellsTruth (enqueue_prepared h req raw s redis p)
    unfolding enqueue_prepared after_enqueue
    enqueue_prepared-TellsTruth raw s redis (invalid e) knows =
        settle_failed-Knows (h.error_text e) received s.tracker knows
    enqueue_prepared-TellsTruth raw s redis crashes knows = knows
    enqueue_prepared-TellsTruth raw s redis (ready body) knows =
        elim (Bool-cases (is_over_limit h s)) [
          | inl full ↦ rw full (settle_failed-Knows _ received s.tracker knows)
          | inr room ↦ rw room (by_reply redis)
        ]
      where
        by_reply :
            (reply : Result Bytes (Bytes × ℕ)) → TellsTruth (after_enqueue h req raw body s reply)
        by_reply (ok (id, depth)) = settle_queued-Knows _ received s.tracker knows
        by_reply (err e) =
            when_tracked-Knows (update_error (request_id req) e) failed failed
              (update_error-Knows (request_id req) e failed) _
              (settle_failed-Knows _ received s.tracker knows)

    receive_body-TellsTruth :
        (raw : Bytes) (s : State) (rt : RequestTracker) (redis : Result Bytes (Bytes × ℕ))
        → s.tracker ≡ some rt
        → rt.enabled ≡ true
        → req.sampled ≡ true
        → TellsTruth (receive_body h req s redis (some raw))
    unfolding receive_body when_tracked
    receive_body-TellsTruth [] s rt redis has on drawn = settle_failed-Knows _ received _ (
        rw (has, named, drawn)
          (track_request-Knows (request_id req) req.client_ip 0 req.received_at rt on))
    receive_body-TellsTruth (b ∷ bs) s rt redis has on drawn =
        enqueue_prepared-TellsTruth (b ∷ bs) (track_body h req (b ∷ bs) s) redis
          (prepare_body_for_queue h req (b ∷ bs))
          (rw (has, named, drawn)
            (track_request-Knows (request_id req) req.client_ip (length (b ∷ bs)) req.received_at rt
              on))

-- When the tracker is on and the draw selects the request, a report that was read and has an id is in
-- the tracker after its answer, whichever that is: as queued when it was answered with a message id,
-- as received when the parser panicked, and as failed otherwise.
pub receive_gps_data-TrackerKnows :
    {F : Type 0} (h : Handler F) (req : Request) (s : State) (redis : Result Bytes (Bytes × ℕ))
    (raw : Bytes) (rt : RequestTracker)
    → (length (request_id req) == 0) ≡ false
    → req.body ≡ some raw
    → s.tracker ≡ some rt
    → rt.enabled ≡ true
    → req.sampled ≡ true
    → TrackerKnows
        (request_id req)
        (expected_status (receive_gps_data h req s redis).answer)
        ((receive_gps_data h req s redis).state).tracker
unfolding receive_gps_data
receive_gps_data-TrackerKnows h req s redis raw rt named has tracked on drawn =
    rw has (receive_body-TellsTruth req named h raw s rt redis tracked on drawn)
