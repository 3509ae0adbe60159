-- ===== src/Api/Ingest.antt =====
-- internal/api/handler.go: `ReceiveGPSData`, which puts a report into the queue.
pub mod Accepted
pub mod Backpressure
pub mod Tracked
use gps_data_receiver.Prelude.{
  ℕ, suc, ◌+◌, ◌-◌, ◌*◌, ◌/◌, ◌%◌, ◌^◌, ◌==◌, ◌&&◌, ◌||◌, List, [], ◌∷◌, ◌++◌, Option, none, some,
  Bool, true, false, not, if◌then◌else◌, ltb, leb, length, codes, trim_space,
}
use gps_data_receiver.Prelude.Int.{ℤ, pos, negsuc}
use gps_data_receiver.Prelude.Result.{Result, ok, err}
use gps_data_receiver.Codec.Detect.{has_prefix}
use gps_data_receiver.Parser.Data.{Bytes, ParsedGpsData}
use gps_data_receiver.Parser.Routing.{
  ParserLibrary, ParseError, Routed, accepted, rejected, crashed, parse_with_imei,
  parse_teltonika_envelope,
}
use gps_data_receiver.Tracking.{
  RequestStatus, queued, failed, RequestTracker, track_request, update_status, update_error,
}

-- The reading of the body gives bytes, or an error. `header` is the first value of a header, empty
-- when there is none. `spare` is what stands behind the body in its slice. The tracker's clock is read
-- when the request is tracked and when it is settled; `sampled` is the draw of the tracker.
pub record Request : Type 0 where
  pub body : Option Bytes
  pub spare : Bytes
  pub header : Bytes → Bytes
  pub client_ip : Bytes
  pub sampled : Bool
  pub received_at : ℕ
  pub settled_at : ℕ

pub data PrepareError : Type 0 where
  imei_required : PrepareError
  unparsable : ParseError → PrepareError
  no_records : PrepareError
  not_marshalled : PrepareError

-- What does not change: the parsers, the fields of the handler, whether the mirror and the metrics are
-- there, and the texts of errors.
pub record Handler (F : Type 0) : Type 0 where
  pub library : ParserLibrary F
  pub backpressure_limit : ℤ
  pub max_len : ℤ
  pub tz_offset : ℤ
  pub has_mirror : Bool
  pub has_metrics : Bool
  pub error_text : PrepareError → Bytes

pub record State : Type 0 where
  pub tracker : Option RequestTracker
  pub cached_depth : ℕ

pub data Answer : Type 0 where
  failed_to_read body_is_empty queue_is_full failed_to_queue : Answer
  invalid_payload : PrepareError → Answer
  queued_as : Bytes → Answer
  panic : Answer

pub data IngestDeed : Type 0 where
  enqueued : Bytes → IngestDeed
  counted : Bool → IngestDeed
  mirrored : Bytes → Bytes → Bytes → IngestDeed

pub record Reception : Type 0 where
  pub deeds : List IngestDeed
  pub answer : Answer
  pub state : State

-- The status and the seconds of Retry-After. A panic is answered by the middleware.
unfoldable pub status_of : Answer → ℕ × Option ℕ
status_of failed_to_read = (400, none)
status_of body_is_empty = (400, none)
status_of queue_is_full = (503, some 5)
status_of failed_to_queue = (503, none)
status_of (invalid_payload e) = (400, none)
status_of (queued_as id) = (200, none)
status_of panic = (500, none)

-- The 64 bits of a number.
unfoldable pub word : ℤ → ℕ
word (pos n) = n % 2 ^ 64
word (negsuc n) = 2 ^ 64 - 1 - n % 2 ^ 64

-- (n * 9) / 10 on int64, with 0 for what is not positive.
unfoldable pub nine_tenths : ℤ → ℕ
unfolding word
nine_tenths n =
    let product = word n * 9 % 2 ^ 64 in if ltb product (2 ^ 63) then product / 10 else 0

-- 0 for a limit that is not positive, which rejects nothing.
unfoldable pub limit_of : ℤ → ℤ → ℕ
unfolding nine_tenths
limit_of (pos n) max_len = if n == 0 then nine_tenths max_len else n
limit_of (negsuc n) max_len = nine_tenths max_len

unfoldable pub first_non_empty : List Bytes → Bytes
unfolding trim_space
first_non_empty [] = []
first_non_empty (v ∷ vs) =
    let later = first_non_empty vs in
    if not (length (trim_space v) == 0) then trim_space v else later

-- `tracking.GlobalTracker != nil && requestID != ""`
unfoldable pub when_tracked :
    (RequestTracker → RequestTracker) → Bytes → Option RequestTracker → Option RequestTracker
when_tracked f id none = none
when_tracked f id (some rt) = if length id == 0 then some rt else some (f rt)

abbrev pub request_id : Request → Bytes
request_id req = req.header (codes "X-Request-ID")

unfoldable pub settle :
    Request → RequestStatus → Bytes → Option RequestTracker → Option RequestTracker
unfolding when_tracked
settle req status message tracker =
    when_tracked (update_status (request_id req) status message req.settled_at) (request_id req)
      tracker

module _ {F : Type 0} (h : Handler F) where
  pub data Prepared : Type 0 where
    ready : Bytes → Prepared
    invalid : PrepareError → Prepared
    crashes : Prepared

  unfoldable pub marshalled : Option Bytes → Prepared
  marshalled none = invalid not_marshalled
  marshalled (some envelope) = ready envelope

  unfoldable pub prepare_records : Bytes → List (ParsedGpsData F) → Prepared
  unfolding marshalled
  prepare_records imei [] = invalid no_records
  prepare_records imei (r ∷ rs) = marshalled (parse_teltonika_envelope h.library imei (r ∷ rs))

  unfoldable pub prepare_parsed : Bytes → Routed F → Prepared
  unfolding prepare_records
  prepare_parsed imei (rejected e) = invalid (unparsable e)
  prepare_parsed imei (accepted r) = prepare_records imei r.records
  prepare_parsed imei crashed = crashes

  unfoldable pub prepare_body_for_queue : Request → Bytes → Prepared
  unfolding prepare_parsed
  prepare_body_for_queue req body =
      let imei = req.header (codes "X-Device-IMEI") in
      if not (has_prefix (req.header (codes "Content-Type")) (codes "application/octet-stream"))
      then ready body
      else if length imei == 0
      then invalid imei_required
      else prepare_parsed imei (parse_with_imei h.library body req.spare imei h.tz_offset)

  abbrev count_enqueue : Bool → List IngestDeed
  count_enqueue success = if h.has_metrics then counted success ∷ [] else []

  abbrev pub mirror : Request → Bytes → List IngestDeed
  mirror req raw =
      if h.has_mirror
      then mirrored raw
          (first_non_empty (
            req.header (codes "X-Device-Imei")
            ∷ req.header (codes "X-Device-IMEI")
            ∷ req.header (codes "X-Gps-Imei")
            ∷ []))
          (req.header (codes "Content-Type"))
        ∷ []
      else []

  abbrev refuse : Answer → Bytes → Request → List IngestDeed → State → Reception
  refuse answer message req deeds s = record {
    deeds = deeds;
    answer = answer;
    state = record s { tracker = settle req failed message s.tracker };
  }

  -- The reply of EnqueueWithDepth: the id of the message and the depth, or an error.
  unfoldable pub after_enqueue :
      Request → Bytes → Bytes → State → Result Bytes (Bytes × ℕ) → Reception
  unfolding settle when_tracked first_non_empty
  after_enqueue req raw body s (err e) = record {
    deeds = enqueued body ∷ count_enqueue false;
    answer = failed_to_queue;
    state = record s {
      tracker =
          when_tracked (update_error (request_id req) e) (request_id req)
            (settle req failed (codes "Failed to enqueue") s.tracker);
    };
  }
  after_enqueue req raw body s (ok (id, depth)) = record {
    deeds = enqueued body ∷ count_enqueue true ++ mirror req raw;
    answer = queued_as id;
    state = record {
      tracker = settle req queued (codes "Enqueued successfully") s.tracker;
      cached_depth = depth;
    };
  }

  abbrev pub depth_limit : ℕ
  depth_limit = limit_of h.backpressure_limit h.max_len

  unfoldable pub is_over_limit : State → Bool
  unfolding limit_of
  is_over_limit s = ltb 0 depth_limit && leb depth_limit s.cached_depth

  unfoldable pub enqueue_prepared :
      Request → Bytes → State → Result Bytes (Bytes × ℕ) → Prepared → Reception
  unfolding after_enqueue is_over_limit
  enqueue_prepared req raw s redis (invalid e) =
      refuse (invalid_payload e) (h.error_text e) req [] s
  enqueue_prepared req raw s redis crashes = record { deeds = []; answer = panic; state = s }
  enqueue_prepared req raw s redis (ready body) =
      if is_over_limit s
      then refuse queue_is_full (codes "Queue full (backpressure)") req (count_enqueue false) s
      else after_enqueue req raw body s redis

  abbrev track_body : Request → Bytes → State → State
  track_body req body s = record s {
    tracker =
        when_tracked
          (track_request req.sampled (request_id req) req.client_ip (length body) req.received_at)
          (request_id req) s.tracker;
  }

  unfoldable pub receive_body :
      Request → State → Result Bytes (Bytes × ℕ) → Option Bytes → Reception
  unfolding when_tracked settle enqueue_prepared prepare_body_for_queue
  receive_body req s redis none = record { deeds = []; answer = failed_to_read; state = s }
  receive_body req s redis (some []) =
      refuse body_is_empty (codes "Empty request body") req [] (track_body req [] s)
  receive_body req s redis (some (b ∷ bs)) =
      enqueue_prepared req (b ∷ bs) (track_body req (b ∷ bs) s) redis
        (prepare_body_for_queue req (b ∷ bs))

  -- `redis` is what EnqueueWithDepth would reply.
  unfoldable pub receive_gps_data : Request → State → Result Bytes (Bytes × ℕ) → Reception
  unfolding receive_body
  receive_gps_data req s redis = receive_body req s redis req.body
