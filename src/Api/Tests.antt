-- ===== src/Api/Tests.antt =====
-- internal/api at concrete requests.
use gps_data_receiver.Prelude.{
  take, ℕ, ◌≡◌, ◌⊎◌, refl, List, [], ◌∷◌, some, none, Bool, true, false, ltb, ◌==◌, ◌||◌, ◌&&◌, All,
  arith, codes, bytes_eq, if◌then◌else◌,
}
use gps_data_receiver.Prelude.Int.{pos}
use gps_data_receiver.Prelude.Result.{Result, ok}
use gps_data_receiver.Parser.Data.{Bytes}
use gps_data_receiver.Parser.Samples.{library, device}
use gps_data_receiver.Codec.Samples.{sample_packet}
use gps_data_receiver.Tracking.{RequestTracker}
use gps_data_receiver.Api.Ingest.{
  Handler, Request, State, request_id, receive_gps_data, depth_limit, limit_of,
}
use gps_data_receiver.Api.Ingest.Accepted.{WasQueued, WasRefused, receive_gps_data_outcome}
use gps_data_receiver.Api.Ingest.Backpressure.{Rejected, receive_all, receive_all-Rejected}
use gps_data_receiver.Api.Ingest.Tracked.{
  TrackerKnows, expected_status, receive_gps_data-TrackerKnows,
}
use gps_data_receiver.Api.Middleware.{HttpRequest, serve_report, with_limited_body}
use gps_data_receiver.Api.Middleware.Admitted.{Admits, serve_report-Admits}
use gps_data_receiver.Storage.Path.{PathPoint, PathTable, PathQueryFilter, query_path_points}
use gps_data_receiver.Storage.Path.Shown.{IsPath, query_path_points-IsPath}
use gps_data_receiver.Api.Queries.{Calendar, query_gps_path}
use gps_data_receiver.Api.Queries.Answered.{IsPathAnswer, query_gps_path-IsPathAnswer}
use gps_data_receiver.Api.RateLimiter.{
  RateLimiterEntry, Shards, new_rate_limiter, find_limiter, make_limiter,
}
use gps_data_receiver.Api.RateLimiter.Kept.{
  Section, marks, makes, cleans, shards_after, requests_share_limiter,
}

-- At most ten messages, a mirror, and the parsers of the tests.
abbrev handler : Handler ℕ
handler = record {
  library = library;
  backpressure_limit = pos 10;
  max_len = pos 50_000;
  tz_offset = pos 0;
  has_mirror = true;
  has_metrics = true;
  error_text = λ e. codes "invalid payload";
}

abbrev headers : Bytes → Bytes
headers name =
    if bytes_eq name (codes "Content-Type")
    then codes "application/octet-stream"
    else if bytes_eq name (codes "X-Device-IMEI")
    then device
    else codes "r-1"

abbrev packet_request : Request
packet_request = record {
  body = some sample_packet;
  spare = [];
  header = headers;
  client_ip = codes "10.0.0.1";
  sampled = true;
  received_at = 5;
  settled_at = 7;
}

abbrev tracker : RequestTracker
tracker = record {
  requests = [];
  max_size = 2;
  enabled = true;
  total_received = 0;
  total_queued = 0;
  total_success = 0;
  total_failed = 0;
}

abbrev state : ℕ → State
state depth = record { tracker = some tracker; cached_depth = depth }

abbrev reply : Result Bytes (Bytes × ℕ)
reply = ok (codes "1-0", 4)

receive_gps_data_outcome_example :
    WasQueued handler packet_request
      (state 3)
      reply
      (receive_gps_data handler packet_request (state 3) reply)
    ⊎ WasRefused handler packet_request
        (state 3)
        reply
        (receive_gps_data handler packet_request (state 3) reply)
receive_gps_data_outcome_example = receive_gps_data_outcome handler packet_request (state 3) reply

some_limit : depth_limit handler ≡ 10
unfolding limit_of
some_limit = refl

receive_all-Rejected_example :
    All Rejected
      (receive_all handler ((packet_request, reply) ∷ (packet_request, reply) ∷ []) (state 12))
receive_all-Rejected_example =
    receive_all-Rejected handler ((packet_request, reply) ∷ (packet_request, reply) ∷ []) (state 12)
      (omega (arith, some_limit)) (omega (arith, some_limit))

receive_gps_data-TrackerKnows_example :
    TrackerKnows
      (request_id packet_request)
      (expected_status (receive_gps_data handler packet_request (state 3) reply).answer)
      ((receive_gps_data handler packet_request (state 3) reply).state).tracker
unfolding bytes_eq
receive_gps_data-TrackerKnows_example =
    receive_gps_data-TrackerKnows handler packet_request (state 3) reply sample_packet tracker refl
      refl refl refl refl

abbrev no_shards : Shards ℕ
no_shards = new_rate_limiter

abbrev entry : ℕ → ℕ → RateLimiterEntry ℕ
entry address bucket = record { address = address; limiter = bucket; last_seen = 0 }

-- The second clean-up reaches beyond the first request, but not beyond the client's second one.
abbrev interleaved : List (Section ℕ)
interleaved =
    marks (codes "10.0.0.2") 8 101
    ∷ makes (codes "10.0.0.2") 101 (entry 8 2)
    ∷ cleans 90 46
    ∷ marks (codes "10.0.0.1") 7 800
    ∷ makes (codes "10.0.0.1") 801 (entry 9 3)
    ∷ cleans 700 46
    ∷ []

requests_share_limiter_example :
    ((e : RateLimiterEntry ℕ) × (find_limiter
          (codes "10.0.0.1")
          (shards_after (codes "10.0.0.1") 100 (entry 7 1) interleaved no_shards)
        ≡ some e)
      × (e.limiter ≡ (make_limiter (codes "10.0.0.1") 100 (entry 7 1) no_shards).1.limiter))
    × ((make_limiter
          (codes "10.0.0.1")
          810
          (entry 10 4)
          (shards_after (codes "10.0.0.1") 100 (entry 7 1) interleaved no_shards)).1.limiter
        ≡ (make_limiter (codes "10.0.0.1") 100 (entry 7 1) no_shards).1.limiter)
unfolding make_limiter bytes_eq
requests_share_limiter_example =
    requests_share_limiter (codes "10.0.0.1") 100 810 (entry 7 1) (entry 10 4) interleaved no_shards
      (omega arith, (omega arith, tt))

abbrev json_request : Request
json_request = record packet_request {
  body = some (codes "[{}]");
  header = λ name.
      if bytes_eq name (codes "Content-Type") then codes "application/json" else codes "r-1";
}

abbrev report : HttpRequest
report = record { method = codes "POST"; path = codes "/api/gps/reports"; request = json_request }

serve_report-Admits_example :
    Admits handler 1000 reply true report
      (receive_gps_data handler (with_limited_body 1000 json_request) (state 3) reply)
unfolding serve_report bytes_eq
serve_report-Admits_example =
    serve_report-Admits handler 1000 reply true (codes "r-2") report (state 3)
      (receive_gps_data handler (with_limited_body 1000 json_request) (state 3) reply) refl refl

-- Two days, 1970-01-01 and the one after it.
abbrev calendar : Calendar
calendar = record {
  parse_date = λ text. if bytes_eq text (codes "1970-01-01") then some 0 else none;
  format_date = λ time. if time == 0 then codes "1970-01-01" else codes "1970-01-02";
}

abbrev point : ℕ → ℕ → Bytes → PathPoint ℕ
point id speed time = record {
  id = id;
  imei = codes "123456789012345";
  lat = 35;
  lng = 51;
  speed = speed;
  status = 1;
  date_time = time;
}

text_less : Bytes → Bytes → Bool
text_less xs [] = false
text_less [] (y ∷ ys) = true
text_less (x ∷ xs) (y ∷ ys) = ltb x y || (x == y && text_less xs ys)

abbrev driven : PathTable ℕ
driven = record {
  answers = true;
  text_less = text_less;
  is_zero = λ speed. speed == 0;
  rows =
      record { point = point 1 30 (codes "1970-01-01 08:00:00"); has_coordinate = true }
      ∷ record { point = point 2 0 (codes "1970-01-01 08:01:00"); has_coordinate = true }
      ∷ record { point = point 3 0 (codes "1970-01-01 08:02:00"); has_coordinate = true }
      ∷ record { point = point 4 20 (codes "1970-01-01 08:03:00"); has_coordinate = true }
      ∷ record { point = point 5 20 (codes "1970-01-02 00:00:00"); has_coordinate = true }
      ∷ [];
}

abbrev path_query : Bytes → Bytes
path_query name =
    if bytes_eq name (codes "date") then codes "1970-01-01" else codes "123456789012345"

abbrev shown_points : List (PathPoint ℕ)
shown_points =
    point 1 30 (codes "1970-01-01 08:00:00")
    ∷ point 2 0 (codes "1970-01-01 08:01:00")
    ∷ point 4 20 (codes "1970-01-01 08:03:00")
    ∷ []

query_gps_path-IsPathAnswer_example :
    IsPathAnswer calendar driven path_query shown_points 3
      (codes "1970-01-01")
      (codes "123456789012345")
unfolding query_gps_path text_less bytes_eq
query_gps_path-IsPathAnswer_example =
    query_gps_path-IsPathAnswer calendar driven path_query shown_points 3 (codes "1970-01-01")
      (codes "123456789012345") refl

abbrev two_points : PathQueryFilter
two_points = record {
  date_start = codes "1970-01-01";
  date_end = codes "1970-01-02";
  imei = codes "123456789012345";
  limit = pos 2;
}

query_path_points-IsPath_example :
    IsPath driven 2
      (codes "1970-01-01")
      (codes "1970-01-02")
      (codes "123456789012345")
      (take 2 shown_points)
unfolding query_path_points text_less bytes_eq
query_path_points-IsPath_example =
    query_path_points-IsPath driven two_points (take 2 shown_points) refl
