-- ===== src/Api/Middleware.antt =====
-- internal/api/middleware.go: what stands before the handlers, and the endpoint for reports behind it,
-- in the order of cmd/server/main.go.
pub mod Admitted
use gps_data_receiver.Prelude.{
  ℕ, ◌==◌, ◌&&◌, ◌||◌, List, [], ◌∷◌, Option, none, some, Bool, true, false, not, if◌then◌else◌,
  ltb, leb, length, bytes_eq, codes,
}
use gps_data_receiver.Prelude.Result.{Result}
use gps_data_receiver.Codec.Detect.{has_prefix}
use gps_data_receiver.Parser.Data.{Bytes}
use gps_data_receiver.Api.Ingest.{
  Request, Handler, State, Answer, panic, IngestDeed, Reception, status_of, receive_gps_data,
}

-- The method and the path, and the rest of the request.
pub record HttpRequest : Type 0 where
  pub method : Bytes
  pub path : Bytes
  pub request : Request

pub data Verdict : Type 0 where
  passes : Verdict
  aborts : ℕ → Bytes → Verdict

-- The id that the context and the response get; `uuid` is a new one.
unfoldable pub request_id_middleware : Bytes → Request → Bytes
request_id_middleware uuid req =
    let given = req.header (codes "X-Request-ID") in if length given == 0 then uuid else given

-- `allowed` is what the client's limiter answers.
unfoldable pub rate_limit_middleware : Bool → Verdict
rate_limit_middleware allowed =
    if not allowed then aborts 429 (codes "Too many requests") else passes

abbrev pub reports_path : Bytes
reports_path = codes "/api/gps/reports"

abbrev pub is_octet_stream : Bytes → Bool
is_octet_stream content_type = has_prefix content_type (codes "application/octet-stream")

abbrev is_json_or_empty : Bytes → Bool
is_json_or_empty content_type =
    bytes_eq content_type (codes "application/json") || length content_type == 0

unfoldable pub content_type_middleware : HttpRequest → Verdict
unfolding has_prefix bytes_eq
content_type_middleware r =
    let content_type = (r.request).header (codes "Content-Type") in
    if has_prefix r.path (codes "/socket.io")
    then passes
    else if bytes_eq r.method (codes "POST") || bytes_eq r.method (codes "PUT")
    then (if is_octet_stream content_type && bytes_eq r.path reports_path
        then passes
        else if not (is_json_or_empty content_type)
        then aborts 400 (codes "Content-Type must be application/json")
        else passes)
    else passes

-- The reader that fails behind `max_size` bytes.
unfoldable pub limited_body : ℕ → Option Bytes → Option Bytes
limited_body max_size none = none
limited_body max_size (some body) = if leb (length body) max_size then some body else none

abbrev pub with_limited_body : ℕ → Request → Request
with_limited_body max_size req = record req { body = limited_body max_size req.body }

-- The level at which a request is logged, by its status and whether it took longer than a second.
pub data LogLevel : Type 0 where
  warn info debug : LogLevel

unfoldable pub logging_level : ℕ → Bool → Bytes → LogLevel
unfolding has_prefix
logging_level status slow path =
    if leb 500 status
    then warn
    else if leb 400 status
    then info
    else if slow && not (has_prefix path (codes "/socket.io"))
    then info
    else debug

-- What a client gets: the status, the seconds of Retry-After and the id.
pub record Response : Type 0 where
  pub status : ℕ
  pub retry_after : Option ℕ
  pub request_id : Bytes

pub record ServedHttp : Type 0 where
  pub response : Response
  pub reception : Option Reception
  pub state : State

module _ {F : Type 0} (h : Handler F) (max_size : ℕ) (redis : Result Bytes (Bytes × ℕ)) where
  abbrev respond : Bytes → ℕ × Option ℕ → Response
  respond id (status, retry_after) = record {
    status = status;
    retry_after = retry_after;
    request_id = id;
  }

  -- A panic is a status like the others, which RecoveryMiddleware writes.
  abbrev pub handled_report : Bytes → Reception → ServedHttp
  handled_report id v = record {
    response = respond id (status_of v.answer);
    reception = some v;
    state = v.state;
  }

  abbrev pub turned_away : Bytes → ℕ → State → ServedHttp
  turned_away id status s = record {
    response = respond id (status, none);
    reception = none;
    state = s;
  }

  abbrev then_handle : Bytes → HttpRequest → State → Verdict → ServedHttp
  then_handle id r s (aborts status message) = turned_away id status s
  then_handle id r s passes =
      handled_report id (receive_gps_data h (with_limited_body max_size r.request) s redis)

  abbrev then_content_type : Bytes → HttpRequest → State → Verdict → ServedHttp
  then_content_type id r s (aborts status message) = turned_away id status s
  then_content_type id r s passes = then_handle id r s (content_type_middleware r)

  -- POST /api/gps/reports behind all middleware.
  unfoldable pub serve_report : Bool → Bytes → HttpRequest → State → ServedHttp
  unfolding request_id_middleware rate_limit_middleware content_type_middleware limited_body
      receive_gps_data status_of
  serve_report allowed uuid r s =
      then_content_type (request_id_middleware uuid r.request) r s (rate_limit_middleware allowed)
