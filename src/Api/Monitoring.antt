-- ===== src/Api/Monitoring.antt =====
-- internal/api/handler.go: the endpoints for monitoring and health.
use gps_data_receiver.Prelude.{
  ℕ, ◌==◌, List, [], ◌∷◌, Option, none, some, Bool, true, false, if◌then◌else◌, length, bytes_eq,
  codes,
}
use gps_data_receiver.Parser.Data.{Bytes}
use gps_data_receiver.Tracking.{
  RequestStatus, received, queued, processing, sending, retrying, success, failed, RequestInfo,
  RequestTracker, Statistics, get_request, get_all_requests, get_requests_by_status, get_statistics,
}

pub data MonitoringAnswer : Type 0 where
  monitoring_fails : ℕ → Bytes → MonitoringAnswer
  shows_request : RequestInfo → MonitoringAnswer
  shows_requests : List RequestInfo → ℕ → MonitoringAnswer
  shows_statistics : Statistics → MonitoringAnswer

abbrev tracking_off : MonitoringAnswer
tracking_off = monitoring_fails 503 (codes "Request tracking not enabled")

abbrev status_text : RequestStatus → Bytes
status_text received = codes "received"
status_text queued = codes "queued"
status_text processing = codes "processing"
status_text sending = codes "sending"
status_text retrying = codes "retrying"
status_text success = codes "success"
status_text failed = codes "failed"

-- The requests of the status that a text names; a text that names none has none.
unfoldable pub by_text : Bytes → List RequestStatus → RequestTracker → List RequestInfo
unfolding bytes_eq get_requests_by_status
by_text text [] rt = []
by_text text (status ∷ others) rt =
    if bytes_eq text (status_text status)
    then get_requests_by_status status rt
    else by_text text others rt

unfoldable pub get_request_details : Option RequestTracker → Bytes → MonitoringAnswer
get_request_details none id = tracking_off
get_request_details (some rt) id = elim (get_request id rt) [
  | none ↦ monitoring_fails 404 (codes "Request not found")
  | some r ↦ shows_request r
]

-- `status` is the parameter of the query, empty where it is missing.
unfoldable pub list_requests : Option RequestTracker → Bytes → MonitoringAnswer
unfolding by_text get_all_requests
list_requests none status = tracking_off
list_requests (some rt) status =
    let statuses = received ∷ queued ∷ processing ∷ sending ∷ retrying ∷ success ∷ failed ∷ [] in
    let requests = if length status == 0 then get_all_requests rt else by_text status statuses rt in
    shows_requests requests (length requests)

unfoldable pub statistics_of_tracker : Option RequestTracker → MonitoringAnswer
unfolding get_statistics
statistics_of_tracker none = tracking_off
statistics_of_tracker (some rt) = shows_statistics (get_statistics rt)

pub data HealthBody : Type 0 where
  no_body : HealthBody
  healthy : HealthBody
  ready : HealthBody

-- The status and the body, by whether the method is HEAD.
unfoldable pub health : Bool → ℕ × HealthBody
health true = (200, no_body)
health false = (200, healthy)

unfoldable pub ready_to_serve : Bool → ℕ × HealthBody
ready_to_serve true = (200, no_body)
ready_to_serve false = (200, ready)
