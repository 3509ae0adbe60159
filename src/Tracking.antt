-- ===== src/Tracking.antt =====
-- internal/tracking/request_tracker.go: the record of requests for monitoring. Times are instants
-- that the caller of an operation gives, in the order of the calls of time.Now.
pub mod Size
pub mod Status
pub mod Runs
pub mod Tests
use gps_data_receiver.Prelude.{
  ℕ, suc, ◌+◌, ◌-◌, ◌==◌, ◌&&◌, ◌||◌, List, [], ◌∷◌, ◌++◌, Option, none, some, Bool, true, false,
  not, if◌then◌else◌, ltb, leb, length, map, lookup, insert, erase, bytes_eq, codes,
}
use gps_data_receiver.Parser.Data.{Bytes}

pub data RequestStatus : Type 0 where
  received queued processing sending retrying success failed : RequestStatus

pub record StatusChange : Type 0 where
  pub status : RequestStatus
  pub timestamp : ℕ
  pub message : Bytes

pub record RequestInfo : Type 0 where
  pub request_id : Bytes
  pub received_at : ℕ
  pub client_ip : Bytes
  pub payload_size : ℕ
  pub status : RequestStatus
  pub queued_at : Option ℕ
  pub processed_at : Option ℕ
  pub completed_at : Option ℕ
  pub target_server : Bytes
  pub retry_count : ℕ
  pub last_error : Bytes
  pub duration : ℕ
  pub status_history : List StatusChange

-- The order of `requests` is any order in which Go may walk the map.
pub record RequestTracker : Type 0 where
  pub requests : List (Bytes × RequestInfo)
  pub max_size : ℕ
  pub enabled : Bool
  pub total_received : ℕ
  pub total_queued : ℕ
  pub total_success : ℕ
  pub total_failed : ℕ

unfoldable pub is_completed : RequestStatus → Bool
is_completed success = true
is_completed failed = true
is_completed _ = false

-- A walk that keeps the id and the time of the oldest request that `counts`; the empty id is none.
unfoldable pub oldest : (RequestInfo → Bool) → List (Bytes × RequestInfo) → Bytes → ℕ → Bytes × ℕ
oldest counts [] id time = (id, time)
oldest counts (e ∷ es) id time =
    let better = counts (e.1) && (bytes_eq id [] || ltb (e.1).received_at time) in
    oldest counts es (if better then e.0 else id) (if better then (e.1).received_at else time)

unfoldable pub evict_oldest : List (Bytes × RequestInfo) → List (Bytes × RequestInfo)
unfolding oldest is_completed
evict_oldest requests =
    let completed = oldest (λ r. is_completed r.status) requests [] 0 in
    let chosen =
      if bytes_eq completed.0 []
      then oldest (λ r. true) requests completed.0 completed.1
      else completed in
    if not (bytes_eq chosen.0 []) then erase chosen.0 requests else requests

abbrev pub new_request : Bytes → Bytes → ℕ → ℕ → RequestInfo
new_request id client_ip payload_size now = record {
  request_id = id;
  received_at = now;
  client_ip = client_ip;
  payload_size = payload_size;
  status = received;
  queued_at = none;
  processed_at = none;
  completed_at = none;
  target_server = [];
  retry_count = 0;
  last_error = [];
  duration = 0;
  status_history =
      record { status = received; timestamp = now; message = codes "Request received" } ∷ [];
}

-- `sampled` is the answer of the random draw against the sample rate.
unfoldable pub track_request : Bool → Bytes → Bytes → ℕ → ℕ → RequestTracker → RequestTracker
unfolding evict_oldest
track_request sampled id client_ip payload_size now rt =
    let counted = record rt { total_received = suc rt.total_received } in
    let room =
      if leb rt.max_size (length rt.requests) then evict_oldest rt.requests else rt.requests in
    if not (rt.enabled && sampled)
    then counted
    else record counted { requests = insert id (new_request id client_ip payload_size now) room }

-- The lock-free counters.
count_status : RequestStatus → RequestTracker → RequestTracker
count_status queued rt = record rt { total_queued = suc rt.total_queued }
count_status success rt = record rt { total_success = suc rt.total_success }
count_status failed rt = record rt { total_failed = suc rt.total_failed }
count_status _ rt = rt

stamp : RequestStatus → ℕ → RequestInfo → RequestInfo
stamp queued now r = record r { queued_at = some now }
stamp processing now r = record r { processed_at = some now }
stamp success now r = record r { completed_at = some now; duration = now - r.received_at }
stamp failed now r = record r { completed_at = some now; duration = now - r.received_at }
stamp _ now r = r

unfoldable pub change_status : RequestStatus → Bytes → ℕ → RequestInfo → RequestInfo
unfolding stamp
change_status status message now r = stamp status now (record r {
  status = status;
  status_history =
      r.status_history ++ record { status = status; timestamp = now; message = message } ∷ [];
})

-- A write through the pointer that the map has for an id, if it has one.
change : (RequestInfo → RequestInfo) → Bytes → Option RequestInfo → RequestTracker → RequestTracker
change f id none rt = rt
change f id (some r) rt = record rt { requests = insert id (f r) rt.requests }

unfoldable pub update_request :
    (RequestInfo → RequestInfo) → Bytes → RequestTracker → RequestTracker
unfolding change
update_request f id rt = change f id (lookup id rt.requests) rt

unfoldable pub update_status : Bytes → RequestStatus → Bytes → ℕ → RequestTracker → RequestTracker
unfolding count_status update_request change_status
update_status id status message now rt =
    let counted = count_status status rt in
    if not rt.enabled then counted else update_request (change_status status message now) id counted

unfoldable pub update_target_server : Bytes → Bytes → RequestTracker → RequestTracker
unfolding update_request
update_target_server id server rt = update_request (λ r. record r { target_server = server }) id rt

unfoldable pub update_retry_count : Bytes → RequestTracker → RequestTracker
unfolding update_request
update_retry_count id rt = update_request (λ r. record r { retry_count = suc r.retry_count }) id rt

unfoldable pub update_error : Bytes → Bytes → RequestTracker → RequestTracker
unfolding update_request
update_error id message rt = update_request (λ r. record r { last_error = message }) id rt

abbrev pub get_request : Bytes → RequestTracker → Option RequestInfo
get_request id rt = lookup id rt.requests

-- Completed requests that were received before the cutoff go.
unfoldable pub remove_old : ℕ → List (Bytes × RequestInfo) → List (Bytes × RequestInfo)
unfolding is_completed
remove_old cutoff [] = []
remove_old cutoff (e ∷ es) =
    if is_completed (e.1).status && ltb (e.1).received_at cutoff
    then remove_old cutoff es
    else e ∷ remove_old cutoff es

unfoldable pub cleanup : ℕ → RequestTracker → ℕ × RequestTracker
unfolding remove_old
cleanup cutoff rt = (
  length rt.requests - length (remove_old cutoff rt.requests),
  record rt { requests = remove_old cutoff rt.requests },
)

-- The queries, on copies of the requests.
unfoldable pub get_all_requests : RequestTracker → List RequestInfo
get_all_requests rt = map (λ (e : Bytes × RequestInfo). e.1) rt.requests

abbrev status_number : RequestStatus → ℕ
status_number received = 0
status_number queued = 1
status_number processing = 2
status_number sending = 3
status_number retrying = 4
status_number success = 5
status_number failed = 6

unfoldable pub with_status : RequestStatus → List RequestInfo → List RequestInfo
with_status status [] = []
with_status status (r ∷ rs) =
    let rest = with_status status rs in
    if status_number r.status == status_number status then r ∷ rest else rest

unfoldable pub get_requests_by_status : RequestStatus → RequestTracker → List RequestInfo
unfolding get_all_requests with_status
get_requests_by_status status rt = with_status status (get_all_requests rt)

pub record Statistics : Type 0 where
  pub total_tracked : ℕ
  pub total_received : ℕ
  pub total_queued : ℕ
  pub total_success : ℕ
  pub total_failed : ℕ
  pub enabled : Bool
  pub by_status : RequestStatus → ℕ

unfoldable pub get_statistics : RequestTracker → Statistics
unfolding get_requests_by_status
get_statistics rt = record {
  total_tracked = length rt.requests;
  total_received = rt.total_received;
  total_queued = rt.total_queued;
  total_success = rt.total_success;
  total_failed = rt.total_failed;
  enabled = rt.enabled;
  by_status = λ status. length (get_requests_by_status status rt);
}
