-- ===== src/Tracking/Status.antt =====
-- internal/tracking/request_tracker.go: the status that the tracker has for a request.
use gps_data_receiver.Prelude.{
  ℕ, ◌≡◌, refl, ◌∙◌, List, some, true, lookup, insert, lookup-insert, bytes_eq_refl,
}
use gps_data_receiver.Parser.Data.{Bytes}
use gps_data_receiver.Tracking.{
  RequestStatus, received, queued, failed, RequestInfo, RequestTracker, new_request, track_request,
  count_status, change, change_status, stamp, update_request, update_status, update_error,
  get_request,
}

-- The tracker is on and has the request with this status.
abbrev pub Knows : Bytes → RequestStatus → RequestTracker → Type 0
Knows id status rt =
    (rt.enabled ≡ true) × (r : RequestInfo) × (get_request id rt ≡ some r) × (r.status ≡ status)

lookup-insert_same :
    {A : Type 0} (id : Bytes) (v : A) (m : List (Bytes × A)) → lookup id (insert id v m) ≡ some v
lookup-insert_same id v m = lookup-insert id id v m ∙ rw (bytes_eq_refl id) refl

pub track_request-Knows :
    (id client_ip : Bytes) (size now : ℕ) (rt : RequestTracker)
    → rt.enabled ≡ true
    → Knows id received (track_request true id client_ip size now rt)
unfolding track_request
track_request-Knows id client_ip size now rt on =
    rw (track_request, on)
      (refl, new_request id client_ip size now, lookup-insert_same id _ _, refl)

pub update_status_queued-Knows :
    (id message : Bytes) (now : ℕ) (old : RequestStatus) (rt : RequestTracker)
    → Knows id old rt
    → Knows id queued (update_status id queued message now rt)
unfolding update_status count_status update_request change change_status stamp
update_status_queued-Knows id message now old rt (on, r, there, was) =
    rw (update_status, on) (rw there (refl, _, lookup-insert_same id _ rt.requests, refl))

pub update_status_failed-Knows :
    (id message : Bytes) (now : ℕ) (old : RequestStatus) (rt : RequestTracker)
    → Knows id old rt
    → Knows id failed (update_status id failed message now rt)
unfolding update_status count_status update_request change change_status stamp
update_status_failed-Knows id message now old rt (on, r, there, was) =
    rw (update_status, on) (rw there (refl, _, lookup-insert_same id _ rt.requests, refl))

pub update_error-Knows :
    (id message : Bytes) (status : RequestStatus) (rt : RequestTracker)
    → Knows id status rt
    → Knows id status (update_error id message rt)
unfolding update_error update_request change
update_error-Knows id message status rt (on, r, there, was) =
    rw there (on, _, lookup-insert_same id _ rt.requests, was)
