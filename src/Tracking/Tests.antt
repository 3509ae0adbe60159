-- ===== src/Tracking/Tests.antt =====
-- internal/tracking/request_tracker.go with concrete requests.
use gps_data_receiver.Prelude.{refl, List, [], ◌∷◌, true, arith, bytes_eq}
use gps_data_receiver.Tracking.{RequestTracker, success}
use gps_data_receiver.Tracking.Size.{IsNamed, IsBounded}
use gps_data_receiver.Tracking.Runs.{
  Operation, track, set_status, clean, apply_all, apply_all-IsBounded,
}

abbrev tracker : RequestTracker
tracker = record {
  requests = [];
  max_size = 1;
  enabled = true;
  total_received = 0;
  total_queued = 0;
  total_success = 0;
  total_failed = 0;
}

abbrev operations : List Operation
operations =
    track true (b'a' ∷ []) [] 10 1
    ∷ set_status (b'a' ∷ []) success [] 2
    ∷ track true (b'b' ∷ []) [] 20 3
    ∷ clean 9
    ∷ []

tracker-IsBounded : IsBounded tracker
tracker-IsBounded = record { named = tt; fits = omega arith; roomy = omega arith }

a-IsNamed : IsNamed (b'a' ∷ [])
unfolding bytes_eq
a-IsNamed = refl

b-IsNamed : IsNamed (b'b' ∷ [])
unfolding bytes_eq
b-IsNamed = refl

apply_all-IsBounded_example : IsBounded (apply_all operations tracker)
apply_all-IsBounded_example =
    apply_all-IsBounded operations tracker (a-IsNamed, (tt, (b-IsNamed, (tt, tt))))
      tracker-IsBounded
