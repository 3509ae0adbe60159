-- ===== src/Tracking/Runs.antt =====
-- internal/tracking/request_tracker.go: any run of the tracker's operations.
use gps_data_receiver.Prelude.{
  ℕ, ◌≤◌, ◌≡◌, ap, ◌∙◌, List, [], ◌∷◌, some, Option-cases, Bool, true, false, not, ◌&&◌, Bool-cases,
  inl, inr, arith, ltb, All, length, lookup, bytes_eq, bytes_eq→≡, if◌then◌else◌,
}
use gps_data_receiver.Parser.Data.{Bytes}
use gps_data_receiver.Tracking.{
  RequestStatus, received, queued, processing, sending, retrying, success, failed, RequestInfo,
  RequestTracker, is_completed, track_request, count_status, change_status, change, update_request,
  update_status, update_target_server, update_retry_count, update_error, remove_old, cleanup,
}
use gps_data_receiver.Tracking.Size.{
  IsNamed, Named, Requests, IsBounded, length-insert_known, All-insert, track_request-IsBounded,
}

-- An operation with its arguments.
pub data Operation : Type 0 where
  track : Bool → Bytes → Bytes → ℕ → ℕ → Operation
  set_status : Bytes → RequestStatus → Bytes → ℕ → Operation
  set_target_server : Bytes → Bytes → Operation
  set_retry_count : Bytes → Operation
  set_error : Bytes → Bytes → Operation
  clean : ℕ → Operation

unfoldable pub apply : Operation → RequestTracker → RequestTracker
apply (track sampled id client_ip size now) rt = track_request sampled id client_ip size now rt
apply (set_status id status message now) rt = update_status id status message now rt
apply (set_target_server id server) rt = update_target_server id server rt
apply (set_retry_count id) rt = update_retry_count id rt
apply (set_error id message) rt = update_error id message rt
apply (clean cutoff) rt = (cleanup cutoff rt).1

unfoldable pub apply_all : List Operation → RequestTracker → RequestTracker
unfolding apply
apply_all [] rt = rt
apply_all (o ∷ os) rt = apply_all os (apply o rt)

-- A new request has a name; the other operations take any id.
abbrev pub HasName : Operation → Type 0
HasName (track sampled id client_ip size now) = IsNamed id
HasName _ = Unit

lookup-IsNamed :
    (id : Bytes) (r : RequestInfo) (m : Requests) → Named m → lookup id m ≡ some r → IsNamed id
unfolding lookup
lookup-IsNamed id r [] named known = absurd (cc known)
lookup-IsNamed id r (e ∷ m) (e_named, named) known = elim (Bool-cases (bytes_eq id e.0)) [
  | inl same ↦ ap (λ (x : Bytes). bytes_eq x []) (bytes_eq→≡ id e.0 same) ∙ e_named
  | inr differ ↦ lookup-IsNamed id r m named (rw differ at known)
]

update_request-IsBounded :
    (f : RequestInfo → RequestInfo) (id : Bytes) (rt : RequestTracker)
    → IsBounded rt
    → IsBounded (update_request f id rt)
unfolding update_request change
update_request-IsBounded f id rt h = elim (Option-cases (lookup id rt.requests)) [
  | inl absent ↦ rw absent h
  | inr (r, known) ↦ rw known (record {
    named =
        All-insert IsNamed id (f r) rt.requests (lookup-IsNamed id r rt.requests h.named known)
          h.named;
    fits = omega (arith, length-insert_known id (f r) r rt.requests known, h.fits);
    roomy = h.roomy;
  })
]

count_status-IsBounded :
    (status : RequestStatus) (rt : RequestTracker)
    → IsBounded rt
    → IsBounded (count_status status rt)
unfolding count_status
count_status-IsBounded received rt h = h
count_status-IsBounded queued rt h = record { named = h.named; fits = h.fits; roomy = h.roomy }
count_status-IsBounded processing rt h = h
count_status-IsBounded sending rt h = h
count_status-IsBounded retrying rt h = h
count_status-IsBounded success rt h = record { named = h.named; fits = h.fits; roomy = h.roomy }
count_status-IsBounded failed rt h = record { named = h.named; fits = h.fits; roomy = h.roomy }

remove_old-smaller :
    (cutoff : ℕ) (m : Requests)
    → Named m
    → Named (remove_old cutoff m) × (length (remove_old cutoff m) ≤ length m)
unfolding remove_old
remove_old-smaller cutoff [] named = (tt, omega arith)
remove_old-smaller cutoff (e ∷ m) (e_named, named) =
    let (rest, less) = remove_old-smaller cutoff m named in
    elim (Bool-cases (is_completed (e.1).status && ltb (e.1).received_at cutoff)) [
      | inl old ↦ rw (remove_old, old) (rest, omega (arith, less))
      | inr new ↦ rw (remove_old, new) ((e_named, rest), omega (arith, less))
    ]

if-IsBounded :
    (b : Bool) (rt rt' : RequestTracker)
    → IsBounded rt
    → IsBounded rt'
    → IsBounded (if b then rt else rt')
if-IsBounded true rt rt' h h' = h
if-IsBounded false rt rt' h h' = h'

apply-IsBounded :
    (o : Operation) (rt : RequestTracker) → HasName o → IsBounded rt → IsBounded (apply o rt)
unfolding apply update_status update_target_server update_retry_count update_error cleanup
apply-IsBounded (track sampled id client_ip size now) rt named h =
    track_request-IsBounded sampled id client_ip size now rt named h
apply-IsBounded (set_status id status message now) rt named h =
    let counted = count_status-IsBounded status rt h in
    if-IsBounded (not rt.enabled) (count_status status rt) _ counted (
      update_request-IsBounded (change_status status message now) id (count_status status rt)
        counted)
apply-IsBounded (set_target_server id server) rt named h = update_request-IsBounded _ id rt h
apply-IsBounded (set_retry_count id) rt named h = update_request-IsBounded _ id rt h
apply-IsBounded (set_error id message) rt named h = update_request-IsBounded _ id rt h
apply-IsBounded (clean cutoff) rt named h =
    let (rest, less) = remove_old-smaller cutoff rt.requests h.named in
    record { named = rest; fits = omega (arith, less, h.fits); roomy = h.roomy }

-- Whatever operations run, in whatever order, the tracker keeps its bounds if its limit is not zero
-- and every new request has an id: never more requests than the limit, and none without an id.
pub apply_all-IsBounded :
    (os : List Operation) (rt : RequestTracker)
    → All HasName os
    → IsBounded rt
    → IsBounded (apply_all os rt)
unfolding apply_all
apply_all-IsBounded [] rt named h = h
apply_all-IsBounded (o ∷ os) rt (name, named) h =
    apply_all-IsBounded os (apply o rt) named (apply-IsBounded o rt name h)
