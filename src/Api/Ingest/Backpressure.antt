-- ===== src/Api/Ingest/Backpressure.antt =====
-- internal/api/handler.go: the depth of the queue that the handler remembers.
use gps_data_receiver.Prelude.{
  ℕ, Option, none, some, ◌≡◌, ◌<◌, ◌≤◌, refl, List, [], ◌∷◌, true, false, All, arith,
}
use gps_data_receiver.Prelude.Result.{Result}
use gps_data_receiver.Parser.Data.{Bytes}
use gps_data_receiver.Api.Ingest.{
  Request, Handler, State, Reception, depth_limit, is_over_limit, enqueue_prepared, receive_body,
  receive_gps_data, Prepared, ready, invalid, crashes,
}
use gps_data_receiver.Api.Ingest.Accepted.{is_queued, bodies_enqueued, nothing_enqueued}

-- Requests one after the other, each with what Redis would reply.
unfoldable pub receive_all :
    {F : Type 0} → Handler F → List (Request × Result Bytes (Bytes × ℕ)) → State → List Reception
unfolding receive_gps_data
receive_all h [] s = []
receive_all h (r ∷ rs) s = let v = receive_gps_data h r.0 s r.1 in v ∷ receive_all h rs v.state

abbrev pub Rejected : Reception → Type 0
Rejected v = (is_queued v.answer ≡ false) × (bodies_enqueued v.deeds ≡ [])

module _ {F : Type 0} (h : Handler F) where
  abbrev Stuck : State → Reception → Type 0
  Stuck s v = Rejected v × ((v.state).cached_depth ≡ s.cached_depth)

  enqueue_prepared-Stuck :
      (req : Request) (raw : Bytes) (s : State) (redis : Result Bytes (Bytes × ℕ)) (p : Prepared h)
      → is_over_limit h s ≡ true
      → Stuck s (enqueue_prepared h req raw s redis p)
  unfolding enqueue_prepared
  enqueue_prepared-Stuck req raw s redis (invalid e) full = ((refl, refl), refl)
  enqueue_prepared-Stuck req raw s redis crashes full = ((refl, refl), refl)
  enqueue_prepared-Stuck req raw s redis (ready body) full =
      rw full ((refl, nothing_enqueued h.has_metrics), refl)

  receive_body-Stuck :
      (req : Request) (s : State) (redis : Result Bytes (Bytes × ℕ)) (body : Option Bytes)
      → is_over_limit h s ≡ true
      → Stuck s (receive_body h req s redis body)
  unfolding receive_body is_over_limit
  receive_body-Stuck req s redis none full = ((refl, refl), refl)
  receive_body-Stuck req s redis (some []) full = ((refl, refl), refl)
  receive_body-Stuck req s redis (some (b ∷ bs)) full =
      enqueue_prepared-Stuck req (b ∷ bs) _ redis _ full

  -- Once the depth that the handler remembers has reached the limit, the handler rejects every later
  -- report, however many come and whatever room Redis has made since: it puts nothing into the queue,
  -- so it never learns a new depth.
  pub receive_all-Rejected :
      (requests : List (Request × Result Bytes (Bytes × ℕ))) (s : State)
      → 0 < depth_limit h
      → depth_limit h ≤ s.cached_depth
      → All Rejected (receive_all h requests s)
  unfolding receive_all receive_gps_data is_over_limit
  receive_all-Rejected [] s some_limit reached = tt
  receive_all-Rejected ((req, redis) ∷ requests) s some_limit reached =
      let full : is_over_limit h s ≡ true = unfold is_over_limit in ground arith in
      let (rejected, same) = receive_body-Stuck req s redis req.body full in
      (
        rejected,
        receive_all-Rejected requests (receive_gps_data h req s redis).state some_limit
            (omega (arith, same)),
      )
