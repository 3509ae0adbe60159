-- ===== src/Api/Ingest/Accepted.antt =====
-- internal/api/handler.go: what a report's answer says of the queue and of the mirror.
use gps_data_receiver.Prelude.{
  ℕ, ◌≡◌, ◌⊎◌, inl, inr, refl, List, [], ◌∷◌, ◌++◌, Option, none, some, Bool, true, false,
  Bool-cases, if◌then◌else◌,
}
use gps_data_receiver.Prelude.Result.{Result, ok, err}
use gps_data_receiver.Parser.Data.{Bytes}
use gps_data_receiver.Api.Ingest.{
  Request, Handler, State, Answer, queued_as, IngestDeed, enqueued, counted, mirrored, Reception,
  Prepared, ready, invalid, crashes, prepare_body_for_queue, mirror, count_enqueue, is_over_limit,
  enqueue_prepared, after_enqueue, receive_body, receive_gps_data,
}

abbrev pub is_queued : Answer → Bool
is_queued (queued_as id) = true
is_queued _ = false

abbrev pub bodies_enqueued : List IngestDeed → List Bytes
bodies_enqueued [] = []
bodies_enqueued (enqueued body ∷ ds) = body ∷ bodies_enqueued ds
bodies_enqueued (counted b ∷ ds) = bodies_enqueued ds
bodies_enqueued (mirrored raw imei kind ∷ ds) = bodies_enqueued ds

abbrev pub bodies_mirrored : List IngestDeed → List Bytes
bodies_mirrored [] = []
bodies_mirrored (mirrored raw imei kind ∷ ds) = raw ∷ bodies_mirrored ds
bodies_mirrored (counted b ∷ ds) = bodies_mirrored ds
bodies_mirrored (enqueued body ∷ ds) = bodies_mirrored ds

module _ {F : Type 0} (h : Handler F) (req : Request) (s : State)
    (redis : Result Bytes (Bytes × ℕ)) where
  -- The request was read, prepared and admitted, and Redis took it.
  abbrev pub WasQueued : Reception → Type 0
  WasQueued v =
      (raw : Bytes) × (body : Bytes) × (id : Bytes) × (depth : ℕ) × (req.body ≡ some raw)
      × (prepare_body_for_queue h req raw ≡ ready body)
      × (is_over_limit h s ≡ false)
      × (redis ≡ ok (id, depth))
      × (v.answer ≡ queued_as id)
      × (v.deeds ≡ enqueued body ∷ count_enqueue h true ++ mirror h req raw)
      × ((v.state).cached_depth ≡ depth)

  -- Nothing is in the queue because of it, nothing is mirrored, and the depth is as before.
  abbrev pub WasRefused : Reception → Type 0
  WasRefused v =
      (is_queued v.answer ≡ false)
      × (bodies_mirrored v.deeds ≡ [])
      × ((v.state).cached_depth ≡ s.cached_depth)
      × ((bodies_enqueued v.deeds ≡ []) ⊎ ((e : Bytes) × (redis ≡ err e)))

abbrev pub counted_only : Bool → Bool → List IngestDeed
counted_only metrics success = if metrics then counted success ∷ [] else []

nothing_mirrored : (metrics : Bool) → bodies_mirrored (counted_only metrics false) ≡ []
nothing_mirrored true = refl
nothing_mirrored false = refl

pub nothing_enqueued : (metrics : Bool) → bodies_enqueued (counted_only metrics false) ≡ []
nothing_enqueued true = refl
nothing_enqueued false = refl

module _ {F : Type 0} (h : Handler F) (req : Request) (s : State) (raw : Bytes) where
  enqueue_prepared_outcome :
      (t : State) (redis : Result Bytes (Bytes × ℕ)) (p : Prepared h)
      → t.cached_depth ≡ s.cached_depth
      → req.body ≡ some raw
      → prepare_body_for_queue h req raw ≡ p
      → WasQueued h req s redis (enqueue_prepared h req raw t redis p)
        ⊎ WasRefused h req s redis (enqueue_prepared h req raw t redis p)
  unfolding enqueue_prepared after_enqueue is_over_limit
  enqueue_prepared_outcome t redis (invalid e) same has p_is = inr (refl, refl, same, inl refl)
  enqueue_prepared_outcome t redis crashes same has p_is = inr (refl, refl, same, inl refl)
  enqueue_prepared_outcome t redis (ready body) same has p_is =
      elim (Bool-cases (is_over_limit h t)) [
        | inl full ↦
            rw full (
              inr
                (refl, nothing_mirrored h.has_metrics, same, inl (nothing_enqueued h.has_metrics)))
        | inr room ↦ rw room (by_reply redis refl (rw same at room))
      ]
    where
      by_reply :
          (reply : Result Bytes (Bytes × ℕ))
          → redis ≡ reply
          → is_over_limit h s ≡ false
          → WasQueued h req s redis (after_enqueue h req raw body t reply)
            ⊎ WasRefused h req s redis (after_enqueue h req raw body t reply)
      by_reply (ok (id, depth)) e room =
          inl (raw, body, id, depth, has, p_is, room, e, refl, refl, refl)
      by_reply (err e) r room = inr (refl, nothing_mirrored h.has_metrics, same, inr (e, r))

module _ {F : Type 0} (h : Handler F) (req : Request) (s : State)
    (redis : Result Bytes (Bytes × ℕ)) where
  receive_body_outcome :
      (body : Option Bytes)
      → req.body ≡ body
      → WasQueued h req s redis (receive_body h req s redis body)
        ⊎ WasRefused h req s redis (receive_body h req s redis body)
  unfolding receive_body
  receive_body_outcome none e = inr (refl, refl, refl, inl refl)
  receive_body_outcome (some []) e = inr (refl, refl, refl, inl refl)
  receive_body_outcome (some (b ∷ bs)) e =
      enqueue_prepared_outcome h req s (b ∷ bs) _ redis (prepare_body_for_queue h req (b ∷ bs)) refl
        e refl

  -- A report is answered with 200 and its message id only when it was read, its body could be
  -- prepared, the depth that was last seen is under the limit and Redis took the prepared body; just
  -- then the original body goes to the mirror, once, and the depth is remembered. Every other answer
  -- leaves the mirror and the depth alone, and nothing is put into the queue unless Redis reports an
  -- error for it.
  pub receive_gps_data_outcome :
      WasQueued h req s redis (receive_gps_data h req s redis)
      ⊎ WasRefused h req s redis (receive_gps_data h req s redis)
  unfolding receive_gps_data
  receive_gps_data_outcome = receive_body_outcome req.body refl
