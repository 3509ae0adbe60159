-- ===== src/Api/Middleware/Admitted.antt =====
-- internal/api: what gets into the queue through the endpoint for reports.
use gps_data_receiver.Prelude.{
  ℕ, ◌==◌, ◌≡◌, ◌≤◌, ◌⊎◌, inl, inr, refl, sym, ap, ◌∙◌, List, [], ◌∷◌, Option, none, some, Bool,
  Bool-cases, true, false, if◌then◌else◌, arith, leb, length, codes, ◌++◌, subst,
}
use gps_data_receiver.Prelude.Result.{Result}
use gps_data_receiver.Parser.Data.{Bytes, ParsedGpsData, ParseResult}
use gps_data_receiver.Parser.Routing.{
  Routed, accepted, rejected, crashed, parse_with_imei, parse_teltonika_envelope,
}
use gps_data_receiver.Api.Ingest.{
  Request, Handler, State, Reception, Prepared, ready, marshalled, prepare_records, prepare_parsed,
  prepare_body_for_queue, receive_gps_data, enqueued, counted, mirrored,
}
use gps_data_receiver.Api.Ingest.Accepted.{is_queued, receive_gps_data_outcome, bodies_enqueued}
use gps_data_receiver.Api.Middleware.{
  HttpRequest, Verdict, passes, aborts, is_octet_stream, limited_body, with_limited_body,
  content_type_middleware, rate_limit_middleware, then_handle, serve_report, request_id_middleware,
}

module _ {F : Type 0} (h : Handler F) where
  -- The body that is queued for a raw body: itself, or the envelope of the records that were parsed
  -- from it, of which there is one at least.
  abbrev pub IsPreparedFrom : Request → Bytes → Bytes → Type 0
  IsPreparedFrom req raw body =
      ((is_octet_stream (req.header (codes "Content-Type")) ≡ false) × (body ≡ raw))
      ⊎ ((r : ParsedGpsData F) × (rs : List (ParsedGpsData F)) × (result : ParseResult F)
          × (is_octet_stream (req.header (codes "Content-Type")) ≡ true)
          × (parse_with_imei h.library raw req.spare (req.header (codes "X-Device-IMEI"))
                h.tz_offset
              ≡ accepted result)
          × (result.records ≡ r ∷ rs)
          × (parse_teltonika_envelope h.library (req.header (codes "X-Device-IMEI")) (r ∷ rs)
              ≡ some body))

  ready_body : Prepared h → Option Bytes
  ready_body (ready body) = some body
  ready_body _ = none

  prepare_records-ready :
      (req : Request) (raw body imei : Bytes) (result : ParseResult F)
      (records : List (ParsedGpsData F))
      → result.records ≡ records
      → prepare_records h imei records ≡ ready body
      → (r : ParsedGpsData F) × (rs : List (ParsedGpsData F)) × (result.records ≡ r ∷ rs)
        × (parse_teltonika_envelope h.library imei (r ∷ rs) ≡ some body)
  unfolding prepare_records marshalled ready_body
  prepare_records-ready req raw body imei result [] holds e = absurd (cc e)
  prepare_records-ready req raw body imei result (r ∷ rs) holds e =
      (r, rs, holds, by_json (parse_teltonika_envelope h.library imei (r ∷ rs)) e)
    where
      by_json : (json : Option Bytes) → marshalled h json ≡ ready body → json ≡ some body
      by_json none e = absurd (cc e)
      by_json (some j) e = ap ready_body e

  prepare_parsed-ready :
      (req : Request) (raw body imei : Bytes) (routed : Routed F)
      → prepare_parsed h imei routed ≡ ready body
      → (r : ParsedGpsData F) × (rs : List (ParsedGpsData F)) × (result : ParseResult F) × (routed
          ≡ accepted result)
        × (result.records ≡ r ∷ rs)
        × (parse_teltonika_envelope h.library imei (r ∷ rs) ≡ some body)
  unfolding prepare_parsed
  prepare_parsed-ready req raw body imei (rejected e) p = absurd (cc p)
  prepare_parsed-ready req raw body imei crashed p = absurd (cc p)
  prepare_parsed-ready req raw body imei (accepted result) p =
      let (r, rs, holds, json) =
        prepare_records-ready req raw body imei result result.records refl p in
      (r, rs, result, refl, holds, json)

  prepare_body-IsPreparedFrom :
      (req : Request) (raw body : Bytes)
      → prepare_body_for_queue h req raw ≡ ready body
      → IsPreparedFrom req raw body
  unfolding prepare_body_for_queue ready_body
  prepare_body-IsPreparedFrom req raw body e =
      elim (Bool-cases (is_octet_stream (req.header (codes "Content-Type")))) [
        | inr json ↦ inl (json, sym (ap (some_or raw) (ap ready_body (rw json at e))))
        | inl binary ↦ elim (Bool-cases (length (req.header (codes "X-Device-IMEI")) == 0)) [
          | inl missing ↦ absurd (cc (rw missing at (rw binary at e)))
          | inr given ↦
              let (r, rs, result, parses, holds, json) =
                prepare_parsed-ready req raw body (req.header (codes "X-Device-IMEI"))
                  (parse_with_imei h.library raw req.spare (req.header (codes "X-Device-IMEI"))
                    h.tz_offset)
                  (rw given at (rw binary at e)) in
              inr (r, rs, result, binary, parses, holds, json)
        ]
      ]
    where
      some_or : Bytes → Option Bytes → Bytes
      some_or d none = d
      some_or d (some b) = b

limited_body-some :
    (max_size : ℕ) (body : Option Bytes) (raw : Bytes)
    → limited_body max_size body ≡ some raw
    → (body ≡ some raw) × (length raw ≤ max_size)
unfolding limited_body
limited_body-some max_size none raw e = absurd (cc e)
limited_body-some max_size (some b) raw e = elim (Bool-cases (leb (length b) max_size)) [
  | inr long ↦ absurd (cc (rw long at e))
  | inl short ↦
      let same : some b ≡ some raw = rw short at e in
      (same, (let size = ap (length_or 0) same in ground arith))
]
  where
    length_or : ℕ → Option Bytes → ℕ
    length_or d none = d
    length_or d (some b) = length b

one_enqueued :
    (metrics has_mirror : Bool) (body : Bytes) (raw imei kind : Bytes)
    → bodies_enqueued (
        enqueued body ∷ (if metrics then counted true ∷ [] else [])
        ++ (if has_mirror then mirrored raw imei kind ∷ [] else []))
      ≡ body ∷ []
one_enqueued true true body raw imei kind = refl
one_enqueued true false body raw imei kind = refl
one_enqueued false true body raw imei kind = refl
one_enqueued false false body raw imei kind = refl

module _ {F : Type 0} (h : Handler F) (max_size : ℕ) (redis : Result Bytes (Bytes × ℕ)) where
  -- What the queue got from a reception.
  abbrev pub Admits : Bool → HttpRequest → Reception → Type 0
  Admits allowed r v =
      (raw : Bytes) × (body : Bytes) × (allowed ≡ true)
      × ((r.request).body ≡ some raw)
      × (length raw ≤ max_size)
      × (content_type_middleware r ≡ passes)
      × (bodies_enqueued v.deeds ≡ body ∷ [])
      × IsPreparedFrom h r.request raw body

  reception-Admits :
      (r : HttpRequest) (s : State)
      → content_type_middleware r ≡ passes
      → is_queued (receive_gps_data h (with_limited_body max_size r.request) s redis).answer ≡ true
      → Admits true r (receive_gps_data h (with_limited_body max_size r.request) s redis)
  reception-Admits r s typed answered =
      elim (receive_gps_data_outcome h (with_limited_body max_size r.request) s redis) [
        | inr (refused, unmirrored, same, unqueued) ↦ absurd (cc (sym refused ∙ answered))
        | inl (raw, body, id, depth, has, prepared, room, reply, answer, deeds, seen) ↦
            let (given, short) = limited_body-some max_size (r.request).body raw has in
            (
              raw,
              body,
              refl,
              given,
              short,
              typed,
              ap bodies_enqueued deeds ∙ one_enqueued h.has_metrics h.has_mirror body raw _ _,
              prepare_body-IsPreparedFrom h (with_limited_body max_size r.request) raw body
                  prepared,
            )
      ]

  -- A report that is answered with a message id was let through by its client's limiter and by the
  -- check of its content type, and its body is at most as long as the configured size. One body was
  -- put into the queue for it: the body as it came, unless it was sent as an octet stream, and then
  -- the envelope of the records that ParseWithIMEI finds in it, one at least, under the IMEI of the
  -- header.
  pub serve_report-Admits :
      (allowed : Bool) (uuid : Bytes) (r : HttpRequest) (s : State) (v : Reception)
      → (serve_report h max_size redis allowed uuid r s).reception ≡ some v
      → is_queued v.answer ≡ true
      → Admits allowed r v
  unfolding serve_report rate_limit_middleware
  serve_report-Admits false uuid r s v receives answered = absurd (cc receives)
  serve_report-Admits true uuid r s v receives answered =
      by_verdict (content_type_middleware r) refl receives
    where
      reception_or : Reception → Option Reception → Reception
      reception_or d none = d
      reception_or d (some w) = w

      by_verdict :
          (verdict : Verdict)
          → content_type_middleware r ≡ verdict
          → (then_handle h max_size redis
              (request_id_middleware uuid r.request)
              r
              s
              verdict).reception
            ≡ some v
          → Admits true r v
      by_verdict (aborts status message) e receives = absurd (cc receives)
      by_verdict passes e receives =
          let v_is : receive_gps_data h (with_limited_body max_size r.request) s redis ≡ v =
            ap (reception_or v) receives in
          subst (λ (w : Reception). Admits true r w) v_is
            (reception-Admits r s e (ap (λ (w : Reception). is_queued w.answer) v_is ∙ answered))
