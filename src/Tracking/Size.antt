-- ===== src/Tracking/Size.antt =====
-- internal/tracking/request_tracker.go: the tracker's memory is bounded.
use gps_data_receiver.Prelude.{
  ℕ, suc, ◌≤◌, ◌<◌, ◌≡◌, refl, sym, ap, subst, ◌∙◌, List, [], ◌∷◌, some, Bool, true, false, ◌&&◌,
  ◌||◌, Bool-cases, inl, inr, ◌⊎◌, arith, leb, ltb, All, length, lookup, insert, erase, bytes_eq,
  bytes_eq→≡, bytes_eq_refl, if◌then◌else◌,
}
use gps_data_receiver.Parser.Data.{Bytes}
use gps_data_receiver.Tracking.{
  RequestInfo, RequestTracker, is_completed, oldest, evict_oldest, new_request, track_request,
}

abbrev pub Requests : Type 0
Requests = List (Bytes × RequestInfo)

abbrev pub IsNamed : Bytes → Type 0
IsNamed id = bytes_eq id [] ≡ false

module _ {ℓ} {A : Type ℓ} where
  length-insert_le :
      (id : Bytes) (v : A) (m : List (Bytes × A)) → length (insert id v m) ≤ suc (length m)
  unfolding insert
  length-insert_le id v [] = omega arith
  length-insert_le id v (e ∷ m) = elim (Bool-cases (bytes_eq id e.0)) [
    | inl same ↦ rw same (omega arith)
    | inr differ ↦ rw differ (omega (arith, length-insert_le id v m))
  ]

  pub length-insert_known :
      (id : Bytes) (v w : A) (m : List (Bytes × A))
      → lookup id m ≡ some w
      → length (insert id v m) ≡ length m
  unfolding insert lookup
  length-insert_known id v w [] known = absurd (cc known)
  length-insert_known id v w (e ∷ m) known = elim (Bool-cases (bytes_eq id e.0)) [
    | inl same ↦ rw same refl
    | inr differ ↦ rw differ (ap suc (length-insert_known id v w m (rw differ at known)))
  ]

  length-erase_known :
      (id : Bytes) (w : A) (m : List (Bytes × A))
      → lookup id m ≡ some w
      → length m ≡ suc (length (erase id m))
  unfolding erase lookup
  length-erase_known id w [] known = absurd (cc known)
  length-erase_known id w (e ∷ m) known = elim (Bool-cases (bytes_eq id e.0)) [
    | inl same ↦ rw same refl
    | inr differ ↦ rw differ (ap suc (length-erase_known id w m (rw differ at known)))
  ]

  module _ (P : Bytes → Type 0) where
    pub All-insert :
        (id : Bytes) (v : A) (m : List (Bytes × A))
        → P id
        → All (λ (e : Bytes × A). P e.0) m
        → All (λ (e : Bytes × A). P e.0) (insert id v m)
    unfolding insert
    All-insert id v [] p ps = (p, tt)
    All-insert id v (e ∷ m) p (q, ps) = elim (Bool-cases (bytes_eq id e.0)) [
      | inl same ↦ rw same (p, ps)
      | inr differ ↦ rw differ (q, All-insert id v m p ps)
    ]

    All-erase :
        (id : Bytes) (m : List (Bytes × A))
        → All (λ (e : Bytes × A). P e.0) m
        → All (λ (e : Bytes × A). P e.0) (erase id m)
    unfolding erase
    All-erase id [] ps = tt
    All-erase id (e ∷ m) (q, ps) = elim (Bool-cases (bytes_eq id e.0)) [
      | inl same ↦ rw same ps
      | inr differ ↦ rw differ (q, All-erase id m ps)
    ]

abbrev pub Named : Requests → Type 0
Named m = All (λ (e : Bytes × RequestInfo). IsNamed e.0) m

abbrev Known : Bytes → Requests → Type 0
Known id m = (r : RequestInfo) × (lookup id m ≡ some r)

Known-tail : (id : Bytes) (e : Bytes × RequestInfo) (m : Requests) → Known id m → Known id (e ∷ m)
unfolding lookup
Known-tail id e m (r, known) = elim (Bool-cases (bytes_eq id e.0)) [
  | inl same ↦ (e.1, rw same refl)
  | inr differ ↦ (r, rw differ known)
]

Known-head : (e : Bytes × RequestInfo) (m : Requests) → Known e.0 (e ∷ m)
unfolding lookup
Known-head e m = (e.1, rw (bytes_eq_refl e.0) refl)

oldest-Known :
    (counts : RequestInfo → Bool) (m : Requests) (id : Bytes) (time : ℕ)
    → ((oldest counts m id time).0 ≡ id) ⊎ Known (oldest counts m id time).0 m
unfolding oldest
oldest-Known counts [] id time = inl refl
oldest-Known counts (e ∷ m) id time =
    let better : Bool = counts e.1 && (bytes_eq id [] || ltb (e.1).received_at time) in
    elim (Bool-cases better) [
      | inl b ↦
          rw (oldest, b)
            (elim (oldest-Known counts m e.0 (e.1).received_at) [
              | inl same ↦ inr (subst (λ (x : Bytes). Known x (e ∷ m)) (sym same) (Known-head e m))
              | inr known ↦ inr (Known-tail _ e m known)
            ])
      | inr b ↦
          rw (oldest, b)
            (elim (oldest-Known counts m id time) [
              | inl same ↦ inl same
              | inr known ↦ inr (Known-tail _ e m known)
            ])
    ]

oldest-IsNamed :
    (counts : RequestInfo → Bool) (m : Requests) (id : Bytes) (time : ℕ)
    → IsNamed id
    → Named m
    → IsNamed (oldest counts m id time).0
unfolding oldest
oldest-IsNamed counts [] id time named all_named = named
oldest-IsNamed counts (e ∷ m) id time named (e_named, all_named) =
    let better : Bool = counts e.1 && (bytes_eq id [] || ltb (e.1).received_at time) in
    elim (Bool-cases better) [
      | inl b ↦ rw (oldest, b) (oldest-IsNamed counts m e.0 (e.1).received_at e_named all_named)
      | inr b ↦ rw (oldest, b) (oldest-IsNamed counts m id time named all_named)
    ]

-- A request that is there is found, if the walk starts with no id and counts them all.
oldest_all-IsNamed :
    (m : Requests) (time : ℕ) → 0 < length m → Named m → IsNamed (oldest (λ r. true) m [] time).0
unfolding oldest bytes_eq
oldest_all-IsNamed [] time some_there named = absurd (omega arith)
oldest_all-IsNamed (e ∷ m) time some_there (e_named, named) =
    oldest-IsNamed (λ r. true) m e.0 (e.1).received_at e_named named

evict_oldest-length :
    (m : Requests) → 0 < length m → Named m → length m ≡ suc (length (evict_oldest m))
unfolding evict_oldest
evict_oldest-length m some_there named =
    let done = oldest (λ r. is_completed r.status) m [] 0 in
    elim (Bool-cases (bytes_eq done.0 [])) [
      | inl nothing ↦
          let chosen = oldest (λ r. true) m done.0 done.1 in
          let id_is : done.0 ≡ [] = bytes_eq→≡ done.0 [] nothing in
          let is_named : IsNamed chosen.0 =
            ap (λ (x : Bytes). bytes_eq (oldest (λ r. true) m x done.1).0 []) id_is
            ∙ oldest_all-IsNamed m done.1 some_there named in
          rw nothing (
            rw is_named (elim (oldest-Known (λ r. true) m done.0 done.1) [
              | inl same ↦ absurd (
                  cc (
                    sym is_named
                    ∙ ap (λ (x : Bytes). bytes_eq x []) (same ∙ id_is)
                    ∙ bytes_eq_refl []))
              | inr (r, known) ↦ length-erase_known chosen.0 r m known
            ]))
      | inr is_named ↦ rw is_named (
          rw is_named (elim (oldest-Known (λ r. is_completed r.status) m [] 0) [
            | inl same ↦
                absurd
                  (cc (sym is_named ∙ ap (λ (x : Bytes). bytes_eq x []) same ∙ bytes_eq_refl []))
            | inr (r, known) ↦ length-erase_known done.0 r m known
          ]))
    ]

evict_oldest-Named : (m : Requests) → Named m → Named (evict_oldest m)
unfolding evict_oldest
evict_oldest-Named m named =
    let done = oldest (λ r. is_completed r.status) m [] 0 in
    let chosen = if bytes_eq done.0 [] then oldest (λ r. true) m done.0 done.1 else done in
    elim (Bool-cases (bytes_eq chosen.0 [])) [
      | inl nothing ↦ rw nothing named
      | inr some_there ↦ rw some_there (All-erase IsNamed chosen.0 m named)
    ]

-- Every entry has a name, and there are no more of them than the tracker is made for.
pub record IsBounded (rt : RequestTracker) : Type 0 where
  pub named : Named rt.requests
  pub fits : length rt.requests ≤ rt.max_size
  pub roomy : 0 < rt.max_size

pub track_request-IsBounded :
    (sampled : Bool) (id client_ip : Bytes) (payload_size now : ℕ) (rt : RequestTracker)
    → IsNamed id
    → IsBounded rt
    → IsBounded (track_request sampled id client_ip payload_size now rt)
unfolding track_request
track_request-IsBounded sampled id client_ip payload_size now rt is_named h =
    let r : RequestInfo = new_request id client_ip payload_size now in
    elim (Bool-cases (rt.enabled && sampled)) [
      | inr off ↦ rw off (record { named = h.named; fits = h.fits; roomy = h.roomy })
      | inl on ↦ elim (Bool-cases (leb rt.max_size (length rt.requests))) [
        | inr free ↦
            let less : length rt.requests < rt.max_size = ground arith in
            rw on (
              rw free (record {
                named = All-insert IsNamed id r rt.requests is_named h.named;
                fits = omega (arith, length-insert_le id r rt.requests, less);
                roomy = h.roomy;
              }))
        | inl full ↦
            let many : rt.max_size ≤ length rt.requests = ground arith in
            rw on (
              rw full (record {
                named =
                    All-insert IsNamed id r (evict_oldest rt.requests) is_named
                      (evict_oldest-Named rt.requests h.named);
                fits = omega (
                  arith,
                  length-insert_le id r (evict_oldest rt.requests),
                  many,
                  h.fits,
                  h.roomy,
                  evict_oldest-length rt.requests (omega (arith, many, h.roomy)) h.named,
                );
                roomy = h.roomy;
              }))
      ]
    ]
