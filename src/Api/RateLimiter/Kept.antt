-- ===== src/Api/RateLimiter/Kept.antt =====
-- internal/api/middleware.go: requests of one client share one limiter, however they interleave.
use gps_data_receiver.Prelude.{
  ℕ, ◌≡◌, ◌≤◌, ◌<◌, ◌%◌, refl, ap, ◌∙◌, subst, List, [], ◌∷◌, Option, none, some, Bool, true, false,
  Bool-cases, inl, inr, ◌==◌, ◌&&◌, if◌then◌else◌, ==_iff, ltb, arith, bytes_eq, lookup, insert,
  lookup-insert, bytes_eq→≡, bytes_eq_refl,
}
use gps_data_receiver.Prelude.Bits.{bit_and_mask}
use gps_data_receiver.Parser.Data.{Bytes}
use gps_data_receiver.Api.RateLimiter.{
  RateLimiterEntry, RateLimiterShard, Shards, fnv, get_shard, limiter_shard_count,
  update_limiter_shard, touch, touch_if, mark_found, find_limiter, mark_seen, add_limiter,
  make_limiter, evict_before, clean_shard,
}

-- The index of a shard is in range, the hash modulo the number of shards.
pub get_shard_mod :
    (ip : Bytes)
    → (get_shard ip ≡ fnv 2166136261 ip % limiter_shard_count)
      × (get_shard ip < limiter_shard_count)
unfolding get_shard
get_shard_mod ip =
    let masked = bit_and_mask 8 (fnv 2166136261 ip) 255 refl in (masked, omega (arith, masked))

-- A step of a goroutine that changes the map or an entry of it: the mark on an entry that was read, by
-- its address; the part of a request under the lock, with its new entry; the clean-up of a shard.
pub data Section (A : Type 0) : Type 0 where
  marks : Bytes → ℕ → ℕ → Section A
  makes : Bytes → ℕ → RateLimiterEntry A → Section A
  cleans : ℕ → ℕ → Section A

module _ {A : Type 0} where
  unfoldable pub perform : Section A → Shards A → Shards A
  unfolding mark_seen make_limiter
  perform (marks ip address now) shards = mark_seen ip address now shards
  perform (makes ip now fresh) shards = (make_limiter ip now fresh shards).0
  perform (cleans cutoff i) shards = clean_shard cutoff i shards

  unfoldable pub perform_all : List (Section A) → Shards A → Shards A
  unfolding perform
  perform_all [] shards = shards
  perform_all (s ∷ ss) shards = perform_all ss (perform s shards)

  -- When the client with the entry at this address was last seen, if that was at the time t before.
  abbrev pub seen_after : Bytes → ℕ → ℕ → Section A → ℕ
  seen_after ip address t (marks other b now) = if bytes_eq ip other && address == b then now else t
  seen_after ip address t (makes other now fresh) = if bytes_eq ip other then now else t
  seen_after ip address t (cleans cutoff i) = t

  -- No clean-up reaches beyond the client's last request before it.
  abbrev pub IsActive : Bytes → ℕ → ℕ → List (Section A) → Type 0
  IsActive ip address t [] = Unit
  IsActive ip address t (cleans cutoff i ∷ ss) = (cutoff ≤ t) × IsActive ip address t ss
  IsActive ip address t (marks other b now ∷ ss) =
      IsActive ip address (seen_after ip address t (marks other b now)) ss
  IsActive ip address t (makes other now fresh ∷ ss) =
      IsActive ip address (seen_after ip address t (makes other now fresh)) ss

  -- The client has this limiter in the entry at this address, seen at the time t.
  abbrev pub Has : Bytes → ℕ → A → ℕ → Shards A → Type 0
  Has ip address l t shards =
      (e : RateLimiterEntry A) × (lookup ip (shards (get_shard ip)) ≡ some e)
      × (e.address ≡ address)
      × (e.limiter ≡ l)
      × (e.last_seen ≡ t)

  lookup-update :
      (ip other : Bytes) (e : RateLimiterEntry A) (shards : Shards A)
      → bytes_eq ip other ≡ false
      → lookup ip (update_limiter_shard (get_shard other) (insert other e) shards (get_shard ip))
        ≡ lookup ip (shards (get_shard ip))
  lookup-update ip other e shards differ = elim (Bool-cases (get_shard ip == get_shard other)) [
    | inl here ↦ rw here (lookup-insert ip other e (shards (get_shard ip)) ∙ rw differ refl)
    | inr elsewhere ↦ rw elsewhere refl
  ]

  lookup-update_same :
      (ip : Bytes) (e : RateLimiterEntry A) (shards : Shards A)
      → lookup ip (update_limiter_shard (get_shard ip) (insert ip e) shards (get_shard ip)) ≡ some e
  lookup-update_same ip e shards =
      rw ((==_iff (get_shard ip) (get_shard ip)).1 refl)
        (lookup-insert ip ip e (shards (get_shard ip)) ∙ rw (bytes_eq_refl ip) refl)

  lookup-evict_before :
      (ip : Bytes) (cutoff : ℕ) (e : RateLimiterEntry A) (m : RateLimiterShard A)
      → lookup ip m ≡ some e
      → cutoff ≤ e.last_seen
      → lookup ip (evict_before cutoff m) ≡ some e
  unfolding evict_before lookup
  lookup-evict_before ip cutoff e [] there seen = absurd (cc there)
  lookup-evict_before ip cutoff e (x ∷ m) there seen = elim (Bool-cases (bytes_eq ip x.0)) [
    | inl here ↦
        let x_is : some x.1 ≡ some e = rw here at there in
        let kept : ltb (x.1).last_seen cutoff ≡ false =
          (let same = ap (seen_or cutoff) x_is in ground arith) in
        rw kept (rw here x_is)
    | inr past ↦ elim (Bool-cases (ltb (x.1).last_seen cutoff)) [
      | inl old ↦ rw old (lookup-evict_before ip cutoff e m (rw past at there) seen)
      | inr new ↦ rw new (rw past (lookup-evict_before ip cutoff e m (rw past at there) seen))
    ]
  ]
    where
      seen_or : ℕ → Option (RateLimiterEntry A) → ℕ
      seen_or d none = d
      seen_or d (some x) = x.last_seen

  -- What is written for another client changes nothing for this one.
  Has-other :
      (ip other : Bytes) (address : ℕ) (l : A) (t : ℕ) (e : RateLimiterEntry A) (shards : Shards A)
      → bytes_eq ip other ≡ false
      → Has ip address l t shards
      → Has ip address l t (update_limiter_shard (get_shard other) (insert other e) shards)
  Has-other ip other address l t e shards differ (old, there, at_address, is_l, seen) =
      (old, lookup-update ip other e shards differ ∙ there, at_address, is_l, seen)

  -- A touch by the client's own request is what it was seen at last.
  touch-Has :
      (ip : Bytes) (address : ℕ) (l : A) (t now : ℕ) (shards : Shards A)
      → Has ip address l t shards
      → (e : RateLimiterEntry A) × (lookup ip (shards (get_shard ip)) ≡ some e)
        × (e.address ≡ address)
        × Has ip address l now (touch ip now e shards)
  touch-Has ip address l t now shards (e, there, at_address, is_l, seen) =
      let touched : RateLimiterEntry A = record e { last_seen = now } in
      (
        e,
        there,
        at_address,
        (touched, lookup-update_same ip touched shards, at_address, is_l, refl),
      )

  mark_found-other :
      (ip other : Bytes) (address b : ℕ) (l : A) (t now : ℕ) (found : Option (RateLimiterEntry A))
      (shards : Shards A)
      → bytes_eq ip other ≡ false
      → Has ip address l t shards
      → Has ip address l t (mark_found other b now found shards)
  mark_found-other ip other address b l t now none shards differ has = has
  mark_found-other ip other address b l t now (some entry) shards differ has =
      by_address (entry.address == b)
    where
      by_address : (same : Bool) → Has ip address l t (touch_if same other now entry shards)
      by_address true =
          Has-other ip other address l t (record entry { last_seen = now }) shards differ has
      by_address false = has

  add_limiter-other :
      (ip other : Bytes) (address : ℕ) (l : A) (t now : ℕ) (fresh : RateLimiterEntry A)
      (found : Option (RateLimiterEntry A)) (shards : Shards A)
      → bytes_eq ip other ≡ false
      → Has ip address l t shards
      → Has ip address l t (add_limiter other now fresh found shards).0
  add_limiter-other ip other address l t now fresh none shards differ has =
      Has-other ip other address l t (record fresh { last_seen = now }) shards differ has
  add_limiter-other ip other address l t now fresh (some entry) shards differ has =
      Has-other ip other address l t (record entry { last_seen = now }) shards differ has

  clean_shard-Has :
      (ip : Bytes) (address : ℕ) (l : A) (t cutoff i : ℕ) (shards : Shards A)
      → cutoff ≤ t
      → Has ip address l t shards
      → Has ip address l t (clean_shard cutoff i shards)
  clean_shard-Has ip address l t cutoff i shards recent (e, there, at_address, is_l, seen) =
      elim (Bool-cases (get_shard ip == i)) [
        | inl here ↦ (
          e,
          rw here (lookup-evict_before ip cutoff e (shards (get_shard ip)) there (omega arith)),
          at_address,
          is_l,
          seen,
        )
        | inr elsewhere ↦ (e, rw elsewhere there, at_address, is_l, seen)
      ]

  own_mark-Has :
      (ip : Bytes) (address b : ℕ) (l : A) (t now : ℕ) (shards : Shards A)
      → Has ip address l t shards
      → Has ip address l
          (if address == b then now else t)
          (mark_found ip b now (lookup ip (shards (get_shard ip))) shards)
  own_mark-Has ip address b l t now shards has =
      let (e, there, at_address, touched) = touch-Has ip address l t now shards has in
      rw there (rw at_address (by_address (address == b) e touched))
    where
      by_address :
          (same : Bool) (e : RateLimiterEntry A)
          → Has ip address l now (touch ip now e shards)
          → Has ip address l (if same then now else t) (touch_if same ip now e shards)
      by_address true e touched = touched
      by_address false e touched = has

  own_make-Has :
      (ip : Bytes) (address : ℕ) (l : A) (t now : ℕ) (fresh : RateLimiterEntry A)
      (shards : Shards A)
      → Has ip address l t shards
      → Has ip address l now (add_limiter ip now fresh (lookup ip (shards (get_shard ip))) shards).0
  own_make-Has ip address l t now fresh shards has =
      let (e, there, at_address, touched) = touch-Has ip address l t now shards has in
      rw there touched

  perform-Has :
      (ip : Bytes) (address : ℕ) (l : A) (t : ℕ) (s : Section A) (ss : List (Section A))
      (shards : Shards A)
      → IsActive ip address t (s ∷ ss)
      → Has ip address l t shards
      → IsActive ip address (seen_after ip address t s) ss
        × Has ip address l (seen_after ip address t s) (perform s shards)
  unfolding perform mark_seen make_limiter
  perform-Has ip address l t (cleans cutoff i) ss shards (recent, active) has =
      (active, clean_shard-Has ip address l t cutoff i shards recent has)
  perform-Has ip address l t (marks other b now) ss shards active has = (
    active,
    elim (Bool-cases (bytes_eq ip other)) [
      | inr differ ↦ rw differ (
          mark_found-other ip other address b l t now (lookup other (shards (get_shard other)))
            shards differ has)
      | inl same ↦ rw same (
          subst
            (λ (o : Bytes).
              Has ip address l (if address == b then now else t)
                (mark_found o b now (lookup o (shards (get_shard o))) shards))
            (bytes_eq→≡ ip other same) (own_mark-Has ip address b l t now shards has))
    ],
  )
  perform-Has ip address l t (makes other now fresh) ss shards active has = (
    active,
    elim (Bool-cases (bytes_eq ip other)) [
      | inr differ ↦ rw differ (
          add_limiter-other ip other address l t now fresh (lookup other (shards (get_shard other)))
            shards differ has)
      | inl same ↦ rw same (
          subst
            (λ (o : Bytes).
              Has ip address l now
                (add_limiter o now fresh (lookup o (shards (get_shard o))) shards).0)
            (bytes_eq→≡ ip other same) (own_make-Has ip address l t now fresh shards has))
    ],
  )

  perform_all-Has :
      (ip : Bytes) (address : ℕ) (l : A) (t : ℕ) (ss : List (Section A)) (shards : Shards A)
      → IsActive ip address t ss
      → Has ip address l t shards
      → (last : ℕ) × Has ip address l last (perform_all ss shards)
  unfolding perform_all
  perform_all-Has ip address l t [] shards active has = (t, has)
  perform_all-Has ip address l t (s ∷ ss) shards active has =
      let (later, kept) = perform-Has ip address l t s ss shards active has in
      perform_all-Has ip address l (seen_after ip address t s) ss (perform s shards) later kept

  make_limiter-Has :
      (ip : Bytes) (t : ℕ) (fresh : RateLimiterEntry A) (shards : Shards A)
      → Has ip
          (make_limiter ip t fresh shards).1.address
          (make_limiter ip t fresh shards).1.limiter
          t
          (make_limiter ip t fresh shards).0
  unfolding make_limiter
  make_limiter-Has ip t fresh shards = by_entry (lookup ip (shards (get_shard ip)))
    where
      by_entry :
          (found : Option (RateLimiterEntry A))
          → Has ip
              (add_limiter ip t fresh found shards).1.address
              (add_limiter ip t fresh found shards).1.limiter
              t
              (add_limiter ip t fresh found shards).0
      by_entry none =
          let e : RateLimiterEntry A = record fresh { last_seen = t } in
          (e, lookup-update_same ip e shards, refl, refl, refl)
      by_entry (some entry) =
          let e : RateLimiterEntry A = record entry { last_seen = t } in
          (e, lookup-update_same ip e shards, refl, refl, refl)

  abbrev pub shards_after : Bytes → ℕ → RateLimiterEntry A → List (Section A) → Shards A → Shards A
  shards_after ip t fresh ss shards = perform_all ss (make_limiter ip t fresh shards).0

  -- After a request at the time t has made or found its client's entry under the lock, a later request
  -- of that client gets the same limiter, whether it finds it at once or under the lock, however the
  -- steps of requests of all clients and of clean-ups interleave in between, if no clean-up reaches
  -- beyond the client's last request before it: a request counts from when it marked the client's
  -- entry, whichever way it came to it.
  pub requests_share_limiter :
      (ip : Bytes) (t now : ℕ) (fresh other_fresh : RateLimiterEntry A) (ss : List (Section A))
      (shards : Shards A)
      → IsActive ip (make_limiter ip t fresh shards).1.address t ss
      → ((e : RateLimiterEntry A) × (find_limiter ip (shards_after ip t fresh ss shards) ≡ some e)
          × (e.limiter ≡ (make_limiter ip t fresh shards).1.limiter))
        × ((make_limiter ip now other_fresh (shards_after ip t fresh ss shards)).1.limiter
            ≡ (make_limiter ip t fresh shards).1.limiter)
  unfolding find_limiter make_limiter mark_seen
  requests_share_limiter ip t now fresh other_fresh ss shards active =
      let entry : RateLimiterEntry A = (make_limiter ip t fresh shards).1 in
      let (last, (e, there, at_address, is_l, seen)) =
        perform_all-Has ip entry.address entry.limiter t ss (make_limiter ip t fresh shards).0
          active (make_limiter-Has ip t fresh shards) in
      ((e, there, is_l), rw there is_l)
