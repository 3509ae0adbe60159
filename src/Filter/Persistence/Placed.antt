-- ===== src/Filter/Persistence/Placed.antt =====
-- internal/filter/stoppage_filter.go: the states of the filter, and the copy that is written to Redis.
use gps_data_receiver.Prelude.{
  ℕ, zero, suc, ◌≤◌, ◌<◌, ◌≡◌, ◌≢◌, ◌==◌, ==_iff, refl, ap, sym, ◌∙◌, List, [], ◌∷◌, none, some,
  Bool, Bool-cases, true, false, inl, inr, if◌then◌else◌, arith, lookup, lookup-insert, bytes_eq,
  bytes_eq→≡, bytes_eq_refl, not,
}
use gps_data_receiver.Parser.Data.{Bytes, ParsedGpsData}
use gps_data_receiver.Filter.{
  StoppageShard, StoppageFilter, new_stoppage_filter, shard_index, last_was_stoppage, set_last,
  is_stoppage, stands, filter_record, filter_records, filter_data,
}
use gps_data_receiver.Filter.Persistence.{copy_shard, state_copy}

lookup-copy_shard :
    (imei : Bytes) (es copy : StoppageShard) (b : Bool)
    → lookup imei es ≡ some b
    → lookup imei (copy_shard es copy) ≡ some b
unfolding copy_shard lookup
lookup-copy_shard imei [] copy b h = absurd (cc h)
lookup-copy_shard imei (e ∷ es) copy b h =
    lookup-insert imei e.0 e.1 (copy_shard es copy) ∙ elim (Bool-cases (bytes_eq imei e.0)) [
      | inl here ↦ rw here (rw here at h)
      | inr past ↦ rw past (lookup-copy_shard imei es copy b (rw past at h))
    ]

lookup-copy_shard_other :
    (imei : Bytes) (es copy : StoppageShard)
    → lookup imei es ≡ none
    → lookup imei (copy_shard es copy) ≡ lookup imei copy
unfolding copy_shard lookup
lookup-copy_shard_other imei [] copy h = refl
lookup-copy_shard_other imei (e ∷ es) copy h =
    lookup-insert imei e.0 e.1 (copy_shard es copy) ∙ elim (Bool-cases (bytes_eq imei e.0)) [
      | inl here ↦ absurd (cc (rw here at h))
      | inr past ↦ rw past (lookup-copy_shard_other imei es copy (rw past at h))
    ]

module _ (sum32 : Bytes → ℕ) where
  -- A device stands in no shard but its own.
  abbrev pub IsPlaced : StoppageFilter → Type 0
  IsPlaced sf =
      (imei : Bytes) (i : ℕ) → i ≢ shard_index sum32 imei → lookup imei (sf.shards i) ≡ none

  lookup-state_copy_below :
      (sf : StoppageFilter) (imei : Bytes) (n : ℕ)
      → IsPlaced sf
      → n ≤ shard_index sum32 imei
      → lookup imei (state_copy n sf) ≡ none
  unfolding state_copy lookup
  lookup-state_copy_below sf imei zero placed below = refl
  lookup-state_copy_below sf imei (suc n) placed below =
      lookup-copy_shard_other imei (sf.shards n) (state_copy n sf) (placed imei n (omega arith))
      ∙ lookup-state_copy_below sf imei n placed (omega arith)

  pub lookup-state_copy :
      (sf : StoppageFilter) (imei : Bytes) (n : ℕ) (b : Bool)
      → IsPlaced sf
      → shard_index sum32 imei < n
      → last_was_stoppage sum32 sf imei ≡ some b
      → lookup imei (state_copy n sf) ≡ some b
  unfolding state_copy last_was_stoppage
  lookup-state_copy sf imei zero b placed above known = absurd (omega arith)
  lookup-state_copy sf imei (suc n) b placed above known =
      elim (Bool-cases (n == shard_index sum32 imei)) [
        | inl here ↦
            let n_is : shard_index sum32 imei ≡ n = ground arith in
            lookup-copy_shard imei (sf.shards n) (state_copy n sf) b
              (ap (λ (i : ℕ). lookup imei (sf.shards i)) (sym n_is) ∙ known)
        | inr elsewhere ↦
            let differs : n ≢ shard_index sum32 imei = ground arith in
            let smaller : shard_index sum32 imei < n = ground arith in
            lookup-copy_shard_other imei (sf.shards n) (state_copy n sf) (placed imei n differs)
            ∙ lookup-state_copy sf imei n b placed smaller known
      ]

  pub set_last_same :
      (sf : StoppageFilter) (imei : Bytes) (b : Bool)
      → last_was_stoppage sum32 (set_last sum32 imei b sf) imei ≡ some b
  unfolding last_was_stoppage set_last
  set_last_same sf imei b = rw ((==_iff (shard_index sum32 imei) (shard_index sum32 imei)).1 refl) (
      lookup-insert imei imei b (sf.shards (shard_index sum32 imei)) ∙ rw (bytes_eq_refl imei) refl)

  pub set_last_other :
      (sf : StoppageFilter) (imei other : Bytes) (b : Bool)
      → bytes_eq imei other ≡ false
      → last_was_stoppage sum32 (set_last sum32 other b sf) imei ≡ last_was_stoppage sum32 sf imei
  unfolding last_was_stoppage set_last
  set_last_other sf imei other b differ =
      elim (Bool-cases (shard_index sum32 imei == shard_index sum32 other)) [
        | inl here ↦
            rw here
              (lookup-insert imei other b (sf.shards (shard_index sum32 imei)) ∙ rw differ refl)
        | inr elsewhere ↦ rw elsewhere refl
      ]

  -- Every state that the filter comes to is placed.
  pub new_stoppage_filter-IsPlaced : (enabled : Bool) → IsPlaced (new_stoppage_filter enabled)
  unfolding lookup
  new_stoppage_filter-IsPlaced enabled imei i differs = refl

  set_last-IsPlaced :
      (sf : StoppageFilter) (other : Bytes) (b : Bool)
      → IsPlaced sf
      → IsPlaced (set_last sum32 other b sf)
  unfolding set_last
  set_last-IsPlaced sf other b placed imei i differs =
      elim (Bool-cases (i == shard_index sum32 other)) [
        | inr elsewhere ↦ rw elsewhere (placed imei i differs)
        | inl here ↦
            let apart : bytes_eq imei other ≡ false = elim (Bool-cases (bytes_eq imei other)) [
              | inr apart ↦ apart
              | inl same ↦
                  let shards = ap (shard_index sum32) (bytes_eq→≡ imei other same) in
                  absurd (differs ((==_iff i (shard_index sum32 other)).0 here ∙ sym shards))
            ] in
            rw here (lookup-insert imei other b (sf.shards i) ∙ rw apart (placed imei i differs))
      ]

  module _ {F : Type 0} where
    filter_record-IsPlaced :
        (r : ParsedGpsData F) (sf : StoppageFilter)
        → IsPlaced sf
        → IsPlaced (filter_record sum32 r sf).1
    unfolding filter_record
    filter_record-IsPlaced r sf placed = elim (Bool-cases (is_stoppage r)) [
      | inr moves ↦ rw (filter_record, moves) (set_last-IsPlaced sf r.imei false placed)
      | inl stops ↦ elim (Bool-cases (stands (last_was_stoppage sum32 sf r.imei))) [
        | inr moved ↦ rw (filter_record, stops) (rw moved (set_last-IsPlaced sf r.imei true placed))
        | inl stood ↦ rw (filter_record, stops) (rw stood placed)
      ]
    ]

    filter_records-IsPlaced :
        (rs : List (ParsedGpsData F)) (sf : StoppageFilter)
        → IsPlaced sf
        → IsPlaced (filter_records sum32 rs sf).1
    unfolding filter_records
    filter_records-IsPlaced [] sf placed = placed
    filter_records-IsPlaced (r ∷ rs) sf placed =
        filter_records-IsPlaced rs (filter_record sum32 r sf).1 (filter_record-IsPlaced r sf placed)

    pub filter_data-IsPlaced :
        (rs : List (ParsedGpsData F)) (sf : StoppageFilter)
        → IsPlaced sf
        → IsPlaced (filter_data sum32 rs sf).1
    unfolding filter_data
    filter_data-IsPlaced rs sf placed = by_enabled sf.enabled (filter_records-IsPlaced rs sf placed)
      where
        by_enabled :
            (on : Bool)
            → IsPlaced (filter_records sum32 rs sf).1
            → IsPlaced (if not on then (rs, sf) else filter_records sum32 rs sf).1
        by_enabled true filtered = filtered
        by_enabled false filtered = placed
