-- ===== src/Filter/History.antt =====
-- internal/filter/stoppage_filter.go: what `FilterData` keeps, by the history of each device.
use gps_data_receiver.Prelude.{
  ℕ, ◌==◌, ==_iff, ◌≡◌, refl, ap, ◌∙◌, List, [], ◌∷◌, Bool, true, false, not, ◌&&◌, if◌then◌else◌,
  Bool-cases, inl, inr, bytes_eq, bytes_eq→≡, lookup-insert,
}
use gps_data_receiver.Parser.Data.{Bytes, ParsedGpsData}
use gps_data_receiver.Filter.{
  StoppageFilter, is_stoppage, stands, keep, shard_index, last_was_stoppage, set_last,
  filter_record, filter_records, filter_data,
}

module _ (sum32 : Bytes → ℕ) where
  -- Does the filter hold that the device stands?
  abbrev pub standing : StoppageFilter → Bytes → Bool
  standing sf imei = stands (last_was_stoppage sum32 sf imei)

  last_was_stoppage-set_last :
      (sf : StoppageFilter) (imei j : Bytes) (b : Bool)
      → standing (set_last sum32 imei b sf) j ≡ (if bytes_eq j imei then b else standing sf j)
  unfolding last_was_stoppage set_last
  last_was_stoppage-set_last sf imei j b = elim (Bool-cases (bytes_eq j imei)) [
    | inl same ↦
        let here : (shard_index sum32 j == shard_index sum32 imei) ≡ true =
          (==_iff _ _).1 (ap (shard_index sum32) (bytes_eq→≡ j imei same)) in
        rw here (rw (lookup-insert j imei b (sf.shards (shard_index sum32 j))) (rw same))
    | inr differ ↦ elim (Bool-cases (shard_index sum32 j == shard_index sum32 imei)) [
      | inl here ↦
          rw here (rw (lookup-insert j imei b (sf.shards (shard_index sum32 j))) (rw differ))
      | inr there ↦ rw there (rw differ)
    ]
  ]

  module _ {F : Type 0} where
    pub filter_record-keeps :
        (r : ParsedGpsData F) (sf : StoppageFilter)
        → (filter_record sum32 r sf).0 ≡ not (is_stoppage r && standing sf r.imei)
    unfolding filter_record
    filter_record-keeps r sf = elim (Bool-cases (is_stoppage r)) [
      | inl stop ↦ elim (Bool-cases (standing sf r.imei)) [
        | inl stood ↦ rw stop (rw stood)
        | inr moved ↦ rw stop (rw moved)
      ]
      | inr move ↦ rw move
    ]

    pub filter_record-standing :
        (r : ParsedGpsData F) (sf : StoppageFilter) (j : Bytes)
        → standing (filter_record sum32 r sf).1 j
          ≡ (if bytes_eq j r.imei then is_stoppage r else standing sf j)
    unfolding filter_record
    filter_record-standing r sf j = elim (Bool-cases (is_stoppage r)) [
      | inl stop ↦ elim (Bool-cases (standing sf r.imei)) [
        | inl stood ↦ elim (Bool-cases (bytes_eq j r.imei)) [
          | inl same ↦
              rw stop (rw stood (rw same (ap (standing sf) (bytes_eq→≡ j r.imei same) ∙ stood)))
          | inr differ ↦ rw stop (rw stood (rw differ))
        ]
        | inr moved ↦ rw stop (rw moved (last_was_stoppage-set_last sf r.imei j true))
      ]
      | inr move ↦ rw move (last_was_stoppage-set_last sf r.imei j false)
    ]

-- Was the device standing after these records, the latest first? `initial` is what held before them.
unfoldable pub was_standing : {F : Type 0} → (Bytes → Bool) → List (ParsedGpsData F) → Bytes → Bool
was_standing initial [] imei = initial imei
was_standing initial (r ∷ rs) imei =
    if bytes_eq imei r.imei then is_stoppage r else was_standing initial rs imei

-- The records without each stoppage whose device already stood.
unfoldable pub without_repeats :
    {F : Type 0}
    → (Bytes → Bool)
    → List (ParsedGpsData F)
    → List (ParsedGpsData F)
    → List (ParsedGpsData F)
without_repeats initial past [] = []
without_repeats initial past (r ∷ rs) =
    keep (not (is_stoppage r && was_standing initial past r.imei)) r
      (without_repeats initial (r ∷ past) rs)

filter_records-history :
    (sum32 : Bytes → ℕ) {F : Type 0} (initial : Bytes → Bool) (past rs : List (ParsedGpsData F))
    (sf : StoppageFilter)
    → ((j : Bytes) → standing sum32 sf j ≡ was_standing initial past j)
    → (filter_records sum32 rs sf).0 ≡ without_repeats initial past rs
unfolding filter_records without_repeats was_standing
filter_records-history sum32 initial past [] sf agree = refl
filter_records-history sum32 initial past (r ∷ rs) sf agree =
    let keeps : (filter_record sum32 r sf).0
        ≡ not (is_stoppage r && was_standing initial past r.imei) =
      filter_record-keeps sum32 r sf ∙ ap (λ (b : Bool). not (is_stoppage r && b)) (agree r.imei) in
    let others =
      filter_records-history sum32 initial (r ∷ past) rs (filter_record sum32 r sf).1
        (λ j. filter_record-standing sum32 r sf j ∙ rw (agree j)) in
    λ i. keep (keeps i) r (others i)

-- An enabled filter keeps every record, in order, but the stoppages of a device that stood already:
-- by its latest record before, in this batch, or for its first record there by the filter's state.
-- It makes no difference which devices share a shard.
pub filter_data-history :
    (sum32 : Bytes → ℕ) {F : Type 0} (rs : List (ParsedGpsData F)) (sf : StoppageFilter)
    → sf.enabled ≡ true
    → (filter_data sum32 rs sf).0 ≡ without_repeats (standing sum32 sf) [] rs
unfolding filter_data was_standing
filter_data-history sum32 rs sf on =
    ap (λ (b : Bool). (if not b then (rs, sf) else filter_records sum32 rs sf).0) on
    ∙ filter_records-history sum32 (standing sum32 sf) [] rs sf (λ j. refl)
