-- ===== src/Filter/Redelivery.antt =====
-- internal/filter/stoppage_filter.go: a batch that is filtered twice, as when its delivery failed and
-- the queue delivers it again.
use gps_data_receiver.Prelude.{
  ℕ, ◌≡◌, refl, ap, ◌∙◌, List, [], ◌∷◌, Bool, true, false, not, if◌then◌else◌, Bool-cases, inl, inr,
  bytes_eq, bytes_eq_refl, All,
}
use gps_data_receiver.Parser.Data.{Bytes, ParsedGpsData}
use gps_data_receiver.Filter.{
  set_last, StoppageFilter, is_stoppage, keep, filter_record, filter_records, filter_data,
}
use gps_data_receiver.Filter.History.{standing, filter_record-keeps, filter_record-standing}

abbrev pub IsStoppage : {F : Type 0} → ParsedGpsData F → Type 0
IsStoppage r = is_stoppage r ≡ true

module _ (sum32 : Bytes → ℕ) {F : Type 0} where
  Stands : StoppageFilter → ParsedGpsData F → Type 0
  Stands sf r = standing sum32 sf r.imei ≡ true

  filter_record-stands :
      (r : ParsedGpsData F) (sf : StoppageFilter) (j : Bytes)
      → IsStoppage r
      → standing sum32 sf j ≡ true
      → standing sum32 (filter_record sum32 r sf).1 j ≡ true
  filter_record-stands r sf j stop stands =
      filter_record-standing sum32 r sf j ∙ elim (Bool-cases (bytes_eq j r.imei)) [
        | inl same ↦ rw same stop
        | inr differ ↦ rw differ stands
      ]

  filter_records-stands :
      (rs : List (ParsedGpsData F)) (sf : StoppageFilter) (j : Bytes)
      → All IsStoppage rs
      → standing sum32 sf j ≡ true
      → standing sum32 (filter_records sum32 rs sf).1 j ≡ true
  unfolding filter_records
  filter_records-stands [] sf j stops stands = stands
  filter_records-stands (r ∷ rs) sf j (stop, stops) stands =
      filter_records-stands rs (filter_record sum32 r sf).1 j stops
        (filter_record-stands r sf j stop stands)

  filter_records-All_stand :
      (rs : List (ParsedGpsData F)) (sf : StoppageFilter)
      → All IsStoppage rs
      → All (Stands (filter_records sum32 rs sf).1) rs
  unfolding filter_records Stands
  filter_records-All_stand [] sf stops = tt
  filter_records-All_stand (r ∷ rs) sf (stop, stops) = (
    filter_records-stands rs (filter_record sum32 r sf).1 r.imei stops
        (filter_record-standing sum32 r sf r.imei ∙ rw (bytes_eq_refl r.imei) stop),
    filter_records-All_stand rs (filter_record sum32 r sf).1 stops,
  )

  filter_record-All_stand :
      (r : ParsedGpsData F) (rs : List (ParsedGpsData F)) (sf : StoppageFilter)
      → IsStoppage r
      → All (Stands sf) rs
      → All (Stands (filter_record sum32 r sf).1) rs
  unfolding Stands
  filter_record-All_stand r [] sf stop stand = tt
  filter_record-All_stand r (x ∷ rs) sf stop (stands, stand) =
      (filter_record-stands r sf x.imei stop stands, filter_record-All_stand r rs sf stop stand)

  filter_records-repeated :
      (rs : List (ParsedGpsData F)) (sf : StoppageFilter)
      → All IsStoppage rs
      → All (Stands sf) rs
      → (filter_records sum32 rs sf).0 ≡ []
  unfolding filter_records Stands
  filter_records-repeated [] sf stops stand = refl
  filter_records-repeated (r ∷ rs) sf (stop, stops) (stands, stand) =
      let drops : (filter_record sum32 r sf).0 ≡ false =
        filter_record-keeps sum32 r sf ∙ rw stop (rw stands refl) in
      let others =
        filter_records-repeated rs (filter_record sum32 r sf).1 stops
          (filter_record-All_stand r rs sf stop stand) in
      λ i. keep (drops i) r (others i)

  enabled-filter_records :
      (rs : List (ParsedGpsData F)) (sf : StoppageFilter)
      → ((filter_records sum32 rs sf).1).enabled ≡ sf.enabled
  unfolding filter_records filter_record set_last
  enabled-filter_records [] sf = refl
  enabled-filter_records (r ∷ rs) sf =
      enabled-filter_records rs (filter_record sum32 r sf).1 ∙ elim (Bool-cases (is_stoppage r)) [
        | inl stop ↦ elim (Bool-cases (standing sum32 sf r.imei)) [
          | inl stood ↦ rw stop (rw stood)
          | inr moved ↦ rw stop (rw moved)
        ]
        | inr move ↦ rw move
      ]

  filter_data-enabled :
      (rs : List (ParsedGpsData F)) (sf : StoppageFilter)
      → sf.enabled ≡ true
      → filter_data sum32 rs sf ≡ filter_records sum32 rs sf
  unfolding filter_data
  filter_data-enabled rs sf on =
      ap (λ (b : Bool). if not b then (rs, sf) else filter_records sum32 rs sf) on

  -- An enabled filter that has seen a batch of stoppages lets nothing of it through a second time,
  -- whether the first delivery succeeded or not: the state is of what was filtered, not of what was
  -- sent.
  pub filter_data_twice :
      (rs : List (ParsedGpsData F)) (sf : StoppageFilter)
      → sf.enabled ≡ true
      → All IsStoppage rs
      → (filter_data sum32 rs (filter_data sum32 rs sf).1).0 ≡ []
  filter_data_twice rs sf on stops =
      let seen : StoppageFilter = (filter_records sum32 rs sf).1 in
      ap (λ (p : List (ParsedGpsData F) × StoppageFilter). (filter_data sum32 rs p.1).0)
        (filter_data-enabled rs sf on)
      ∙ ap (λ (p : List (ParsedGpsData F) × StoppageFilter). p.0)
          (filter_data-enabled rs seen (enabled-filter_records rs sf ∙ on))
      ∙ filter_records-repeated rs seen stops (filter_records-All_stand rs sf stops)
