-- ===== src/Filter/Device.antt =====
-- internal/filter/stoppage_filter.go: what `FilterData` does for one device.
use gps_data_receiver.Prelude.{
  ℕ, arith, ◌≡◌, refl, sym, ap, subst, ◌∙◌, List, [], ◌∷◌, Bool, true, false, not, ◌&&◌,
  if◌then◌else◌, Bool-cases, inl, inr, bytes_eq, bytes_eq→≡,
}
use gps_data_receiver.Parser.Data.{Bytes, ParsedGpsData}
use gps_data_receiver.Filter.{
  StoppageFilter, is_stoppage, keep, filter_record, filter_records, filter_data,
}
use gps_data_receiver.Filter.History.{standing, filter_record-keeps, filter_record-standing}

unfoldable pub of_device : {F : Type 0} → Bytes → List (ParsedGpsData F) → List (ParsedGpsData F)
of_device imei [] = []
of_device imei (r ∷ rs) = keep (bytes_eq imei r.imei) r (of_device imei rs)

-- The records of one device without repeated stoppages; `stood`: the device stood before them.
unfoldable pub squeeze : {F : Type 0} → Bool → List (ParsedGpsData F) → List (ParsedGpsData F)
squeeze stood [] = []
squeeze stood (r ∷ rs) = keep (not (is_stoppage r && stood)) r (squeeze (is_stoppage r) rs)

unfoldable pub Alternates : {F : Type 0} → Bool → List (ParsedGpsData F) → Type 0
Alternates stood [] = Unit
Alternates stood (r ∷ rs) = ((is_stoppage r && stood) ≡ false) × Alternates (is_stoppage r) rs

squeeze-Alternates :
    {F : Type 0} (stood : Bool) (rs : List (ParsedGpsData F)) → Alternates stood (squeeze stood rs)
unfolding squeeze Alternates
squeeze-Alternates stood [] = tt
squeeze-Alternates stood (r ∷ rs) = elim (Bool-cases (is_stoppage r && stood)) [
  | inl repeated ↦
      let stop : is_stoppage r ≡ true = ground arith in
      let stand : stood ≡ true = ground arith in
      rw repeated (rw stop (rw stand (squeeze-Alternates true rs)))
  | inr new ↦ rw new (new, squeeze-Alternates (is_stoppage r) rs)
]

module _ {ℓ} {A : Type ℓ} where
  keep-and_true : (b : Bool) (x : A) (xs : List A) → keep (b && true) x xs ≡ keep b x xs
  keep-and_true true x xs = refl
  keep-and_true false x xs = refl

  keep-and_false : (b : Bool) (x : A) (xs : List A) → keep (b && false) x xs ≡ xs
  keep-and_false true x xs = refl
  keep-and_false false x xs = refl

of_device-keep :
    {F : Type 0} (imei : Bytes) (b : Bool) (r : ParsedGpsData F) (rs : List (ParsedGpsData F))
    → of_device imei (keep b r rs) ≡ keep (b && bytes_eq imei r.imei) r (of_device imei rs)
unfolding of_device
of_device-keep imei true r rs = refl
of_device-keep imei false r rs = refl

module _ (sum32 : Bytes → ℕ) {F : Type 0} where
  of_device-filter_records :
      (imei : Bytes) (rs : List (ParsedGpsData F)) (sf : StoppageFilter)
      → of_device imei (filter_records sum32 rs sf).0
        ≡ squeeze (standing sum32 sf imei) (of_device imei rs)
  unfolding of_device squeeze filter_records
  of_device-filter_records imei [] sf = refl
  of_device-filter_records imei (r ∷ rs) sf =
      let after : StoppageFilter = (filter_record sum32 r sf).1 in
      let rest : List (ParsedGpsData F) = (filter_records sum32 rs after).0 in
      let ds : List (ParsedGpsData F) = of_device imei rs in
      let stood : Bool = standing sum32 sf imei in
      let now = filter_record-standing sum32 r sf imei in
      let others : of_device imei rest ≡ squeeze (standing sum32 after imei) (of_device imei rs) =
        of_device-filter_records imei rs after in
      of_device-keep imei (filter_record sum32 r sf).0 r rest
      ∙ elim (Bool-cases (bytes_eq imei r.imei)) [
        | inl same ↦
            let keeps : (filter_record sum32 r sf).0
                ≡ not (is_stoppage r && standing sum32 sf imei) =
              filter_record-keeps sum32 r sf
              ∙ ap (λ (j : Bytes). not (is_stoppage r && standing sum32 sf j))
                  (sym (bytes_eq→≡ imei r.imei same)) in
            (λ i. keep (keeps i && same i) r (
              (others
                  ∙ ap (λ (b : Bool). squeeze b ds)
                      (now ∙ ap (λ (b : Bool). if b then is_stoppage r else stood) same))
                i))
            ∙ keep-and_true (not (is_stoppage r && stood)) r (squeeze (is_stoppage r) ds)
            ∙ (λ i. squeeze stood (keep (sym same i) r ds))
        | inr differ ↦
            (λ i. keep ((filter_record sum32 r sf).0 && differ i) r (
              (others
                  ∙ ap (λ (b : Bool). squeeze b ds)
                      (now ∙ ap (λ (b : Bool). if b then is_stoppage r else stood) differ))
                i))
            ∙ keep-and_false (filter_record sum32 r sf).0 r (squeeze stood ds)
            ∙ (λ i. squeeze stood (keep (sym differ i) r ds))
      ]

  -- Of every device, whatever the others do, an enabled filter keeps the records but each stoppage
  -- that follows a stoppage of that device, the state before the batch counted; so two stoppages of
  -- a device never follow one another in what is sent.
  pub filter_data-of_device :
      (imei : Bytes) (rs : List (ParsedGpsData F)) (sf : StoppageFilter)
      → sf.enabled ≡ true
      → (of_device imei (filter_data sum32 rs sf).0
          ≡ squeeze (standing sum32 sf imei) (of_device imei rs))
        × Alternates (standing sum32 sf imei) (of_device imei (filter_data sum32 rs sf).0)
  unfolding filter_data
  filter_data-of_device imei rs sf on =
      let same : of_device imei (filter_data sum32 rs sf).0
          ≡ squeeze (standing sum32 sf imei) (of_device imei rs) =
        ap (λ (b : Bool). of_device imei (if not b then (rs, sf) else filter_records sum32 rs sf).0)
          on
        ∙ of_device-filter_records imei rs sf in
      (
        same,
        subst (Alternates (standing sum32 sf imei)) (sym same)
            (squeeze-Alternates (standing sum32 sf imei) (of_device imei rs)),
      )
