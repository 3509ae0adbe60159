-- ===== src/Storage/Invalid/Pages.antt =====
-- internal/storage/postgres.go: the pages of the invalid records cover them all, once each.
use native.Mathlib.Nat.{mod-add-div', mod-lt, zero-mul}
use gps_data_receiver.Prelude.{
  ℕ, zero, suc, ◌+◌, ◌-◌, ◌*◌, ◌/◌, ◌≡◌, ◌≤◌, ◌<◌, refl, ap, sym, ◌∙◌, List, [], ◌∷◌, ◌++◌, arith,
  ltb, length, take, drop, take_all, false, Bool-cases, inl, inr,
}
use gps_data_receiver.Prelude.Int.{ℤ, pos}
use gps_data_receiver.Storage.Invalid.Order.{NewestFirst, SameRows, NewestFirst-unique}
use gps_data_receiver.Storage.Invalid.{
  page_limit, first_page, max_page, clamped_page, query_invalid_records,
}

page_limit_bounds : (limit : ℤ) → (0 < page_limit limit) × (page_limit limit ≤ 500)
unfolding page_limit
page_limit_bounds limit = (ground arith, ground arith)

-- The last page ends behind the last row.
max_page-covers : (total limit : ℕ) → 0 < limit → total ≤ max_page total limit * limit
unfolding max_page
max_page-covers total limit h =
    let whole = mod-add-div' (total + limit - 1) limit in
    let rest = mod-lt (total + limit - 1) {m = limit} h in
    elim (Bool-cases (ltb ((total + limit - 1) / limit) 1)) [
      | inl none ↦
          let zero_pages : (total + limit - 1) / limit ≡ 0 = ground arith in
          let nothing : (total + limit - 1) / limit * limit ≡ 0 =
            ap (λ (q : ℕ). q * limit) zero_pages ∙ zero-mul limit in
          rw none (omega arith)
      | inr some ↦ rw some (omega arith)
    ]

module _ {A : Type 0} where
  -- The records of the pages 1 to n, one page after the other, each of a query of its own: `answers n`
  -- are the rows as the database orders them for the query of the page n + 1.
  abbrev pub pages : (ℕ → List A) → ℤ → ℕ → List A
  pages answers limit zero = []
  pages answers limit (suc n) =
      pages answers limit n ++ (query_invalid_records (answers n) (pos (suc n)) limit).records

  page_in_range :
      (rows : List A) (limit : ℤ) (n : ℕ)
      → suc n ≤ max_page (length rows) (page_limit limit)
      → (query_invalid_records rows (pos (suc n)) limit).records
        ≡ take (page_limit limit) (drop (n * page_limit limit) rows)
  unfolding query_invalid_records clamped_page first_page
  page_in_range rows limit n h =
      let stays : ltb (max_page (length rows) (page_limit limit)) (suc n) ≡ false = ground arith in
      let from_one : ltb (suc n) 1 ≡ false = ground arith in
      let back : suc n - 1 ≡ n = omega arith in
      rw (query_invalid_records, from_one) (rw stays (rw back refl))

  take-more :
      (m n k : ℕ) (rows : List A) → k ≡ m + n → take m rows ++ take n (drop m rows) ≡ take k rows
  take-more zero n k rows e = let same : n ≡ k = omega arith in ap (λ (j : ℕ). take j rows) same
  take-more (suc m) zero zero [] e = refl
  take-more (suc m) zero (suc k) [] e = refl
  take-more (suc m) (suc n) zero [] e = refl
  take-more (suc m) (suc n) (suc k) [] e = refl
  take-more (suc m) n zero (r ∷ rows) e = absurd (omega arith)
  take-more (suc m) n (suc k) (r ∷ rows) e = ap (◌∷◌ r) (take-more m n k rows (omega arith))

  pages-take :
      (rows : List A) (answers : ℕ → List A) (limit : ℤ) (n : ℕ)
      → ((k : ℕ) → answers k ≡ rows)
      → n ≤ max_page (length rows) (page_limit limit)
      → pages answers limit n ≡ take (n * page_limit limit) rows
  pages-take rows answers limit zero same h =
      ap (λ (k : ℕ). take k rows) (sym (zero-mul (page_limit limit)))
  pages-take rows answers limit (suc n) same h =
      ap
        (λ (l : List A).
          pages answers limit n ++ (query_invalid_records l (pos (suc n)) limit).records)
        (same n)
      ∙ ap (λ (l : List A). l ++ (query_invalid_records rows (pos (suc n)) limit).records)
          (pages-take rows answers limit n same (omega arith))
      ∙ ap (λ (l : List A). take (n * page_limit limit) rows ++ l) (page_in_range rows limit n h)
      ∙ take-more (n * page_limit limit) (page_limit limit) (suc n * page_limit limit) rows
          (omega arith)

  -- When no two of the rows that a date filter selects have the same time, and the database answers
  -- the query of each page with those rows, the newest first, then the pages from the first to the last
  -- one are, one after the other, exactly these rows in that order, whatever limit is asked for. The
  -- limit that is used is between 1 and 500, and the page that is answered with is between 1 and the
  -- last, whatever was asked for.
  pub query_invalid_records-pages :
      (created_at : A → ℕ) (rows : List A) (answers : ℕ → List A) (page limit : ℤ)
      → NewestFirst created_at rows
      → ((k : ℕ) → NewestFirst created_at (answers k))
      → ((k : ℕ) → SameRows (answers k) rows)
      → (pages answers limit (max_page (length rows) (page_limit limit)) ≡ rows)
        × (0 < (query_invalid_records rows page limit).limit)
        × ((query_invalid_records rows page limit).limit ≤ 500)
        × (0 < (query_invalid_records rows page limit).page)
        × ((query_invalid_records rows page limit).page ≤ max_page (length rows) (page_limit limit))
  unfolding query_invalid_records clamped_page first_page max_page
  query_invalid_records-pages created_at rows answers page limit sorted answered same =
      let (some_limit, few) = page_limit_bounds limit in
      let last : ℕ = max_page (length rows) (page_limit limit) in
      (
        pages-take rows answers limit last
              (λ k. NewestFirst-unique created_at (answers k) rows (answered k) sorted (same k))
              (omega arith)
            ∙ take_all (last * page_limit limit) rows
                (max_page-covers (length rows) (page_limit limit) some_limit),
        some_limit,
        few,
        ground arith,
        ground arith,
      )
