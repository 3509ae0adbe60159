-- ===== src/Storage/Rows/Bound.antt =====
-- internal/storage/postgres.go: each row of a batch gets its own values.
use gps_data_receiver.Prelude.{
  ℕ, zero, suc, ◌+◌, ◌-◌, ◌*◌, ◌≡◌, inl, inr, refl, ap, sym, ◌∙◌, List, [], ◌∷◌, ◌++◌, append_assoc,
  arith, Bool, Bool-cases, true, false, length, length-append, get_or, get_or-append, map, All,
  codes, if◌then◌else◌, Option, none, some, ◌&&◌, ◌==◌,
}
use gps_data_receiver.Parser.Data.{Bytes, ParsedGpsData, InvalidRecord}
use gps_data_receiver.Storage.Rows.{
  GpsRecordRow, SqlValue, text, Insert, Database, Stored, committed, numbers_from,
  value_placeholders, arguments, batch_insert, transact, record_values, failed_values,
  invalid_values, store_invalid_records, prepare_gps_record_rows, prepare_gps_failed_record_rows,
  store_rows, store_records, store_failed_records, row_of, matches_imei,
}

-- What the database inserts: the placeholder $n is the n-th argument.
abbrev pub bound : List SqlValue → List (List ℕ) → List (List SqlValue)
bound args = map (map (λ (n : ℕ). get_or args (n - 1) (text [])))

abbrev pub inserted_rows : Insert → List (List SqlValue)
inserted_rows insert = bound insert.args insert.placeholders

bound-numbers_from :
    (front vs back : List SqlValue) (base count : ℕ)
    → base ≡ length front + 1
    → length vs ≡ count
    → map (λ (n : ℕ). get_or (front ++ (vs ++ back)) (n - 1) (text [])) (numbers_from base count)
      ≡ vs
unfolding numbers_from
bound-numbers_from front [] back base zero at_base width = refl
bound-numbers_from front [] back base (suc count) at_base width = absurd (omega arith)
bound-numbers_from front (v ∷ vs) back base zero at_base width = absurd (omega arith)
bound-numbers_from front (v ∷ vs) back base (suc count) at_base width =
    let here : base - 1 ≡ length front = omega arith in
    let size = length-append front (v ∷ []) in
    let whole : front ++ (v ∷ vs ++ back) ≡ (front ++ v ∷ []) ++ (vs ++ back) =
      sym (append_assoc front (v ∷ []) (vs ++ back)) in
    let first : get_or (front ++ (v ∷ vs ++ back)) (base - 1) (text []) ≡ v =
      ap (λ (i : ℕ). get_or (front ++ (v ∷ vs ++ back)) i (text [])) here
      ∙ get_or-append front (vs ++ back) v (text []) in
    let others =
      ap
        (λ (l : List SqlValue).
          map (λ (n : ℕ). get_or l (n - 1) (text [])) (numbers_from (suc base) count))
        whole
      ∙ bound-numbers_from (front ++ v ∷ []) vs back (suc base) count (omega arith) (omega arith) in
    λ i. first i ∷ others i

module _ {A : Type 0} (columns : ℕ) (values : A → List SqlValue)
    (wide : (a : A) → length (values a) ≡ columns) where
  bound-from :
      (rows : List A) (i : ℕ) (front : List SqlValue)
      → length front ≡ i * columns
      → bound (front ++ arguments values rows) (value_placeholders columns i rows) ≡ map values rows
  unfolding arguments value_placeholders
  bound-from [] i front size = refl
  bound-from (r ∷ rows) i front size =
      let more = length-append front (values r) in
      let width = wide r in
      let next : (suc i) * columns ≡ i * columns + columns = omega arith in
      let first =
        bound-numbers_from front (values r) (arguments values rows) (i * columns + 1) columns
          (omega arith) width in
      let others =
        ap (λ (l : List SqlValue). bound l (value_placeholders columns (suc i) rows))
          (sym (append_assoc front (values r) (arguments values rows)))
        ∙ bound-from rows (suc i) (front ++ values r) (omega arith) in
      λ j. first j ∷ others j

  inserted_rows-batch :
      (table : Bytes) (rows : List A)
      → inserted_rows (batch_insert table columns values rows) ≡ map values rows
  inserted_rows-batch table rows = bound-from rows 0 [] (omega arith)

-- What is in the table after it.
abbrev pub stored_rows : Stored → List (List SqlValue)
stored_rows (committed insert) = inserted_rows insert
stored_rows _ = []

abbrev pub succeeds : Database → Bool
succeeds db = db.begins && db.executes && db.commits

transact_lem :
    (db : Database) (insert : Insert)
    → stored_rows (transact db insert) ≡ (if succeeds db then inserted_rows insert else [])
unfolding transact
transact_lem db insert = elim (Bool-cases db.begins) [
  | inr fails ↦ rw fails refl
  | inl begins ↦ elim (Bool-cases db.executes) [
    | inr fails ↦ rw (begins, fails) refl
    | inl executes ↦ elim (Bool-cases db.commits) [
      | inr fails ↦ rw (begins, executes, fails) refl
      | inl commits ↦ rw (begins, executes, commits) refl
    ]
  ]
]

no_rows : {A : Type 0} (b : Bool) → (if b then [] else []) ≡ (let none : List A = [] in none)
no_rows true = refl
no_rows false = refl

module _ {F : Type 0} (marshal : ParsedGpsData F → Option Bytes) where
  store_rows_lem :
      {A : Type 0} (db : Database) (table : Bytes) (columns : ℕ) (values : A → List SqlValue)
      (rows : List A)
      → ((a : A) → length (values a) ≡ columns)
      → stored_rows (store_rows marshal db table columns values rows)
        ≡ (if succeeds db then map values rows else [])
  unfolding store_rows
  store_rows_lem db table columns values [] wide = sym (no_rows (succeeds db))
  store_rows_lem db table columns values (r ∷ rows) wide =
      transact_lem db (batch_insert table columns values (r ∷ rows))
      ∙ ap (λ (l : List (List SqlValue)). if succeeds db then l else [])
          (inserted_rows-batch columns values wide table (r ∷ rows))

  abbrev pub IsStorable : GpsRecordRow → Type 0
  IsStorable r = matches_imei r.imei ≡ true

  prepare_gps_record_rows-IsStorable :
      (records : List (ParsedGpsData F)) → All IsStorable (prepare_gps_record_rows marshal records)
  unfolding prepare_gps_record_rows
  prepare_gps_record_rows-IsStorable [] = tt
  prepare_gps_record_rows-IsStorable (r ∷ rs) =
      let others = prepare_gps_record_rows-IsStorable rs in
      elim (Bool-cases (length r.imei == 0)) [
        | inl missing ↦ rw missing others
        | inr given ↦ elim (Bool-cases (matches_imei r.imei)) [
          | inr bad ↦ rw (given, bad) others
          | inl good ↦
              rw (given, good)
                (by_json r (prepare_gps_record_rows marshal rs) (marshal r) others good)
        ]
      ]
    where
      by_json :
          (r : ParsedGpsData F) (rows : List GpsRecordRow) (json : Option Bytes)
          → All IsStorable rows
          → matches_imei r.imei ≡ true
          → All IsStorable (row_of marshal r json ++ rows)
      by_json r rows none others good = others
      by_json r rows (some j) others good = (good, others)

  -- A batch that the database begins, executes and commits puts exactly the rows that were prepared
  -- into the table, each with its own values, in their order, by the numbers of the placeholders; one
  -- that fails anywhere puts nothing there. So it is for delivered, failed and invalid records, and
  -- every row of a record has an IMEI of 15 digits.
  pub store_records_lem :
      (db : Database) (now : ℕ) (records : List (ParsedGpsData F)) (invalid : List InvalidRecord)
      (target_server error_message : Bytes)
      → (stored_rows (store_records marshal db now records) ≡ (
          if succeeds db
          then map (record_values now) (prepare_gps_record_rows marshal records)
          else []))
        × (stored_rows (store_failed_records marshal db now records target_server error_message) ≡ (
            if succeeds db
            then map
                (failed_values now)
                (prepare_gps_failed_record_rows marshal records target_server error_message)
            else []))
        × (stored_rows (store_invalid_records db now invalid)
            ≡ (if succeeds db then map (invalid_values now) invalid else []))
        × All IsStorable (prepare_gps_record_rows marshal records)
  unfolding store_records store_failed_records store_invalid_records store_rows
  store_records_lem db now records invalid target_server error_message = (
    store_rows_lem db (codes "gps_records") 4 (record_values now)
        (prepare_gps_record_rows marshal records) (λ r. refl),
    store_rows_lem db (codes "gps_failed_records") 6 (failed_values now)
        (prepare_gps_failed_record_rows marshal records target_server error_message) (λ r. refl),
    of_invalid invalid,
    prepare_gps_record_rows-IsStorable records,
  )
    where
      of_invalid :
          (rs : List InvalidRecord)
          → stored_rows (store_invalid_records db now rs)
            ≡ (if succeeds db then map (invalid_values now) rs else [])
      of_invalid [] = sym (no_rows (succeeds db))
      of_invalid (r ∷ rs) =
          store_rows_lem db (codes "gps_invalid_records") 3 (invalid_values now) (r ∷ rs)
            (λ r. refl)
