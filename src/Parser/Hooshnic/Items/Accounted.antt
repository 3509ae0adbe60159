-- ===== src/Parser/Hooshnic/Items/Accounted.antt =====
-- internal/parser/parser.go: every payload of a message ends as one record or as one invalid record.
use mathlib.Core.List.{Permᴰ}
use mathlib.Core.List.Permᴰ
use gps_data_receiver.Prelude.{
  ◌==◌, ◌≡◌, refl, ap, sym, ◌∙◌, subst, List, [], ◌∷◌, ◌++◌, append_assoc, Bool, Bool-cases, true,
  false, inl, inr, if◌then◌else◌, ltb, length, codes, map, All, arith,
}
use gps_data_receiver.Prelude.Result.{Result, ok, err, ◌>>=◌}
use gps_data_receiver.Parser.Data.{Bytes, ParsedGpsData, InvalidRecord, ParseResult}
use gps_data_receiver.Parser.Hooshnic.Items.{
  HooshnicLibrary, wrap, split, process_data_item, item_of_fields, keep_processed,
  process_data_items, finish_hooshnic, decode_json_data, parse_hooshnic_json, Processed,
  convert_nmea_to_decimal_degrees, parse_date_time, field,
}

-- Go's < on strings, byte by byte.
unfoldable pub text_lt : Bytes → Bytes → Bool
text_lt xs [] = false
text_lt [] (y ∷ ys) = true
text_lt (x ∷ xs) (y ∷ ys) =
    let rest = text_lt xs ys in if ltb x y then true else if x == y then rest else false

module _ {F : Type 0} where
  -- No record has a date before one that stands ahead of it.
  abbrev pub Ascending : List (ParsedGpsData F) → Type 0
  Ascending [] = Unit
  Ascending (r ∷ rs) =
      All (λ (s : ParsedGpsData F). text_lt s.date_time r.date_time ≡ false) rs × Ascending rs

  -- What sort.Slice documents.
  abbrev pub Sorts : (List (ParsedGpsData F) → List (ParsedGpsData F)) → Type 0
  Sorts sort = (rs : List (ParsedGpsData F)) → Permᴰ (sort rs) rs × Ascending (sort rs)

  abbrev pub raw_records : List (ParsedGpsData F) → List Bytes
  raw_records = map (λ (r : ParsedGpsData F). r.raw_data)

abbrev pub raw_invalid : List InvalidRecord → List Bytes
raw_invalid = map (λ (r : InvalidRecord). r.raw_data)

All-Permᴰ : {A : Type 0} (P : A → Type 0) {xs ys : List A} → Permᴰ xs ys → All P ys → All P xs
All-Permᴰ P Permᴰ.nil h = h
All-Permᴰ P (Permᴰ.cons e p) (h, hs) = (subst P (sym e) h, All-Permᴰ P p hs)
All-Permᴰ P (Permᴰ.swap e f) (h, (k, hs)) = (subst P (sym e) k, (subst P (sym f) h, hs))
All-Permᴰ P (Permᴰ.trans p q) h = All-Permᴰ P p (All-Permᴰ P q h)

module _ {F : Type 0} (lib : HooshnicLibrary F) where
  abbrev raw_of : Bytes → Result Bytes (ParsedGpsData F) → Bytes
  raw_of text (err e) = text
  raw_of text (ok r) = r.raw_data

  abbrev RawKept : (text : Bytes) → Result Bytes (ParsedGpsData F) → Type 0
  RawKept text (err e) = Unit
  RawKept text (ok r) = r.raw_data ≡ text

  item_of_fields-raw :
      (text : Bytes) (fields : List Bytes) → RawKept text (item_of_fields lib text fields)
  unfolding item_of_fields wrap
  item_of_fields-raw text fields =
      by_results (convert_nmea_to_decimal_degrees lib (field lib fields 1) (field lib fields 2))
        (parse_date_time lib (field lib fields 4) (field lib fields 5))
    where
      by_results :
          (place : Result Bytes (F × F)) (date : Result Bytes Bytes)
          → RawKept text (
              wrap (codes "failed to convert coordinates: ") place >>= (λ (p : F × F).
                wrap (codes "failed to parse date/time: ") date >>= (λ (d : Bytes). ok (record {
                  lat = p.0;
                  lon = p.1;
                  speed = lib.atoi (field lib fields 6);
                  status = lib.atoi (field lib fields 8);
                  ew = lib.atoi (field lib fields 9);
                  ns = lib.atoi (field lib fields 10);
                  date_time = d;
                  imei = field lib fields 11;
                  raw_data = text;
                }))))
      by_results (err e) date = tt
      by_results (ok p) (err e) = tt
      by_results (ok p) (ok d) = refl

  process_data_item-raw : (text : Bytes) → RawKept text (process_data_item lib text)
  unfolding process_data_item
  process_data_item-raw text = elim (Bool-cases (length (split b',' text) == 12)) [
    | inl twelve ↦ rw (process_data_item, twelve) (item_of_fields-raw text (split b',' text))
    | inr other ↦ rw (process_data_item, other) tt
  ]

  -- A record is the reading of its own payload.
  abbrev pub IsReading : ParsedGpsData F → Type 0
  IsReading r = process_data_item lib r.raw_data ≡ ok r

  abbrev Accounts : List Bytes → Processed lib → Type 0
  Accounts items (records, invalid) =
      Permᴰ (raw_records records ++ raw_invalid invalid) items × All IsReading records

  keep_processed-Accounts :
      (text : Bytes) (result : Result Bytes (ParsedGpsData F)) (items : List Bytes)
      (rest : Processed lib)
      → RawKept text result
      → ((r : ParsedGpsData F) → result ≡ ok r → process_data_item lib text ≡ ok r)
      → Accounts items rest
      → Accounts (text ∷ items) (keep_processed lib text result rest)
  unfolding keep_processed
  keep_processed-Accounts text (err e) items (records, invalid) kept reads (p, all) = (
    Permᴰ.trans (Permᴰ.middle text (raw_records records) (raw_invalid invalid)) (Permᴰ.cons refl p),
    all,
  )
  keep_processed-Accounts text (ok r) items (records, invalid) kept reads (p, all) =
      (Permᴰ.cons kept p, (ap (process_data_item lib) kept ∙ reads r refl, all))

  process_data_items-Accounts : (items : List Bytes) → Accounts items (process_data_items lib items)
  unfolding process_data_items
  process_data_items-Accounts [] = (Permᴰ.nil, tt)
  process_data_items-Accounts ([] ∷ items) =
      keep_processed-Accounts [] (err (codes "empty data field")) items
        (process_data_items lib items) tt (λ r e. absurd (cc e)) (process_data_items-Accounts items)
  process_data_items-Accounts ((c ∷ cs) ∷ items) =
      keep_processed-Accounts (c ∷ cs) (process_data_item lib (c ∷ cs)) items
        (process_data_items lib items) (process_data_item-raw (c ∷ cs)) (λ r e. e)
        (process_data_items-Accounts items)

map-append : {A B : Type 0} (f : A → B) (xs ys : List A) → map f (xs ++ ys) ≡ map f xs ++ map f ys
map-append f [] ys = refl
map-append f (x ∷ xs) ys = ap (◌∷◌ (f x)) (map-append f xs ys)

to_front : {A : Type 0} (xs ys zs : List A) → Permᴰ (xs ++ (ys ++ zs)) (ys ++ (xs ++ zs))
to_front xs ys zs =
    subst (λ l. Permᴰ l (ys ++ (xs ++ zs))) (append_assoc xs ys zs)
      (subst (λ l. Permᴰ (xs ++ ys ++ zs) l) (append_assoc ys xs zs)
        (Permᴰ.append_right zs (Permᴰ.append_comm xs ys)))

module _ {F : Type 0} (lib : HooshnicLibrary F) (sorts : Sorts lib.sort_by_date_time) where
  abbrev pub Accounted : List Bytes → List InvalidRecord → ParseResult F → Type 0
  Accounted items decode_invalid r =
      Permᴰ (raw_records r.records ++ raw_invalid r.invalid) (raw_invalid decode_invalid ++ items)
      × All (IsReading lib) r.records
      × Ascending r.records

  processed-Accounted :
      (items : List Bytes) (decode_invalid : List InvalidRecord) (done : Processed lib)
      → Accounts lib items done
      → Accounted items decode_invalid
          (record { records = lib.sort_by_date_time done.0; invalid = decode_invalid ++ done.1 })
  processed-Accounted items decode_invalid (records, invalid) (p, readings) =
      let (same, ascends) = sorts records in
      let front = raw_invalid decode_invalid in
      (
        subst (λ l. Permᴰ (raw_records (lib.sort_by_date_time records) ++ l) (front ++ items))
            (sym (map-append (λ (r : InvalidRecord). r.raw_data) decode_invalid invalid))
            (Permᴰ.trans
              (Permᴰ.append_right (front ++ raw_invalid invalid)
                (Permᴰ.map (λ (r : ParsedGpsData F). r.raw_data) same))
              (Permᴰ.trans (to_front (raw_records records) front (raw_invalid invalid))
                (Permᴰ.append_left front p))),
        All-Permᴰ (IsReading lib) same readings,
        ascends,
      )

  finish_hooshnic-Accounted :
      (items : List Bytes) (decode_invalid : List InvalidRecord)
      → Accounted items decode_invalid (finish_hooshnic lib (items, decode_invalid))
  unfolding finish_hooshnic
  finish_hooshnic-Accounted [] [] = (Permᴰ.nil, tt, tt)
  finish_hooshnic-Accounted (i ∷ is) invalid =
      let some_items : (length (i ∷ is) == 0) ≡ false = ground arith in
      rw (finish_hooshnic, some_items)
        (processed-Accounted (i ∷ is) invalid (process_data_items lib (i ∷ is))
          (process_data_items-Accounts lib (i ∷ is)))
  finish_hooshnic-Accounted [] (v ∷ vs) =
      let some_invalid : (length (v ∷ vs) == 0) ≡ false = ground arith in
      rw (finish_hooshnic, some_invalid)
        (processed-Accounted [] (v ∷ vs) (process_data_items lib [])
          (process_data_items-Accounts lib []))

  -- A message that decodes, whole or object by object, is parsed, and no payload gets lost or counted
  -- twice: the raw payloads of the records and of the invalid records together are the items and the
  -- fragments that the decoding reports, in some order. Each record is the reading of its own payload,
  -- and the records stand in the order of their dates, provided that sort.Slice sorts.
  pub parse_hooshnic_json-Accounted :
      (json : Bytes) (items : List Bytes) (decode_invalid : List InvalidRecord)
      → decode_json_data lib json ≡ ok (items, decode_invalid)
      → (r : ParseResult F) × (parse_hooshnic_json lib json ≡ ok r)
        × Accounted items decode_invalid r
  unfolding parse_hooshnic_json wrap
  parse_hooshnic_json-Accounted json items decode_invalid decodes = (
    finish_hooshnic lib (items, decode_invalid),
    rw (parse_hooshnic_json, decodes) refl,
    finish_hooshnic-Accounted items decode_invalid,
  )
