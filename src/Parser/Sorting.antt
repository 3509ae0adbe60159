-- ===== src/Parser/Sorting.antt =====
-- A sort by dates, to stand for Go's sort.Slice in the tests of internal/parser.
use mathlib.Core.List.{Permᴰ}
use mathlib.Core.List.Permᴰ
use gps_data_receiver.Prelude.{
  ◌≡◌, refl, List, [], ◌∷◌, Bool-cases, true, false, inl, inr, arith, All,
}
use gps_data_receiver.Parser.Data.{Bytes, ParsedGpsData}
use gps_data_receiver.Parser.Hooshnic.Items.Accounted.{text_lt, Ascending, Sorts}

text_lt_asym : (xs ys : Bytes) → text_lt xs ys ≡ true → text_lt ys xs ≡ false
unfolding text_lt
text_lt_asym [] [] h = refl
text_lt_asym [] (y ∷ ys) h = refl
text_lt_asym (x ∷ xs) [] h = absurd (cc h)
text_lt_asym (x ∷ xs) (y ∷ ys) h = let later = text_lt_asym xs ys in ground arith

text_lt_trans :
    (xs ys zs : Bytes) → text_lt ys xs ≡ false → text_lt zs ys ≡ false → text_lt zs xs ≡ false
unfolding text_lt
text_lt_trans [] [] zs h k = k
text_lt_trans [] (y ∷ ys) [] h k = absurd (cc k)
text_lt_trans [] (y ∷ ys) (z ∷ zs) h k = refl
text_lt_trans (x ∷ xs) [] zs h k = absurd (cc h)
text_lt_trans (x ∷ xs) (y ∷ ys) [] h k = absurd (cc k)
text_lt_trans (x ∷ xs) (y ∷ ys) (z ∷ zs) h k = let later = text_lt_trans xs ys zs in ground arith

module _ {F : Type 0} where
  abbrev NotBefore : ParsedGpsData F → ParsedGpsData F → Type 0
  NotBefore r s = text_lt s.date_time r.date_time ≡ false

  insert_by_date : ParsedGpsData F → List (ParsedGpsData F) → List (ParsedGpsData F)
  insert_by_date r [] = r ∷ []
  insert_by_date r (s ∷ ss) = elim (text_lt s.date_time r.date_time) [
    | true ↦ s ∷ insert_by_date r ss
    | false ↦ r ∷ s ∷ ss
  ]

  unfoldable pub sort_by_date : List (ParsedGpsData F) → List (ParsedGpsData F)
  unfolding insert_by_date
  sort_by_date [] = []
  sort_by_date (r ∷ rs) = insert_by_date r (sort_by_date rs)

  insert_by_date-perm :
      (r : ParsedGpsData F) (ss : List (ParsedGpsData F)) → Permᴰ (insert_by_date r ss) (r ∷ ss)
  unfolding insert_by_date
  insert_by_date-perm r [] = Permᴰ.refl (r ∷ [])
  insert_by_date-perm r (s ∷ ss) = elim (Bool-cases (text_lt s.date_time r.date_time)) [
    | inl before ↦
        rw (insert_by_date, before)
          (Permᴰ.trans (Permᴰ.cons refl (insert_by_date-perm r ss)) (Permᴰ.swap refl refl))
    | inr after ↦ rw (insert_by_date, after) (Permᴰ.refl (r ∷ s ∷ ss))
  ]

  All-insert_by_date :
      (q r : ParsedGpsData F) (ss : List (ParsedGpsData F))
      → NotBefore q r
      → All (NotBefore q) ss
      → All (NotBefore q) (insert_by_date r ss)
  unfolding insert_by_date
  All-insert_by_date q r [] h hs = (h, tt)
  All-insert_by_date q r (s ∷ ss) h (k, ks) = elim (Bool-cases (text_lt s.date_time r.date_time)) [
    | inl before ↦ rw (insert_by_date, before) (k, All-insert_by_date q r ss h ks)
    | inr after ↦ rw (insert_by_date, after) (h, (k, ks))
  ]

  All-NotBefore :
      (r s : ParsedGpsData F) (ss : List (ParsedGpsData F))
      → NotBefore r s
      → All (NotBefore s) ss
      → All (NotBefore r) ss
  All-NotBefore r s [] h hs = tt
  All-NotBefore r s (t ∷ ts) h (k, ks) =
      (text_lt_trans r.date_time s.date_time t.date_time h k, All-NotBefore r s ts h ks)

  insert_by_date-Ascending :
      (r : ParsedGpsData F) (ss : List (ParsedGpsData F))
      → Ascending ss
      → Ascending (insert_by_date r ss)
  unfolding insert_by_date
  insert_by_date-Ascending r [] h = (tt, tt)
  insert_by_date-Ascending r (s ∷ ss) (h, hs) =
      elim (Bool-cases (text_lt s.date_time r.date_time)) [
        | inl before ↦
            rw (insert_by_date, before)
              (
                All-insert_by_date s r ss (text_lt_asym s.date_time r.date_time before) h,
                insert_by_date-Ascending r ss hs,
              )
        | inr after ↦ rw (insert_by_date, after) ((after, All-NotBefore r s ss after h), (h, hs))
      ]

  pub sort_by_date-Sorts : Sorts sort_by_date
  unfolding sort_by_date
  sort_by_date-Sorts [] = (Permᴰ.nil, tt)
  sort_by_date-Sorts (r ∷ rs) =
      let (same, ascends) = sort_by_date-Sorts rs in
      (
        Permᴰ.trans (insert_by_date-perm r (sort_by_date rs)) (Permᴰ.cons refl same),
        insert_by_date-Ascending r (sort_by_date rs) ascends,
      )
