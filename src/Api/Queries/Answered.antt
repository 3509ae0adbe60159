-- ===== src/Api/Queries/Answered.antt =====
-- internal/api/path.go: what the endpoint for paths answers.
use gps_data_receiver.Prelude.{
  ℕ, ◌==◌, ◌+◌, ◌≡◌, refl, ap, ◌∙◌, subst, sym, List, [], Option, none, some, Bool-cases, true, inl,
  inr, length, codes,
}
use gps_data_receiver.Prelude.Result.{Result, ok, err}
use gps_data_receiver.Parser.Data.{Bytes}
use gps_data_receiver.Storage.Rows.{matches_imei}
use gps_data_receiver.Storage.Path.{PathPoint, PathTable, PathError, query_path_points}
use gps_data_receiver.Storage.Path.Shown.{IsPath, query_path_points-IsPath}
use gps_data_receiver.Api.Queries.{
  Calendar, QueryAnswer, fails, shows, show_found, path_filter, path_of_day, query_gps_path,
}

module _ {F : Type 0} (calendar : Calendar) (db : PathTable F) where
  -- What is shown for the date and the IMEI of a query.
  abbrev pub IsPathAnswer : (Bytes → Bytes) → List (PathPoint F) → ℕ → Bytes → Bytes → Type 0
  IsPathAnswer query points count date imei =
      (day : ℕ) × (query (codes "date") ≡ date)
      × (query (codes "imei") ≡ imei)
      × (calendar.parse_date date ≡ some day)
      × (matches_imei imei ≡ true)
      × (count ≡ length points)
      × IsPath db 50_000 (calendar.format_date day) (calendar.format_date (day + 86_400)) imei
          points

  abbrev points_of : QueryAnswer (PathPoint F) → List (PathPoint F)
  points_of (fails status error) = []
  points_of (shows points count date imei) = points

  abbrev count_of : QueryAnswer (PathPoint F) → ℕ
  count_of (fails status error) = 0
  count_of (shows points count date imei) = count

  abbrev date_of : QueryAnswer (PathPoint F) → Bytes
  date_of (fails status error) = []
  date_of (shows points count date imei) = date

  abbrev imei_of : QueryAnswer (PathPoint F) → Bytes
  imei_of (fails status error) = []
  imei_of (shows points count date imei) = imei

  show_found-shows :
      (failure date imei : Bytes) (found : Result PathError (List (PathPoint F)))
      (points : List (PathPoint F)) (count : ℕ) (shown_date shown_imei : Bytes)
      → show_found failure date imei found ≡ shows points count shown_date shown_imei
      → (found ≡ ok points) × (count ≡ length points) × (date ≡ shown_date) × (imei ≡ shown_imei)
  show_found-shows failure date imei (err e) points count shown_date shown_imei same =
      absurd (cc same)
  show_found-shows failure date imei (ok found) points count shown_date shown_imei same = (
    ap (λ (a : QueryAnswer (PathPoint F)). ok (points_of a)) same,
    sym (ap count_of same) ∙ ap (λ (a : QueryAnswer (PathPoint F)). length (points_of a)) same,
    ap date_of same,
    ap imei_of same,
  )

  path_of_day-shows :
      (date imei : Bytes) (day : ℕ) (points : List (PathPoint F)) (count : ℕ)
      (shown_date shown_imei : Bytes)
      → path_of_day calendar db date imei day ≡ shows points count shown_date shown_imei
      → (matches_imei imei ≡ true)
        × (query_path_points db (path_filter calendar day imei) ≡ ok points)
        × (count ≡ length points)
        × (date ≡ shown_date)
        × (imei ≡ shown_imei)
  path_of_day-shows date imei day points count shown_date shown_imei e =
      elim (Bool-cases (length imei == 0)) [
        | inl missing ↦ absurd (cc (rw missing at e))
        | inr given ↦ elim (Bool-cases (matches_imei imei)) [
          | inr other ↦ absurd (cc (rw other at (rw given at e)))
          | inl digits ↦
              let (found, counted, dated, named) =
                show_found-shows (codes "Failed to query path points") date imei
                  (query_path_points db (path_filter calendar day imei)) points count shown_date
                  shown_imei (rw digits at (rw given at e)) in
              (digits, found, counted, dated, named)
        ]
      ]

  -- When the endpoint for paths shows points, the date of the query is one and its IMEI has fifteen
  -- digits; both are shown, with the number of the points. The points are 50000 at most. They are those
  -- of rows with a coordinate, in the order of the rows, all of this IMEI and from the midnight of that
  -- day on and before that of the day 24 hours later. No two stops follow one another. If they are
  -- fewer than 50000, every such row at which the device moves is among them, and a stop if there is a
  -- row at which it stops.
  pub query_gps_path-IsPathAnswer :
      (query : Bytes → Bytes) (points : List (PathPoint F)) (count : ℕ) (date imei : Bytes)
      → query_gps_path calendar (some db) query ≡ shows points count date imei
      → IsPathAnswer query points count date imei
  unfolding query_gps_path
  query_gps_path-IsPathAnswer query points count date imei e =
      elim (Bool-cases (length (query (codes "date")) == 0)) [
        | inl missing ↦ absurd (cc (rw missing at e))
        | inr given ↦ by_day (calendar.parse_date (query (codes "date"))) refl (rw given at e)
      ]
    where
      by_day :
          (parsed : Option ℕ)
          → calendar.parse_date (query (codes "date")) ≡ parsed
          → elim parsed as (λ (o : Option ℕ). QueryAnswer (PathPoint F)) [
            | none ↦ fails 400 (codes "invalid date format, expected YYYY-MM-DD")
            | some day ↦ path_of_day calendar db (query (codes "date")) (query (codes "imei")) day
          ]
            ≡ shows points count date imei
          → IsPathAnswer query points count date imei
      by_day none parses e = absurd (cc e)
      by_day (some day) parses e =
          let (digits, found, counted, dated, named) =
            path_of_day-shows (query (codes "date")) (query (codes "imei")) day points count date
              imei e in
          (
            day,
            dated,
            named,
            ap calendar.parse_date (sym dated) ∙ parses,
            ap matches_imei (sym named) ∙ digits,
            counted,
            subst
                (λ (i : Bytes).
                  IsPath db 50_000 (calendar.format_date day) (calendar.format_date (day + 86_400))
                    i points)
                named
                (query_path_points-IsPath db (path_filter calendar day (query (codes "imei")))
                  points found),
          )
