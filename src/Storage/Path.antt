-- ===== src/Storage/Path.antt =====
-- internal/storage/postgres.go: `QueryPathPoints`, with what its query selects. The rows are those of
-- gps_records, ordered by the time of the device and the id, with the columns that the query extracts.
pub mod Stops
pub mod Shown
use gps_data_receiver.Prelude.{
  ℕ, ◌==◌, ◌&&◌, List, [], ◌∷◌, ◌++◌, Bool, true, false, not, if◌then◌else◌, ltb, length, bytes_eq,
  codes, take,
}
use gps_data_receiver.Prelude.Int.{ℤ, pos, negsuc}
use gps_data_receiver.Prelude.Result.{Result, ok, err}
use gps_data_receiver.Parser.Data.{Bytes}

-- `F` is the type of the floats.
pub record PathPoint (F : Type 0) : Type 0 where
  pub id : ℕ
  pub imei : Bytes
  pub lat : F
  pub lng : F
  pub speed : F
  pub status : ℕ
  pub date_time : Bytes

pub record PathRow (F : Type 0) : Type 0 where
  pub point : PathPoint F
  pub has_coordinate : Bool

-- The days as the text that they are formatted to; a limit may be any int.
pub record PathQueryFilter : Type 0 where
  pub date_start : Bytes
  pub date_end : Bytes
  pub imei : Bytes
  pub limit : ℤ

-- Whether the database answers, its comparison of texts and of a float with 0, and the rows.
pub record PathTable (F : Type 0) : Type 0 where
  pub answers : Bool
  pub text_less : Bytes → Bytes → Bool
  pub is_zero : F → Bool
  pub rows : List (PathRow F)

pub data PathError : Type 0 where
  imei_is_required query_failed : PathError

unfoldable pub path_limit : ℤ → ℕ
path_limit (negsuc n) = 50000
path_limit (pos n) = if n == 0 then 50000 else if ltb 200000 n then 200000 else n

abbrev pub midnight : Bytes → Bytes
midnight day = day ++ codes " 00:00:00"

module _ {F : Type 0} (db : PathTable F) where
  abbrev pub is_stop : PathPoint F → Bool
  is_stop p = db.is_zero p.speed

  -- The WHERE clause of `base`.
  abbrev pub is_based : PathQueryFilter → PathPoint F → Bool
  is_based filter p =
      bytes_eq p.imei filter.imei
      && not (db.text_less p.date_time (midnight filter.date_start))
      && db.text_less p.date_time (midnight filter.date_end)

  unfoldable pub base : PathQueryFilter → List (PathRow F) → List (PathPoint F)
  base filter [] = []
  base filter (r ∷ rows) =
      let rest = base filter rows in
      if is_based filter r.point && r.has_coordinate then r.point ∷ rest else rest

  -- `WHERE NOT (is_stop AND prev_is_stop)`, with the LAG of the row before.
  unfoldable pub without_repeated_stops : Bool → List (PathPoint F) → List (PathPoint F)
  without_repeated_stops prev_is_stop [] = []
  without_repeated_stops prev_is_stop (p ∷ points) =
      let rest = without_repeated_stops (is_stop p) points in
      if not (is_stop p && prev_is_stop) then p ∷ rest else rest

  unfoldable pub query_path_points : PathQueryFilter → Result PathError (List (PathPoint F))
  unfolding path_limit base without_repeated_stops
  query_path_points filter =
      if length filter.imei == 0
      then err imei_is_required
      else if db.answers
      then ok (take (path_limit filter.limit) (without_repeated_stops false (base filter db.rows)))
      else err query_failed
