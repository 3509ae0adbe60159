-- ===== src/Api/Queries.antt =====
-- internal/api/path.go, analysis.go, failed.go, invalid.go: the endpoints that read from the database.
pub mod Answered
pub mod Invalid
use gps_data_receiver.Prelude.{
  ℕ, ◌==◌, ◌&&◌, ◌+◌, List, [], ◌∷◌, Option, none, some, Bool, true, false, not, if◌then◌else◌,
  length, codes,
}
use gps_data_receiver.Prelude.Int.{ℤ, pos}
use gps_data_receiver.Prelude.Result.{Result, ok, err}
use gps_data_receiver.Parser.Data.{Bytes}
use gps_data_receiver.Storage.Rows.{matches_imei}
use gps_data_receiver.Storage.Select.{
  QueryFilter, StoredRecord, FailedRecord, Table, select_rows, query_records, query_failed_records,
}
use gps_data_receiver.Storage.Path.{
  PathPoint, PathTable, PathQueryFilter, PathError, query_path_points,
}
use gps_data_receiver.Storage.Invalid.{PaginatedInvalidRecords, query_invalid_records}

-- The time library in the zone of Tehran: a day as the instant at which it begins, in seconds, and the
-- day of an instant.
pub record Calendar : Type 0 where
  pub parse_date : Bytes → Option ℕ
  pub format_date : ℕ → Bytes

-- An error, or what was found, with its count, the date and the IMEI of the query.
pub data QueryAnswer (A : Type 0) : Type 0 where
  fails : ℕ → Bytes → QueryAnswer A
  shows : List A → ℕ → Bytes → Bytes → QueryAnswer A

abbrev pub no_store : {A : Type 0} → QueryAnswer A
no_store = fails 503 (codes "Database storage is not enabled")

abbrev pub day_seconds : ℕ
day_seconds = 86_400

-- The tests of the date, and what is done with the day.
abbrev pub with_day : {A : Type 0} → Calendar → Bytes → (ℕ → QueryAnswer A) → QueryAnswer A
with_day calendar date next =
    if length date == 0
    then fails 400 (codes "date query parameter is required (YYYY-MM-DD)")
    else elim (calendar.parse_date date) [
      | none ↦ fails 400 (codes "invalid date format, expected YYYY-MM-DD")
      | some day ↦ next day
    ]

module _ {A E : Type 0} where
  abbrev pub show_found : Bytes → Bytes → Bytes → Result E (List A) → QueryAnswer A
  show_found failure date imei (err e) = fails 500 failure
  show_found failure date imei (ok found) = shows found (length found) date imei

  -- The common shape of QueryGPSRecords and QueryFailedGPSRecords; `query` is what the store does.
  abbrev query_of_day :
      Bytes → Calendar → (QueryFilter → Result E (List A)) → (Bytes → Bytes) → QueryAnswer A
  query_of_day failure calendar store query =
      let date = query (codes "date") in
      let imei = query (codes "imei") in
      with_day calendar date (λ day.
        if not (length imei == 0) && not (matches_imei imei)
        then fails 400 (codes "imei must be exactly 15 digits")
        else show_found failure date imei (
            store (record {
              date_start = calendar.format_date day;
              date_end = calendar.format_date (day + day_seconds);
              imei = imei;
              limit = pos 5000;
            })))

unfoldable pub query_gps_records :
    Calendar → Option (Table StoredRecord) → (Bytes → Bytes) → QueryAnswer StoredRecord
unfolding matches_imei select_rows
query_gps_records calendar none query = no_store
query_gps_records calendar (some db) query =
    query_of_day (codes "Failed to query records") calendar (query_records db) query

unfoldable pub query_failed_gps_records :
    Calendar → Option (Table FailedRecord) → (Bytes → Bytes) → QueryAnswer FailedRecord
unfolding matches_imei select_rows
query_failed_gps_records calendar none query = no_store
query_failed_gps_records calendar (some db) query =
    query_of_day (codes "Failed to query failed records") calendar (query_failed_records db) query

abbrev pub path_filter : Calendar → ℕ → Bytes → PathQueryFilter
path_filter calendar day imei = record {
  date_start = calendar.format_date day;
  date_end = calendar.format_date (day + day_seconds);
  imei = imei;
  limit = pos 50_000;
}

module _ {F : Type 0} where
  abbrev pub path_of_day : Calendar → PathTable F → Bytes → Bytes → ℕ → QueryAnswer (PathPoint F)
  path_of_day calendar db date imei day =
      if length imei == 0
      then fails 400 (codes "imei query parameter is required")
      else if not (matches_imei imei)
      then fails 400 (codes "imei must be exactly 15 digits")
      else show_found (codes "Failed to query path points") date imei
          (query_path_points db (path_filter calendar day imei))

  unfoldable pub query_gps_path :
      Calendar → Option (PathTable F) → (Bytes → Bytes) → QueryAnswer (PathPoint F)
  unfolding matches_imei query_path_points
  query_gps_path calendar none query = no_store
  query_gps_path calendar (some db) query =
      let date = query (codes "date") in
      let imei = query (codes "imei") in with_day calendar date (path_of_day calendar db date imei)
