-- ===== src/Api/Queries/Invalid.antt =====
-- internal/api/invalid.go: the endpoint for invalid records.
use gps_data_receiver.Prelude.{ℕ, ◌==◌, ◌+◌, List, Option, none, some, if◌then◌else◌, length, codes}
use gps_data_receiver.Prelude.Int.{ℤ}
use gps_data_receiver.Parser.Data.{Bytes}
use gps_data_receiver.Storage.Invalid.{PaginatedInvalidRecords, query_invalid_records}
use gps_data_receiver.Api.Queries.{Calendar, day_seconds}

-- What QueryInvalidGPSRecords answers.
pub data InvalidAnswer (A : Type 0) : Type 0 where
  invalid_fails : ℕ → Bytes → InvalidAnswer A
  invalid_shows : PaginatedInvalidRecords A → InvalidAnswer A

-- What the database holds for a range of instants, or for all time, if it answers.
abbrev pub InvalidTable : Type 0 → Type 0
InvalidTable A = Option (ℕ × ℕ) → Option (List A)

-- `atoi` is the number that strconv.Atoi returns, with an error too; `default` stands for a query
-- without the parameter.
abbrev number_query : (Bytes → ℤ) → (Bytes → Option Bytes) → Bytes → Bytes → ℤ
number_query atoi query name default = elim (query name) [
  | none ↦ atoi default
  | some text ↦ atoi text
]

module _ {A : Type 0} (calendar : Calendar) (atoi : Bytes → ℤ) where
  abbrev invalid_page : InvalidTable A → Option (ℕ × ℕ) → ℤ → ℤ → InvalidAnswer A
  invalid_page table range page limit = elim (table range) [
    | none ↦ invalid_fails 500 (codes "Failed to query invalid records")
    | some rows ↦ invalid_shows (query_invalid_records rows page limit)
  ]

  unfoldable pub query_invalid_gps_records :
      Option (InvalidTable A) → (Bytes → Option Bytes) → InvalidAnswer A
  unfolding query_invalid_records
  query_invalid_gps_records none query = invalid_fails 503 (codes "Database storage is not enabled")
  query_invalid_gps_records (some table) query =
      let page = number_query atoi query (codes "page") (codes "1") in
      let limit = number_query atoi query (codes "limit") (codes "50") in
      elim (query (codes "date")) [
        | none ↦ invalid_page table none page limit
        | some date ↦
            if length date == 0
            then invalid_page table none page limit
            else elim (calendar.parse_date date) [
              | none ↦ invalid_fails 400 (codes "invalid date format, expected YYYY-MM-DD")
              | some day ↦ invalid_page table (some (day, day + day_seconds)) page limit
            ]
      ]
