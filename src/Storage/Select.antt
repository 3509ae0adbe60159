-- ===== src/Storage/Select.antt =====
-- internal/storage/postgres.go: `QueryRecords` and `QueryFailedRecords`, with what their queries select.
-- The rows are those of the table, the newest first.
use gps_data_receiver.Prelude.{
  ℕ, ◌==◌, ◌&&◌, ◌||◌, List, [], ◌∷◌, Bool, not, if◌then◌else◌, length, bytes_eq, take,
}
use gps_data_receiver.Prelude.Int.{ℤ, pos, negsuc}
use gps_data_receiver.Prelude.Result.{Result, ok, err}
use gps_data_receiver.Parser.Data.{Bytes}
use gps_data_receiver.Storage.Path.{midnight}

-- The days as the text that they are formatted to; no IMEI stands for all.
pub record QueryFilter : Type 0 where
  pub date_start : Bytes
  pub date_end : Bytes
  pub imei : Bytes
  pub limit : ℤ

pub record StoredRecord : Type 0 where
  pub id : ℕ
  pub imei : Bytes
  pub raw_data : Bytes
  pub parsed_data : Bytes
  pub created_at : ℕ

pub record FailedRecord : Type 0 where
  pub record_of : StoredRecord
  pub target_server : Bytes
  pub error_message : Bytes

-- Whether the database answers, its comparison of texts and its access to the JSON of a row, and the
-- rows.
pub record Table (A : Type 0) : Type 0 where
  pub answers : Bool
  pub text_less : Bytes → Bytes → Bool
  pub date_time : Bytes → Bytes
  pub rows : List A

abbrev limit_of_query : ℤ → ℕ
limit_of_query (negsuc n) = 5000
limit_of_query (pos n) = if n == 0 then 5000 else n

module _ {A : Type 0} (db : Table A) (base_of : A → StoredRecord) where
  -- The WHERE clause.
  abbrev pub is_selected : QueryFilter → A → Bool
  is_selected filter r =
      not (db.text_less (db.date_time (base_of r).parsed_data) (midnight filter.date_start))
      && db.text_less (db.date_time (base_of r).parsed_data) (midnight filter.date_end)
      && (length filter.imei == 0 || bytes_eq (base_of r).imei filter.imei)

  unfoldable pub selected : QueryFilter → List A → List A
  selected filter [] = []
  selected filter (r ∷ rows) =
      let rest = selected filter rows in if is_selected filter r then r ∷ rest else rest

  unfoldable pub select_rows : QueryFilter → Result Bytes (List A)
  unfolding selected
  select_rows filter =
      if db.answers
      then ok (take (limit_of_query filter.limit) (selected filter db.rows))
      else err []

abbrev pub query_records : Table StoredRecord → QueryFilter → Result Bytes (List StoredRecord)
query_records db filter = select_rows db (λ r. r) filter

abbrev pub query_failed_records :
    Table FailedRecord → QueryFilter → Result Bytes (List FailedRecord)
query_failed_records db filter = select_rows db (λ r. r.record_of) filter
