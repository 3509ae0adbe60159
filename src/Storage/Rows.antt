-- ===== src/Storage/Rows.antt =====
-- internal/storage/postgres.go: the rows that are written, and the INSERT statements for them.
pub mod Bound
use gps_data_receiver.Prelude.{
  ℕ, zero, suc, ◌+◌, ◌*◌, ◌==◌, ◌&&◌, List, [], ◌∷◌, ◌++◌, Option, none, some, Bool, true, false,
  not, if◌then◌else◌, leb, length, codes,
}
use gps_data_receiver.Parser.Data.{Bytes, ParsedGpsData, InvalidRecord}

abbrev all_digits : Bytes → Bool
all_digits [] = true
all_digits (c ∷ cs) = leb b'0' c && leb c b'9' && all_digits cs

-- `^\d{15}$`
unfoldable pub matches_imei : Bytes → Bool
matches_imei text = length text == 15 && all_digits text

pub record GpsRecordRow : Type 0 where
  pub imei : Bytes
  pub raw_data : Bytes
  pub parsed_json : Bytes

pub record GpsFailedRecordRow : Type 0 where
  pub row : GpsRecordRow
  pub target_server : Bytes
  pub error_message : Bytes

-- An argument of a statement: a text, or the time.
pub data SqlValue : Type 0 where
  text : Bytes → SqlValue
  time : ℕ → SqlValue

-- The numbers of the placeholders of each row, and the arguments.
pub record Insert : Type 0 where
  pub table : Bytes
  pub placeholders : List (List ℕ)
  pub args : List SqlValue

-- What the database answers to the three calls of a transaction.
pub record Database : Type 0 where
  pub begins : Bool
  pub executes : Bool
  pub commits : Bool

pub data Stored : Type 0 where
  nothing_to_store : Stored
  not_begun not_committed : Stored
  not_inserted : Insert → Stored
  committed : Insert → Stored

abbrev or_space : Bytes → Bytes
or_space raw_data = if length raw_data == 0 then codes " " else raw_data

-- `count` numbers from `base` on
unfoldable pub numbers_from : ℕ → ℕ → List ℕ
numbers_from base zero = []
numbers_from base (suc count) = base ∷ numbers_from (suc base) count

-- The rows from the index i on.
unfoldable pub value_placeholders : {A : Type 0} → ℕ → ℕ → List A → List (List ℕ)
unfolding numbers_from
value_placeholders columns i [] = []
value_placeholders columns i (r ∷ rows) =
    numbers_from (i * columns + 1) columns ∷ value_placeholders columns (suc i) rows

unfoldable pub arguments : {A : Type 0} → (A → List SqlValue) → List A → List SqlValue
arguments values [] = []
arguments values (r ∷ rows) = values r ++ arguments values rows

abbrev pub batch_insert : {A : Type 0} → Bytes → ℕ → (A → List SqlValue) → List A → Insert
batch_insert table columns values rows = record {
  table = table;
  placeholders = value_placeholders columns 0 rows;
  args = arguments values rows;
}

-- A transaction of one statement.
unfoldable pub transact : Database → Insert → Stored
transact db insert =
    if not db.begins
    then not_begun
    else if not db.executes
    then not_inserted insert
    else if not db.commits
    then not_committed
    else committed insert

abbrev pub record_values : ℕ → GpsRecordRow → List SqlValue
record_values now r = text r.imei ∷ text r.raw_data ∷ text r.parsed_json ∷ time now ∷ []

abbrev pub failed_values : ℕ → GpsFailedRecordRow → List SqlValue
failed_values now r =
    text (r.row).imei
    ∷ text (r.row).raw_data
    ∷ text (r.row).parsed_json
    ∷ text r.target_server
    ∷ text r.error_message
    ∷ time now
    ∷ []

abbrev pub invalid_values : ℕ → InvalidRecord → List SqlValue
invalid_values now r = text (or_space r.raw_data) ∷ text r.reason ∷ time now ∷ []

unfoldable pub store_invalid_records : Database → ℕ → List InvalidRecord → Stored
unfolding transact value_placeholders arguments
store_invalid_records db now [] = nothing_to_store
store_invalid_records db now (r ∷ rs) =
    transact db (batch_insert (codes "gps_invalid_records") 3 (invalid_values now) (r ∷ rs))

-- `marshal` is the JSON library on the fields of a record but the raw data.
module _ {F : Type 0} (marshal : ParsedGpsData F → Option Bytes) where
  abbrev row_of : ParsedGpsData F → Option Bytes → List GpsRecordRow
  row_of r none = []
  row_of r (some json) =
      record { imei = r.imei; raw_data = or_space r.raw_data; parsed_json = json } ∷ []

  -- Records without a valid IMEI are left out, and those that do not marshal.
  unfoldable pub prepare_gps_record_rows : List (ParsedGpsData F) → List GpsRecordRow
  unfolding matches_imei
  prepare_gps_record_rows [] = []
  prepare_gps_record_rows (r ∷ rs) =
      (if length r.imei == 0
        then []
        else if not (matches_imei r.imei)
        then []
        else row_of r (marshal r))
      ++ prepare_gps_record_rows rs

  unfoldable pub with_failure : Bytes → Bytes → List GpsRecordRow → List GpsFailedRecordRow
  with_failure target_server error_message [] = []
  with_failure target_server error_message (r ∷ rows) =
      record { row = r; target_server = target_server; error_message = error_message }
      ∷ with_failure target_server error_message rows

  unfoldable pub prepare_gps_failed_record_rows :
      List (ParsedGpsData F) → Bytes → Bytes → List GpsFailedRecordRow
  unfolding with_failure prepare_gps_record_rows
  prepare_gps_failed_record_rows records target_server error_message =
      with_failure target_server error_message (prepare_gps_record_rows records)

  unfoldable pub store_rows :
      {A : Type 0} → Database → Bytes → ℕ → (A → List SqlValue) → List A → Stored
  unfolding transact value_placeholders arguments
  store_rows db table columns values [] = nothing_to_store
  store_rows db table columns values (r ∷ rows) =
      transact db (batch_insert table columns values (r ∷ rows))

  unfoldable pub store_records : Database → ℕ → List (ParsedGpsData F) → Stored
  unfolding store_rows prepare_gps_record_rows
  store_records db now records =
      store_rows db (codes "gps_records") 4 (record_values now) (prepare_gps_record_rows records)

  unfoldable pub store_failed_records :
      Database → ℕ → List (ParsedGpsData F) → Bytes → Bytes → Stored
  unfolding store_rows prepare_gps_failed_record_rows
  store_failed_records db now records target_server error_message =
      store_rows db (codes "gps_failed_records") 6 (failed_values now)
        (prepare_gps_failed_record_rows records target_server error_message)
