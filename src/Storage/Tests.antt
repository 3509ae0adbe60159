-- ===== src/Storage/Tests.antt =====
-- internal/storage at concrete rows.
use mathlib.Core.List.{Permᴰ}
use gps_data_receiver.Prelude.{
  arith, ◌⊎◌, false, ℕ, ◌≡◌, ◌≤◌, ◌<◌, refl, List, [], ◌∷◌, Option, some, true, All, length, codes,
  map, if◌then◌else◌,
}
use gps_data_receiver.Prelude.Int.{pos}
use gps_data_receiver.Parser.Data.{Bytes, ParsedGpsData, InvalidRecord}
use gps_data_receiver.Parser.Samples.{device_records}
use gps_data_receiver.Storage.Writer.{
  WriteOp, success, invalid as invalid_write, AsyncWriter, WriterStep, enqueues, resumes, runs,
  cancels, new_async_writer, select_send, enqueue_op, resume, act, act_all,
}
use gps_data_receiver.Storage.Writer.Conserved.{enqueued, actions_conserve}
use gps_data_receiver.Parser.Teltonika.{records_to_parsed}
use gps_data_receiver.Storage.Invalid.{page_limit, max_page, query_invalid_records}
use gps_data_receiver.Storage.Invalid.Order.{NewestFirst}
use gps_data_receiver.Storage.Invalid.Pages.{pages, query_invalid_records-pages}
use gps_data_receiver.Storage.Rows.{
  Database, record_values, failed_values, invalid_values, prepare_gps_record_rows,
  prepare_gps_failed_record_rows, store_records, store_failed_records, store_invalid_records,
}
use gps_data_receiver.Storage.Rows.Bound.{stored_rows, succeeds, IsStorable, store_records_lem}

-- Three rows, two on a page, and a page that is not there.
abbrev three : List ℕ
three = 30 ∷ 20 ∷ 10 ∷ []

three_sorted : NewestFirst (λ (time : ℕ). time) three
three_sorted = ((omega arith, (omega arith, tt)), ((omega arith, tt), (tt, tt)))

query_invalid_records-pages_example :
    (pages (λ k. three) (pos 2) (max_page (length three) (page_limit (pos 2))) ≡ three)
    × (0 < (query_invalid_records three (pos 9) (pos 2)).limit)
    × ((query_invalid_records three (pos 9) (pos 2)).limit ≤ 500)
    × (0 < (query_invalid_records three (pos 9) (pos 2)).page)
    × ((query_invalid_records three (pos 9) (pos 2)).page
        ≤ max_page (length three) (page_limit (pos 2)))
query_invalid_records-pages_example =
    query_invalid_records-pages (λ time. time) three (λ k. three) (pos 9) (pos 2) three_sorted
      (λ k. three_sorted) (λ k. (λ x m. m, λ x m. m))

beyond_the_last : (query_invalid_records three (pos 9) (pos 2)).records ≡ 10 ∷ []
unfolding query_invalid_records
beyond_the_last = refl

abbrev database : Database
database = record { begins = true; executes = true; commits = true }

abbrev marshal : ParsedGpsData ℕ → Option Bytes
marshal r = some (codes "{}")

abbrev invalid : List InvalidRecord
invalid = record { raw_data = []; reason = codes "empty data field" } ∷ []

store_records_lem_example :
    (stored_rows (store_records marshal database 9 device_records) ≡ (
      if succeeds database
      then map (record_values 9) (prepare_gps_record_rows marshal device_records)
      else []))
    × (stored_rows (
          store_failed_records marshal database 9 device_records
            (codes "http://a")
            (codes "timeout"))
        ≡ (if succeeds database
            then map (failed_values 9) (
                prepare_gps_failed_record_rows marshal device_records
                  (codes "http://a")
                  (codes "timeout"))
            else []))
    × (stored_rows (store_invalid_records database 9 invalid)
        ≡ (if succeeds database then map (invalid_values 9) invalid else []))
    × All (IsStorable marshal) (prepare_gps_record_rows marshal device_records)
store_records_lem_example =
    store_records_lem marshal database 9 device_records invalid (codes "http://a") (codes "timeout")

abbrev bad_payload : WriteOp ℕ
bad_payload = invalid_write invalid

-- A channel of one: the second write waits in a goroutine until the first is taken.
abbrev turns : List (WriterStep ℕ)
turns =
    enqueues false bad_payload
    ∷ enqueues false (success device_records)
    ∷ enqueues false (success [])
    ∷ runs
    ∷ resumes 0 false
    ∷ cancels
    ∷ []

abbrev writer_after : AsyncWriter ℕ
writer_after = record {
  ch = success device_records ∷ [];
  capacity = 1;
  cancelled = true;
  closed = false;
  senders = [];
  processed = bad_payload ∷ [];
  dropped = [];
}

turns_end : act_all turns (some (new_async_writer (pos 1))) ≡ some writer_after
unfolding act_all act enqueue_op resume select_send records_to_parsed
turns_end = refl

actions_conserve_example :
    Permᴰ (bad_payload ∷ success device_records ∷ []) (enqueued turns)
    × (([] ≡ (let none : List (WriteOp ℕ) = [] in none)) ⊎ (true ≡ true))
    × (1 ≤ 1)
actions_conserve_example = actions_conserve turns (pos 1) writer_after turns_end
