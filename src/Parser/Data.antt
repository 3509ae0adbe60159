-- ===== src/Parser/Data.antt =====
-- internal/parser/parser.go: the types of parsed records. `F` stands for Go's float64.
use gps_data_receiver.Prelude.{ℕ, List}
use gps_data_receiver.Prelude.Int.{ℤ}

-- Strings are lists of bytes.
abbrev pub Bytes : Type 0
Bytes = List ℕ

pub record ParsedGpsData (F : Type 0) : Type 0 where
  pub lat : F
  pub lon : F
  pub speed : ℤ
  pub status : ℤ
  pub ew : ℤ
  pub ns : ℤ
  pub date_time : Bytes
  pub imei : Bytes
  pub raw_data : Bytes

pub record InvalidRecord : Type 0 where
  pub raw_data : Bytes
  pub reason : Bytes

pub record ParseResult (F : Type 0) : Type 0 where
  pub records : List (ParsedGpsData F)
  pub invalid : List InvalidRecord
