-- ===== src/Parser/Hooshnic.antt =====
-- internal/parser/parser.go: the recovery of `{"data":"..."}` objects from JSON that does not decode,
-- and the clean-up before it. A position in the text is the text from there on.
pub mod Items
pub mod Escaping
pub mod Matches
pub mod Recovery
use gps_data_receiver.Prelude.{
  ℕ, zero, suc, ◌-◌, ◌==◌, ◌||◌, ◌&&◌, List, [], ◌∷◌, ◌++◌, Option, none, some, Bool, true, false,
  if◌then◌else◌, length, take, drop, ltb, codes,
}
use gps_data_receiver.Codec.Detect.{has_prefix}
use gps_data_receiver.Parser.Data.{Bytes, InvalidRecord}

abbrev pub invalid_record : Bytes → Bytes → InvalidRecord
invalid_record raw_data reason = record { raw_data = raw_data; reason = reason }

-- `\s` of a Go regular expression
abbrev pub is_space : ℕ → Bool
is_space c = c == 9 || (c == 10 || (c == 12 || (c == 13 || c == 32)))

unfoldable pub skip_spaces : Bytes → Bytes
skip_spaces [] = []
skip_spaces (c ∷ cs) = elim (is_space c) [ true ↦ skip_spaces cs | false ↦ c ∷ cs ]

-- A literal of a pattern: what follows it.
unfoldable pub literal : Bytes → Bytes → Option Bytes
unfolding has_prefix
literal text cs = if has_prefix cs text then some (drop (length text) cs) else none

-- `pattern` says where a match that starts at the position ends.
abbrev pub Pattern : Type 0
Pattern = Bytes → Option Bytes

-- FindAllStringIndex: the start and the end of each match, the search going on behind it. The first
-- argument is how much of a match is still to be skipped.
unfoldable pub find_all : Pattern → ℕ → Bytes → List (Bytes × Bytes)
find_all pattern skip [] = []
find_all pattern (suc skip) (c ∷ cs) = find_all pattern skip cs
find_all pattern zero (c ∷ cs) = elim (pattern (c ∷ cs)) [
  | none ↦ find_all pattern zero cs
  | some end ↦ (c ∷ cs, end) ∷ find_all pattern (length cs - length end) cs
]

-- ReplaceAll and ReplaceAllString, which search in the same way.
unfoldable pub replace_all : Pattern → Bytes → ℕ → Bytes → Bytes
replace_all pattern new skip [] = []
replace_all pattern new (suc skip) (c ∷ cs) = replace_all pattern new skip cs
replace_all pattern new zero (c ∷ cs) = elim (pattern (c ∷ cs)) [
  | none ↦ c ∷ replace_all pattern new zero cs
  | some end ↦ new ++ replace_all pattern new (length cs - length end) cs
]

-- strings.TrimRight with a cutset of one byte
unfoldable pub trim_right : ℕ → Bytes → Bytes
trim_right b [] = []
trim_right b (c ∷ cs) = elim (trim_right b cs) [
  | [] ↦ if c == b then [] else c ∷ []
  | d ∷ ds ↦ c ∷ d ∷ ds
]

abbrev then_literal : Bytes → Option Bytes → Option Bytes
then_literal text none = none
then_literal text (some cs) = literal text (skip_spaces cs)

-- `\{"data"\s*:\s*"`
unfoldable pub data_object_start_pattern : Pattern
unfolding literal skip_spaces
data_object_start_pattern cs =
    then_literal (codes "\"") (then_literal (codes ":") (literal (codes "{\"data\"") cs))

-- `\},\s*\]`
unfoldable pub trailing_comma_pattern : Pattern
unfolding literal skip_spaces
trailing_comma_pattern cs = then_literal (codes "]") (literal (codes "},") cs)

unfoldable pub preprocess_json : Bytes → Bytes
unfolding trim_right replace_all trailing_comma_pattern literal
preprocess_json json =
    let trimmed = trim_right b'.' json in
    let separated = replace_all (literal (codes "}{")) (codes "},{") 0 trimmed in
    let filled = replace_all (literal (codes ",{}")) [] 0 separated in
    let closed = replace_all trailing_comma_pattern (codes "}]") 0 filled in trim_right b',' closed

-- The byte that an escape stands for; an unknown one stands for itself.
unfoldable pub unescape : ℕ → ℕ
unescape c =
    if c == b'b'
    then 8
    else if c == b'f'
    then 12
    else if c == b'n'
    then 10
    else if c == b'r'
    then 13
    else if c == b't'
    then 9
    else c

abbrev pub put_byte : ℕ → Option (Bytes × Bytes) → Option (Bytes × Bytes)
put_byte b none = none
put_byte b (some (content, rest)) = some (b ∷ content, rest)

-- The decoded content, and what follows the closing `"}`; none is the index -1.
unfoldable pub read_json_string_value : Bytes → Option (Bytes × Bytes)
unfolding unescape
read_json_string_value [] = none
read_json_string_value (c ∷ []) = none
read_json_string_value (c ∷ d ∷ rest) = elim (c == 92) [
  | true ↦ put_byte (unescape d) (read_json_string_value rest)
  | false ↦ elim (c == 34) [
    | true ↦ if d == b'}' then some ([], rest) else none
    | false ↦ put_byte c (read_json_string_value (d ∷ rest))
  ]
]

abbrev pub Extracted : Type 0
Extracted = List Bytes × List InvalidRecord

-- One match: an item, or an invalid record.
unfoldable pub keep_item : Bytes → Option (Bytes × Bytes) → Extracted → Extracted
keep_item start none (items, invalid) =
    (items, invalid_record (take 512 start) (codes "malformed JSON data object") ∷ invalid)
keep_item start (some ([], rest)) (items, invalid) =
    (items, invalid_record [] (codes "empty data field") ∷ invalid)
keep_item start (some (c ∷ cs, rest)) (items, invalid) = ((c ∷ cs) ∷ items, invalid)

unfoldable pub extract_matches : List (Bytes × Bytes) → Extracted
unfolding keep_item read_json_string_value
extract_matches [] = ([], [])
extract_matches (m ∷ ms) = keep_item m.0 (read_json_string_value m.1) (extract_matches ms)

unfoldable pub extract_data_items : Bytes → Extracted
unfolding extract_matches find_all data_object_start_pattern
extract_data_items json = extract_matches (find_all data_object_start_pattern 0 json)
