-- ===== src/Parser/Hooshnic/Recovery.antt =====
-- internal/parser/parser.go: what `extractDataItems` recovers from a text that breaks off.
use gps_data_receiver.Prelude.{
  ℕ, ◌≡◌, refl, ap, sym, ◌∙◌, List, [], ◌∷◌, ◌++◌, append_assoc, append-nil, true, false, inl, inr,
  Option, some, none, codes, All, take,
}
use gps_data_receiver.Codec.Detect.{has_prefix}
use gps_data_receiver.Parser.Data.{Bytes, InvalidRecord}
use gps_data_receiver.Parser.Hooshnic.{
  invalid_record, is_space, skip_spaces, literal, find_all, data_object_start_pattern,
  read_json_string_value, put_byte, keep_item, extract_matches, extract_data_items,
}
use gps_data_receiver.Parser.Hooshnic.Escaping.{
  escape_byte, escape, close, escape_byte-cases, read-escape_byte, read_json_string_value-escape,
}
use gps_data_receiver.Parser.Hooshnic.Matches.{
  find_all-NoMatch, find_all-match, is_brace, pattern-other, pattern-closed, pattern-alone,
  NoMatch-escape, NoMatch-plain,
}

abbrev pub Spaces : Bytes → Type 0
Spaces sp = All (λ (c : ℕ). is_space c ≡ true) sp

skip_spaces-append :
    (sp : Bytes) (c : ℕ) (cs : Bytes)
    → Spaces sp
    → is_space c ≡ false
    → skip_spaces (sp ++ c ∷ cs) ≡ c ∷ cs
unfolding skip_spaces
skip_spaces-append [] c cs h k = rw (skip_spaces, k) refl
skip_spaces-append (x ∷ sp) c cs (h, hs) k = rw (skip_spaces, h) (skip_spaces-append sp c cs hs k)

-- `{"data" : "`, with any white space around the colon.
abbrev pub object_start : Bytes → Bytes → Bytes
object_start before after = codes "{\"data\"" ++ (before ++ b':' ∷ (after ++ 34 ∷ []))

pattern-object_start :
    (before after rest : Bytes)
    → Spaces before
    → Spaces after
    → data_object_start_pattern (object_start before after ++ rest) ≡ some rest
unfolding data_object_start_pattern literal has_prefix
pattern-object_start before after rest hb ha =
    let joined : (before ++ b':' ∷ (after ++ 34 ∷ [])) ++ rest
        ≡ before ++ b':' ∷ (after ++ 34 ∷ rest) =
      append_assoc before (b':' ∷ (after ++ 34 ∷ [])) rest
      ∙ ap (λ (l : Bytes). before ++ b':' ∷ l) (append_assoc after (34 ∷ []) rest) in
    ap (λ (l : Bytes). data_object_start_pattern (codes "{\"data\"" ++ l)) joined
    ∙ rw (data_object_start_pattern, skip_spaces-append before b':' (after ++ 34 ∷ rest) hb refl)
        (rw (skip_spaces-append after 34 rest ha refl) refl)

-- A well-formed object behind other text, as a device may send it.
pub record Segment : Type 0 where
  pub junk : Bytes
  pub before : Bytes
  pub after : Bytes
  pub value : Bytes

abbrev pub IsSegment : Segment → Type 0
IsSegment s = All (λ (c : ℕ). is_brace c ≡ false) s.junk × Spaces s.before × Spaces s.after

abbrev pub write_segment : Segment → Bytes → Bytes
write_segment s rest = s.junk ++ (object_start s.before s.after ++ (escape s.value ++ close rest))

-- Objects, and at the end one that the transmission cut off within its string.
abbrev pub write_text : List Segment → Segment → Bytes
write_text [] last = last.junk ++ (object_start last.before last.after ++ escape last.value)
write_text (s ∷ ss) last = write_segment s (write_text ss last)

abbrev pub values : List Segment → List Bytes
values [] = []
values (s ∷ ss) = elim (s.value) [ [] ↦ values ss | c ∷ cs ↦ (c ∷ cs) ∷ values ss ]

abbrev pub refusals : List Segment → Segment → List InvalidRecord
refusals [] last =
    invalid_record (take 512 (object_start last.before last.after ++ escape last.value))
      (codes "malformed JSON data object")
    ∷ []
refusals (s ∷ ss) last = elim (s.value) [
  | [] ↦ invalid_record [] (codes "empty data field") ∷ refusals ss last
  | c ∷ cs ↦ refusals ss last
]

read_json_string_value_cut : (v : Bytes) → read_json_string_value (escape v) ≡ none
unfolding read_json_string_value escape
read_json_string_value_cut [] = refl
read_json_string_value_cut (c ∷ []) = elim (escape_byte-cases c) [
  | inl (e, written, means) ↦ ap (λ (w : Bytes). read_json_string_value (w ++ [])) written
  | inr (written, no_escape, no_quote) ↦
      ap (λ (w : Bytes). read_json_string_value (w ++ [])) written
]
read_json_string_value_cut (c ∷ d ∷ ds) =
    let cut = read_json_string_value_cut (d ∷ ds) in
    elim (escape_byte-cases d) [
      | inl (e, written, means) ↦
          let shape = ap (λ (w : Bytes). w ++ escape ds) written in
          ap (λ (l : Bytes). read_json_string_value (escape_byte c ++ l)) shape
          ∙ read-escape_byte c 92 (e ∷ escape ds)
          ∙ ap (λ (l : Bytes). put_byte c (read_json_string_value l)) (sym shape)
          ∙ ap (put_byte c) cut
      | inr (written, no_escape, no_quote) ↦
          let shape = ap (λ (w : Bytes). w ++ escape ds) written in
          ap (λ (l : Bytes). read_json_string_value (escape_byte c ++ l)) shape
          ∙ read-escape_byte c d (escape ds)
          ∙ ap (λ (l : Bytes). put_byte c (read_json_string_value l)) (sym shape)
          ∙ ap (put_byte c) cut
    ]

-- The search comes to the start of a segment, and goes on inside its string.
find_all-object :
    (s : Segment) (rest : Bytes)
    → IsSegment s
    → find_all data_object_start_pattern 0 (s.junk ++ (object_start s.before s.after ++ rest))
      ≡ (object_start s.before s.after ++ rest, rest) ∷ find_all data_object_start_pattern 0 rest
find_all-object s rest (plain, hb, ha) =
    find_all-NoMatch data_object_start_pattern s.junk (object_start s.before s.after ++ rest)
      (NoMatch-plain s.junk (object_start s.before s.after ++ rest) plain)
    ∙ find_all-match data_object_start_pattern 123
        (codes "\"data\"" ++ (s.before ++ b':' ∷ (s.after ++ 34 ∷ []))) rest
        (pattern-object_start s.before s.after rest hb ha)

find_all-string :
    (v rest : Bytes)
    → find_all data_object_start_pattern 0 (escape v ++ close rest)
      ≡ find_all data_object_start_pattern 0 rest
find_all-string v rest =
    find_all-NoMatch data_object_start_pattern (escape v) (close rest)
      (NoMatch-escape v (close rest) (λ c. pattern-closed c rest))
    ∙ find_all-NoMatch data_object_start_pattern (34 ∷ b'}' ∷ []) rest
        (pattern-other 34 (b'}' ∷ rest) refl, (pattern-other b'}' rest refl, tt))

find_all-cut : (v : Bytes) → find_all data_object_start_pattern 0 (escape v) ≡ []
unfolding find_all
find_all-cut v =
    ap (find_all data_object_start_pattern 0) (sym (append-nil (escape v)))
    ∙ find_all-NoMatch data_object_start_pattern (escape v) [] (NoMatch-escape v [] pattern-alone)

keep_item_read :
    (start : Bytes) (s : Segment) (rest : Bytes) (ss : List Segment) (last : Segment)
    → keep_item start (some (s.value, rest)) (values ss, refusals ss last)
      ≡ (values (s ∷ ss), refusals (s ∷ ss) last)
unfolding keep_item
keep_item_read start s rest ss last = keep_by_value s.value
  where
    keep_by_value :
        (v : Bytes)
        → keep_item start (some (v, rest)) (values ss, refusals ss last)
          ≡ (values (record s { value = v } ∷ ss), refusals (record s { value = v } ∷ ss) last)
    keep_by_value [] = refl
    keep_by_value (c ∷ cs) = refl

-- A text consists of objects `{"data":"..."}`, with white space around the colon at most, whose values
-- are any bytes, escaped; before each object stands text without an opening brace, and the last object
-- breaks off within its value. From it extractDataItems takes the value of each whole object that has
-- one, in order, even if the value looks like an object itself; it reports each empty value and the
-- object that breaks off, and nothing else.
pub extract_data_items-write_text :
    (segments : List Segment) (last : Segment)
    → All IsSegment segments
    → IsSegment last
    → extract_data_items (write_text segments last) ≡ (values segments, refusals segments last)
unfolding extract_data_items extract_matches keep_item
extract_data_items-write_text [] last h k =
    ap extract_matches (
      find_all-object last (escape last.value) k
      ∙ ap
          (λ (l : List (Bytes × Bytes)).
            (object_start last.before last.after ++ escape last.value, escape last.value) ∷ l)
          (find_all-cut last.value))
    ∙ rw (extract_matches, read_json_string_value_cut last.value) refl
extract_data_items-write_text (s ∷ ss) last (h, hs) k =
    let rest = write_text ss last in
    let tail = escape s.value ++ close rest in
    let start = object_start s.before s.after ++ tail in
    let later = extract_data_items-write_text ss last hs k in
    ap extract_matches (
      find_all-object s tail h
      ∙ ap (λ (l : List (Bytes × Bytes)). (start, tail) ∷ l) (find_all-string s.value rest))
    ∙ ap
        (λ (r : Option (Bytes × Bytes)).
          keep_item start r (extract_matches (find_all data_object_start_pattern 0 rest)))
        (read_json_string_value-escape s.value rest)
    ∙ ap (keep_item start (some (s.value, rest))) later
    ∙ keep_item_read start s rest ss last
