-- ===== src/Parser/Hooshnic/Escaping.antt =====
-- internal/parser/parser.go: `readJSONStringValue` against a writer of JSON strings.
use gps_data_receiver.Prelude.{
  ℕ, ◌==◌, ◌||◌, ◌≡◌, refl, ap, ◌∙◌, [], ◌∷◌, ◌++◌, Bool-cases, false, inl, inr, ◌⊎◌, sym,
  append_assoc, some, if◌then◌else◌, arith, codes,
}
use gps_data_receiver.Parser.Data.{Bytes}
use gps_data_receiver.Parser.Hooshnic.{unescape, put_byte, read_json_string_value}

-- How JSON writes a byte of a string.
unfoldable pub escape_byte : ℕ → Bytes
escape_byte c =
    if c == 34 || c == 92
    then 92 ∷ c ∷ []
    else if c == 8
    then codes "\\b"
    else if c == 12
    then codes "\\f"
    else if c == 10
    then codes "\\n"
    else if c == 13
    then codes "\\r"
    else if c == 9
    then codes "\\t"
    else c ∷ []

unfoldable pub escape : Bytes → Bytes
unfolding escape_byte
escape [] = []
escape (c ∷ cs) = escape_byte c ++ escape cs

abbrev pub close : Bytes → Bytes
close rest = 34 ∷ b'}' ∷ rest

-- A byte whose test fails is not that one.
pub escape_byte-cases :
    (c : ℕ)
    → ((d : ℕ) × (escape_byte c ≡ 92 ∷ d ∷ []) × (unescape d ≡ c))
      ⊎ ((escape_byte c ≡ c ∷ []) × ((c == 92) ≡ false) × ((c == 34) ≡ false))
unfolding escape_byte unescape
escape_byte-cases c = elim (Bool-cases (c == 34 || c == 92)) [
  | inl special ↦ inl (c, rw special refl, ground arith)
  | inr plain ↦ elim (Bool-cases (c == 8)) [
    | inl b ↦ inl (b'b', rw (plain, b) refl, ground arith)
    | inr not_b ↦ elim (Bool-cases (c == 12)) [
      | inl f ↦ inl (b'f', rw (plain, not_b, f) refl, ground arith)
      | inr not_f ↦ elim (Bool-cases (c == 10)) [
        | inl n ↦ inl (b'n', rw (plain, not_b, not_f, n) refl, ground arith)
        | inr not_n ↦ elim (Bool-cases (c == 13)) [
          | inl r ↦ inl (b'r', rw (plain, not_b, not_f, not_n, r) refl, ground arith)
          | inr not_r ↦ elim (Bool-cases (c == 9)) [
            | inl t ↦ inl (b't', rw (plain, not_b, not_f, not_n, not_r, t) refl, ground arith)
            | inr not_t ↦
                inr (rw (plain, not_b, not_f, not_n, not_r, not_t) refl, ground arith, ground arith)
          ]
        ]
      ]
    ]
  ]
]

pub read-escape_byte :
    (c d : ℕ) (rest : Bytes)
    → read_json_string_value (escape_byte c ++ d ∷ rest)
      ≡ put_byte c (read_json_string_value (d ∷ rest))
unfolding read_json_string_value
read-escape_byte c d rest = elim (escape_byte-cases c) [
  | inl (e, written, means) ↦
      ap (λ (w : Bytes). read_json_string_value (w ++ d ∷ rest)) written
      ∙ ap (λ (b : ℕ). put_byte b (read_json_string_value (d ∷ rest))) means
  | inr (written, no_escape, no_quote) ↦
      ap (λ (w : Bytes). read_json_string_value (w ++ d ∷ rest)) written
      ∙ rw (read_json_string_value, no_escape) (rw no_quote refl)
]

-- What stands before the closing quote is never empty with it.
escape-close : (v rest : Bytes) → (d : ℕ) × (ds : Bytes) × (escape v ++ close rest ≡ d ∷ ds)
unfolding escape
escape-close [] rest = (34, b'}' ∷ rest, refl)
escape-close (c ∷ cs) rest = elim (escape_byte-cases c) [
  | inl (e, written, means) ↦
      (92, e ∷ escape cs ++ close rest, ap (λ (w : Bytes). (w ++ escape cs) ++ close rest) written)
  | inr (written, no_escape, no_quote) ↦
      (c, escape cs ++ close rest, ap (λ (w : Bytes). (w ++ escape cs) ++ close rest) written)
]

-- readJSONStringValue reads back every string that is written with JSON's escapes, and stops behind
-- its closing `"}`.
pub read_json_string_value-escape :
    (v rest : Bytes) → read_json_string_value (escape v ++ close rest) ≡ some (v, rest)
unfolding escape read_json_string_value
read_json_string_value-escape [] rest = refl
read_json_string_value-escape (c ∷ cs) rest =
    let (d, ds, starts) = escape-close cs rest in
    ap read_json_string_value (
      append_assoc (escape_byte c) (escape cs) (close rest)
      ∙ ap (λ (l : Bytes). escape_byte c ++ l) starts)
    ∙ read-escape_byte c d ds
    ∙ ap (λ (l : Bytes). put_byte c (read_json_string_value l)) (sym starts)
    ∙ ap (put_byte c) (read_json_string_value-escape cs rest)
