-- ===== src/Parser/Hooshnic/Matches.antt =====
-- internal/parser/parser.go: where the pattern of an object's start matches.
use gps_data_receiver.Prelude.{
  ℕ, subst, ◌-◌, ◌==◌, ◌≡◌, refl, ap, sym, ◌∙◌, List, [], ◌∷◌, ◌++◌, append_assoc, Bool-cases, Bool,
  false, inl, inr, some, none, arith, All, length, length-append,
}
use gps_data_receiver.Codec.Detect.{has_prefix}
use gps_data_receiver.Parser.Data.{Bytes}
use gps_data_receiver.Parser.Hooshnic.{literal, Pattern, find_all, data_object_start_pattern}
use gps_data_receiver.Parser.Hooshnic.Escaping.{escape_byte, escape, close, escape_byte-cases}

-- No match starts in a text, with this rest behind it.
module _ (pattern : Pattern) where
  abbrev NoMatch : Bytes → Bytes → Type 0
  NoMatch [] rest = Unit
  NoMatch (c ∷ cs) rest = (pattern (c ∷ cs ++ rest) ≡ none) × NoMatch cs rest

  NoMatch-append :
      (xs ys rest : Bytes) → NoMatch xs (ys ++ rest) → NoMatch ys rest → NoMatch (xs ++ ys) rest
  NoMatch-append [] ys rest h k = k
  NoMatch-append (x ∷ xs) ys rest (h, hs) k = (
    ap (λ (l : Bytes). pattern (x ∷ l)) (append_assoc xs ys rest) ∙ h,
    NoMatch-append xs ys rest hs k,
  )

  pub find_all-NoMatch :
      (xs rest : Bytes)
      → NoMatch xs rest
      → find_all pattern 0 (xs ++ rest) ≡ find_all pattern 0 rest
  unfolding find_all
  find_all-NoMatch [] rest h = refl
  find_all-NoMatch (x ∷ xs) rest (h, hs) = rw (find_all, h) (find_all-NoMatch xs rest hs)

  find_all-skip :
      (xs rest : Bytes) → find_all pattern (length xs) (xs ++ rest) ≡ find_all pattern 0 rest
  unfolding find_all
  find_all-skip [] rest = refl
  find_all-skip (x ∷ xs) rest = find_all-skip xs rest

  pub find_all-match :
      (c : ℕ) (cs end : Bytes)
      → pattern (c ∷ cs ++ end) ≡ some end
      → find_all pattern 0 (c ∷ cs ++ end) ≡ (c ∷ cs ++ end, end) ∷ find_all pattern 0 end
  unfolding find_all
  find_all-match c cs end h =
      let width : length (cs ++ end) - length end ≡ length cs =
        omega (arith, length-append cs end) in
      rw (find_all, h)
        (rw width
          (ap (λ (l : List (Bytes × Bytes)). (c ∷ cs ++ end, end) ∷ l) (find_all-skip cs end)))

abbrev pub is_brace : ℕ → Bool
is_brace c = c == 123

pub pattern-other :
    (c : ℕ) (cs : Bytes) → is_brace c ≡ false → data_object_start_pattern (c ∷ cs) ≡ none
unfolding data_object_start_pattern literal has_prefix
pattern-other c cs h = rw (data_object_start_pattern, h) refl

-- A brace that no `"d` follows starts no object.
pattern-brace :
    (c d : ℕ) (ds : Bytes) → (d == 34) ≡ false → data_object_start_pattern (c ∷ d ∷ ds) ≡ none
unfolding data_object_start_pattern literal has_prefix
pattern-brace c d ds h = elim (Bool-cases (is_brace c)) [
  | inl brace ↦ rw (data_object_start_pattern, brace) (rw h refl)
  | inr other ↦ pattern-other c (d ∷ ds) other
]

pub pattern-closed : (c : ℕ) (rest : Bytes) → data_object_start_pattern (c ∷ close rest) ≡ none
unfolding data_object_start_pattern literal has_prefix
pattern-closed c rest = elim (Bool-cases (is_brace c)) [
  | inl brace ↦ rw (data_object_start_pattern, brace) refl
  | inr other ↦ pattern-other c (close rest) other
]

pub pattern-alone : (c : ℕ) → data_object_start_pattern (c ∷ []) ≡ none
unfolding data_object_start_pattern literal has_prefix
pattern-alone c = elim (Bool-cases (is_brace c)) [
  | inl brace ↦ rw (data_object_start_pattern, brace) refl
  | inr other ↦ pattern-other c [] other
]

pattern-escape :
    (c : ℕ) (v rest : Bytes)
    → data_object_start_pattern (c ∷ rest) ≡ none
    → data_object_start_pattern (c ∷ escape v ++ rest) ≡ none
unfolding escape
pattern-escape c [] rest h = h
pattern-escape c (b ∷ bs) rest h = elim (escape_byte-cases b) [
  | inl (e, written, means) ↦
      ap (λ (w : Bytes). data_object_start_pattern (c ∷ (w ++ escape bs) ++ rest)) written
      ∙ pattern-brace c 92 (e ∷ escape bs ++ rest) refl
  | inr (written, no_escape, no_quote) ↦
      ap (λ (w : Bytes). data_object_start_pattern (c ∷ (w ++ escape bs) ++ rest)) written
      ∙ pattern-brace c b (escape bs ++ rest) no_quote
]

-- No object starts inside an escaped string, whatever it holds.
pub NoMatch-escape :
    (v rest : Bytes)
    → ((c : ℕ) → data_object_start_pattern (c ∷ rest) ≡ none)
    → NoMatch data_object_start_pattern (escape v) rest
unfolding escape
NoMatch-escape [] rest h = tt
NoMatch-escape (b ∷ bs) rest h =
    NoMatch-append data_object_start_pattern (escape_byte b) (escape bs) rest
      (elim (escape_byte-cases b) [
        | inl (e, written, means) ↦
            subst (λ (w : Bytes). NoMatch data_object_start_pattern w (escape bs ++ rest))
              (sym written)
              (pattern-other 92 (e ∷ escape bs ++ rest) refl, (pattern-escape e bs rest (h e), tt))
        | inr (written, no_escape, no_quote) ↦
            subst (λ (w : Bytes). NoMatch data_object_start_pattern w (escape bs ++ rest))
              (sym written) (pattern-escape b bs rest (h b), tt)
      ])
      (NoMatch-escape bs rest h)

pub NoMatch-plain :
    (xs rest : Bytes)
    → All (λ (c : ℕ). is_brace c ≡ false) xs
    → NoMatch data_object_start_pattern xs rest
NoMatch-plain [] rest h = tt
NoMatch-plain (x ∷ xs) rest (h, hs) = (pattern-other x (xs ++ rest) h, NoMatch-plain xs rest hs)
