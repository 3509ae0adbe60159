-- ===== src/Prelude/Cursor.antt =====
-- Big-endian numbers in a list of bytes, and reading a list at an offset.
use Prim.Native.Nat.{ℕ, zero, suc, ◌+◌, ◌-◌, ◌*◌, ◌/◌, ◌%◌, ◌^◌, ◌≤◌, ◌<◌}
use mathlib.Core.Path.{◌≡◌, refl, sym, ap, ◌∙◌, subst}
use mathlib.Core.List.{List, [], ◌∷◌, ◌++◌}
use native.Mathlib.Omega.{arith}
use native.Mathlib.Nat.{pow-suc}
use gps_data_receiver.Prelude.Lists.{
  length, get_or, get_or-drop, take, drop, All, All-append_left, All-append_right, length-append,
  length-drop, take-append, drop-append, drop-drop,
}

abbrev pub IsByte : ℕ → Type 0
IsByte b = b < 256

-- binary.BigEndian: the number that the bytes spell, the first byte the highest.
abbrev pub be_from : ℕ → List ℕ → ℕ
be_from acc [] = acc
be_from acc (b ∷ bs) = be_from (acc * 256 + b) bs

abbrev pub be : List ℕ → ℕ
be = be_from 0

-- buf[i:j]
abbrev pub slice : List ℕ → ℕ → ℕ → List ℕ
slice buf i j = take (j - i) (drop i buf)

-- buf[off], where the caller has tested that `off` is in range
abbrev pub byte_at : List ℕ → ℕ → ℕ
byte_at buf off = get_or buf off 0

-- n bytes for the number v, the highest first.
unfoldable pub encode_be : ℕ → ℕ → List ℕ
encode_be zero v = []
encode_be (suc n) v = encode_be n (v / 256) ++ v % 256 ∷ []

pub length-encode_be : (n v : ℕ) → length (encode_be n v) ≡ n
unfolding encode_be
length-encode_be zero v = refl
length-encode_be (suc n) v =
    omega
      (arith, length-append (encode_be n (v / 256)) (v % 256 ∷ []), length-encode_be n (v / 256))

be_from-append : (bs cs : List ℕ) (acc : ℕ) → be_from acc (bs ++ cs) ≡ be_from (be_from acc bs) cs
be_from-append [] cs acc = refl
be_from-append (b ∷ bs) cs acc = be_from-append bs cs (acc * 256 + b)

pub be-encode_be : (n v : ℕ) → v < 256 ^ n → be (encode_be n v) ≡ v
unfolding encode_be
be-encode_be zero v h = omega arith
be-encode_be (suc n) v h = omega (
  arith,
  be_from-append (encode_be n (v / 256)) (v % 256 ∷ []) 0,
  be-encode_be n (v / 256) (omega (arith, pow-suc 256 n)),
)

module _ {ℓ} {A : Type ℓ} where
  -- Reading `buf` has come to the offset `off`, and `rest` is what is left.
  abbrev pub At : List A → ℕ → List A → Type ℓ
  At buf off rest = (drop off buf ≡ rest) × (off ≤ length buf)

  pub At-advance :
      (buf : List A) (off n : ℕ) (xs rest : List A)
      → At buf off (xs ++ rest)
      → length xs ≡ n
      → At buf (off + n) rest
  At-advance buf off n xs rest (e, h) l = (
    sym (drop-drop off n buf (off + n) refl) ∙ ap (drop n) e ∙ drop-append xs rest n l,
    omega (arith, ap length e, length-drop off buf, length-append xs rest),
  )

  -- How much there is to read.
  pub At-length :
      (buf : List A) (off : ℕ) (rest : List A) → At buf off rest → off + length rest ≡ length buf
  At-length buf off rest (e, h) = omega (arith, ap length e, length-drop off buf)

  pub At-take :
      (buf : List A) (off : ℕ) (xs rest : List A)
      → At buf off rest
      → buf ≡ xs ++ rest
      → take off buf ≡ xs
  At-take buf off xs rest (e, h) eb =
      ap (take off) eb
      ∙ take-append xs rest off
          (omega (arith, ap length e, ap length eb, length-drop off buf, length-append xs rest))

pub slice-encode_be :
    (buf : List ℕ) (off j n v : ℕ) (rest : List ℕ)
    → drop off buf ≡ encode_be n v ++ rest
    → j ≡ off + n
    → v < 256 ^ n
    → be (slice buf off j) ≡ v
slice-encode_be buf off j n v rest e ej h =
    let width : j - off ≡ n = omega arith in
    ap (λ (k : ℕ). be (take k (drop off buf))) width
    ∙ ap (λ (l : List ℕ). be (take n l)) e
    ∙ ap be (take-append (encode_be n v) rest n (length-encode_be n v))
    ∙ be-encode_be n v h

-- A single byte at an offset.
pub byte_at-drop :
    (buf : List ℕ) (off b : ℕ) (rest : List ℕ) → drop off buf ≡ b ∷ rest → byte_at buf off ≡ b
byte_at-drop buf off b rest e = sym (get_or-drop buf off 0) ∙ ap (λ (l : List ℕ). get_or l 0 0) e

split_last :
    (n : ℕ) (bs : List ℕ)
    → length bs ≡ suc n
    → (front : List ℕ) × (b : ℕ) × (bs ≡ front ++ b ∷ []) × (length front ≡ n)
split_last n [] e = absurd (omega arith)
split_last zero (b ∷ []) e = ([], b, refl, refl)
split_last zero (b ∷ c ∷ bs) e = absurd (omega arith)
split_last (suc n) (b ∷ bs) e =
    let (front, l, es, en) = split_last n bs (omega arith) in
    (b ∷ front, l, ap (◌∷◌ b) es, omega arith)

-- Bytes are the encoding of the number that they spell.
pub encode_be-be : (n : ℕ) (bs : List ℕ) → All IsByte bs → length bs ≡ n → encode_be n (be bs) ≡ bs
unfolding encode_be
encode_be-be zero [] h e = refl
encode_be-be zero (b ∷ bs) h e = absurd (omega arith)
encode_be-be (suc n) bs h e =
    let (front, b, es, en) = split_last n bs e in
    let whole : be bs ≡ be front * 256 + b = ap be es ∙ be_from-append front (b ∷ []) 0 in
    let small : All IsByte (front ++ b ∷ []) = subst (All IsByte) es h in
    let last : b < 256 = (All-append_right IsByte front (b ∷ []) small).0 in
    let high : be bs / 256 ≡ be front = omega arith in
    let low : be bs % 256 ≡ b = omega arith in
    rw (high, low)
      (rw (encode_be-be n front (All-append_left IsByte front (b ∷ []) small) en) (sym es))
