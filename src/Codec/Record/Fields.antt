-- ===== src/Codec/Record/Fields.antt =====
-- The decoder of internal/teltonika/codec/record.go reads back the encoder's IO block.
use gps_data_receiver.Prelude.{
  ℕ, ◌+◌, ◌-◌, ◌^◌, ◌≤◌, ◌<◌, min, ◌≡◌, refl, sym, ap, ◌∙◌, List, [], ◌∷◌, ◌++◌, arith, ◌⊎◌, ◌%◌,
  subst, inl, inr, length, take, drop, be, byte_at, encode_be, length-encode_be, slice-encode_be,
  byte_at-drop, At, At-advance, All, le→ltb, take-append_left,
}
use gps_data_receiver.Prelude.Result.{Result, ok}
use gps_data_receiver.Codec.Record.{
  DecodeError, IoMap, put, read_field, read_io_id, read_entry, read_entries, read_value,
  read_variable_value, read_variable, read_variables,
}
use gps_data_receiver.Codec.Encode.{
  IoEntry, VariableEntry, encode_entries, encode_variables, put_entries, put_variables, EntryFits,
  VariableFits,
}

abbrev pub IsWidth : ℕ → Type 0
IsWidth w = (w ≡ 1) ⊎ (w ≡ 2)

-- The read `m` gives `x` and has come to `rest`.
abbrev pub Reads : {A : Type 0} → List ℕ → Result DecodeError (A × ℕ) → A → List ℕ → Type 0
Reads buf m x rest = (off : ℕ) × (m ≡ ok (x, off)) × At buf off rest

module _ (buf : List ℕ) where
  pub At-field :
      (off n v : ℕ) (rest : List ℕ) → At buf off (encode_be n v ++ rest) → At buf (off + n) rest
  At-field off n v rest a = At-advance buf off n (encode_be n v) rest a (length-encode_be n v)

  pub At-fits :
      (off n v : ℕ) (rest : List ℕ) → At buf off (encode_be n v ++ rest) → off + n ≤ length buf
  At-fits off n v rest a = (At-field off n v rest a).1

  pub byte_at-encode_be :
      (off v : ℕ) (rest : List ℕ)
      → At buf off (encode_be 1 v ++ rest)
      → v < 256
      → byte_at buf off ≡ v
  unfolding encode_be
  byte_at-encode_be off v rest a h = byte_at-drop buf off (v % 256) rest a.0 ∙ omega arith

  read_field_one :
      (e : DecodeError) (off v : ℕ) (rest : List ℕ)
      → At buf off (encode_be 1 v ++ rest)
      → v < 256 ^ 1
      → read_field e buf off 1 ≡ ok (v, off + 1)
  unfolding read_field
  read_field_one e off v rest a h =
      ground (arith, At-fits off 1 v rest a, byte_at-encode_be off v rest a (omega arith))

  read_field_two :
      (e : DecodeError) (off v : ℕ) (rest : List ℕ)
      → At buf off (encode_be 2 v ++ rest)
      → v < 256 ^ 2
      → read_field e buf off 2 ≡ ok (v, off + 2)
  unfolding read_field
  read_field_two e off v rest a h =
      rw (le→ltb (length buf) (off + 2) (At-fits off 2 v rest a))
        (ap (λ (x : ℕ). ok (x, off + 2)) (slice-encode_be buf off (off + 2) 2 v rest a.0 refl h))

  pub read_field-encode_be :
      (e : DecodeError) (off w v : ℕ) (rest : List ℕ)
      → IsWidth w
      → At buf off (encode_be w v ++ rest)
      → v < 256 ^ w
      → read_field e buf off w ≡ ok (v, off + w)
  read_field-encode_be e off w v rest (inl one) =
      subst
        (λ (k : ℕ).
          At buf off (encode_be k v ++ rest)
          → v < 256 ^ k
          → read_field e buf off k ≡ ok (v, off + k))
        (sym one) (read_field_one e off v rest)
  read_field-encode_be e off w v rest (inr two) =
      subst
        (λ (k : ℕ).
          At buf off (encode_be k v ++ rest)
          → v < 256 ^ k
          → read_field e buf off k ≡ ok (v, off + k))
        (sym two) (read_field_two e off v rest)

  -- One entry of a fixed size.
  pub read_entry-encode :
      (vs iw off : ℕ) (en : IoEntry) (ios : IoMap) (rest : List ℕ)
      → IsWidth iw
      → At buf off (encode_be iw en.id ++ (encode_be vs en.value ++ rest))
      → EntryFits vs iw en
      → Reads buf (read_entry vs iw buf ios off) (put en.id en.value ios) rest
  unfolding read_entry read_io_id
  read_entry-encode vs iw off en ios rest w a (hi, hv) =
      let a1 = At-field off iw en.id _ a in
      (
        off + iw + vs,
        rw (read_field-encode_be _ off iw en.id _ w a hi) (
            rw (le→ltb (length buf) (off + iw + vs) (At-fits (off + iw) vs en.value rest a1)) (
              ap (λ (x : ℕ). ok (put en.id x ios, off + iw + vs))
                (slice-encode_be buf (off + iw) _ vs en.value rest a1.0 refl hv))),
        At-field (off + iw) vs en.value rest a1,
      )

  pub read_entries-encode :
      (vs iw : ℕ) (es : List IoEntry) (ios : IoMap) (off : ℕ) (rest : List ℕ)
      → IsWidth iw
      → At buf off (encode_entries vs iw es rest)
      → All (EntryFits vs iw) es
      → Reads buf (read_entries (length es) vs iw buf ios off) (put_entries es ios) rest
  unfolding read_entries encode_entries put_entries
  read_entries-encode vs iw [] ios off rest w a h = (off, refl, a)
  read_entries-encode vs iw (en ∷ es) ios off rest w a (h, hs) =
      let (off1, e1, a1) = read_entry-encode vs iw off en ios _ w a h in
      let (off2, e2, a2) =
        read_entries-encode vs iw es (put en.id en.value ios) off1 rest w a1 hs in
      (off2, rw e1 e2, a2)

  -- One entry of variable size.
  pub read_value-bytes :
      (ios : IoMap) (id start : ℕ) (value rest : List ℕ)
      → At buf start (value ++ rest)
      → Reads buf
          (read_value buf ios id start (length value))
          (put id (be (take (min (length value) 8) value)) ios)
          rest
  unfolding read_value
  read_value-bytes ios id start value rest a =
      let a1 = At-advance buf start (length value) value rest a refl in
      let width : start + min (length value) 8 - start ≡ min (length value) 8 = omega arith in
      (
        start + length value,
        rw (le→ltb (length buf) (start + length value) a1.1) (
            ap (λ (l : List ℕ). ok (put id (be l) ios, start + length value))
              (ap (λ (k : ℕ). take k (drop start buf)) width
                ∙ ap (λ (l : List ℕ). take (min (length value) 8) l) a.0
                ∙ take-append_left _ value rest (omega arith))),
        a1,
      )

  pub read_variable-encode :
      (iw off : ℕ) (en : VariableEntry) (ios : IoMap) (rest : List ℕ)
      → IsWidth iw
      → At buf off (encode_be iw en.id ++ (encode_be 2 (length en.value) ++ (en.value ++ rest)))
      → VariableFits iw en
      → Reads buf
          (read_variable iw buf ios off)
          (put en.id (be (take (min (length en.value) 8) en.value)) ios)
          rest
  unfolding read_variable read_variable_value read_io_id
  read_variable-encode iw off en ios rest w a (hi, hl, hb) =
      let a1 = At-field off iw en.id _ a in
      let a2 = At-field (off + iw) 2 (length en.value) _ a1 in
      let (off3, e3, a3) = read_value-bytes ios en.id (off + iw + 2) en.value rest a2 in
      (
        off3,
        rw (read_field-encode_be _ off iw en.id _ w a hi) (
            rw (le→ltb (length buf) (off + iw + 2) a2.1)
              (rw (slice-encode_be buf (off + iw) _ 2 (length en.value) _ a1.0 refl hl) e3)),
        a3,
      )

  pub read_variables-encode :
      (iw : ℕ) (es : List VariableEntry) (ios : IoMap) (off : ℕ) (rest : List ℕ)
      → IsWidth iw
      → At buf off (encode_variables iw es rest)
      → All (VariableFits iw) es
      → Reads buf (read_variables (length es) iw buf ios off) (put_variables es ios) rest
  unfolding read_variables encode_variables put_variables
  read_variables-encode iw [] ios off rest w a h = (off, refl, a)
  read_variables-encode iw (en ∷ es) ios off rest w a (h, hs) =
      let (off1, e1, a1) = read_variable-encode iw off en ios _ w a h in
      let (off2, e2, a2) =
        read_variables-encode iw es (put en.id (be (take (min (length en.value) 8) en.value)) ios)
          off1 rest w a1 hs in
      (off2, rw e1 e2, a2)
