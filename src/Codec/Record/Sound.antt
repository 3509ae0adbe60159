-- ===== src/Codec/Record/Sound.antt =====
-- internal/teltonika/codec/record.go: no read leaves its slice, and a record keeps its own bytes.
use gps_data_receiver.Prelude.{
  ℕ, zero, suc, ◌≤◌, ◌<◌, ◌≡◌, refl, List, [], arith, Bool, true, false, length, take, ltb, ◌⊎◌,
  inl, inr, Bool-cases,
}
use gps_data_receiver.Prelude.Result.{Result, ok, err, ◌>>=◌}
use gps_data_receiver.Codec.Record.{
  DecodeError, IoMap, IoLayout, Record, Slice, visible, decoded, panicked, finish_record,
  decode_record, header_record, layout_for_codec, read_field, read_io_count, read_io_id,
  skip_event_id, skip_generation, read_entry, read_entries, parse_group, read_variable_value,
  read_variable, read_variables, parse_variable_group, parse_io_block,
}

-- A successful read comes to an offset between its own and the end of the bytes.
abbrev Advances : {A : Type 0} → List ℕ → ℕ → Result DecodeError (A × ℕ) → Type 0
Advances buf off (ok (x, off')) = (off ≤ off') × (off' ≤ length buf)
Advances buf off (err e) = Unit

abbrev Skips : ℕ → Result DecodeError ℕ → Type 0
Skips off (ok off') = off ≤ off'
Skips off (err e) = Unit

Advances-widen :
    {A : Type 0} (buf : List ℕ) (off o : ℕ) (m : Result DecodeError (A × ℕ))
    → off ≤ o
    → Advances buf o m
    → Advances buf off m
Advances-widen buf off o (ok (y, o')) h w = (omega arith, w.1)
Advances-widen buf off o (err e) h w = tt

module _ (buf : List ℕ) where
  Advances-bind :
      {A B : Type 0} (off : ℕ) (m : Result DecodeError (A × ℕ))
      (f : A × ℕ → Result DecodeError (B × ℕ))
      → Advances buf off m
      → ((x : A) (o : ℕ) → o ≤ length buf → Advances buf o (f (x, o)))
      → Advances buf off (m >>= f)
  Advances-bind off (ok (x, o)) f h k = Advances-widen buf off o (f (x, o)) h.0 (k x o h.1)
  Advances-bind off (err e) f h k = tt

  read_field-Advances : (e : DecodeError) (off w : ℕ) → Advances buf off (read_field e buf off w)
  unfolding read_field
  read_field-Advances e off w = ground arith

  read_entry-Advances :
      (vs iw : ℕ) (ios : IoMap) (off : ℕ) → Advances buf off (read_entry vs iw buf ios off)
  unfolding read_entry read_io_id
  read_entry-Advances vs iw ios off =
      Advances-bind off _ _ (read_field-Advances _ off iw) (λ x o h. ground arith)

  read_entries-Advances :
      (n vs iw : ℕ) (ios : IoMap) (off : ℕ)
      → off ≤ length buf
      → Advances buf off (read_entries n vs iw buf ios off)
  unfolding read_entries
  read_entries-Advances zero vs iw ios off h = (omega arith, h)
  read_entries-Advances (suc n) vs iw ios off h =
      Advances-bind off _ _ (read_entry-Advances vs iw ios off)
        (λ x o ho. read_entries-Advances n vs iw x o ho)

  parse_group-Advances :
      (vs : ℕ) (cfg : IoLayout) (ios : IoMap) (off : ℕ)
      → Advances buf off (parse_group vs cfg buf ios off)
  unfolding parse_group read_io_count
  parse_group-Advances vs cfg ios off =
      Advances-bind off _ _ (read_field-Advances _ off cfg.count_width)
        (λ n o h. read_entries-Advances n vs cfg.id_width ios o h)

  read_variable-Advances :
      (iw : ℕ) (ios : IoMap) (off : ℕ) → Advances buf off (read_variable iw buf ios off)
  unfolding read_variable read_variable_value read_io_id
  read_variable-Advances iw ios off =
      Advances-bind off _ _ (read_field-Advances _ off iw) (λ x o h. ground arith)

  read_variables-Advances :
      (n iw : ℕ) (ios : IoMap) (off : ℕ)
      → off ≤ length buf
      → Advances buf off (read_variables n iw buf ios off)
  unfolding read_variables
  read_variables-Advances zero iw ios off h = (omega arith, h)
  read_variables-Advances (suc n) iw ios off h =
      Advances-bind off _ _ (read_variable-Advances iw ios off)
        (λ x o ho. read_variables-Advances n iw x o ho)

  parse_variable_group-Advances :
      (has : Bool) (cfg : IoLayout) (ios : IoMap) (off : ℕ)
      → off ≤ length buf
      → Advances buf off (parse_variable_group has cfg buf ios off)
  unfolding parse_variable_group read_io_count
  parse_variable_group-Advances false cfg ios off h = (omega arith, h)
  parse_variable_group-Advances true cfg ios off h =
      Advances-bind off _ _ (read_field-Advances _ off cfg.count_width)
        (λ n o ho. read_variables-Advances n cfg.id_width ios o ho)

  groups-Advances :
      (cfg : IoLayout) (off : ℕ)
      → Advances buf off (do
        total ← read_io_count buf off cfg.count_width
        g1 ← parse_group 1 cfg buf [] total.1
        g2 ← parse_group 2 cfg buf g1.0 g1.1
        g4 ← parse_group 4 cfg buf g2.0 g2.1
        g8 ← parse_group 8 cfg buf g4.0 g4.1
        parse_variable_group cfg.has_variable_io cfg buf g8.0 g8.1)
  unfolding read_io_count
  groups-Advances cfg off =
      Advances-bind off _ _ (read_field-Advances _ off cfg.count_width) λ t o h.
        Advances-bind o _ _ (parse_group-Advances 1 cfg [] o) λ m1 o1 h1.
          Advances-bind o1 _ _ (parse_group-Advances 2 cfg m1 o1) λ m2 o2 h2.
            Advances-bind o2 _ _ (parse_group-Advances 4 cfg m2 o2) λ m4 o4 h4.
              Advances-bind o4 _ _ (parse_group-Advances 8 cfg m4 o4)
                λ m8 o8 h8. parse_variable_group-Advances cfg.has_variable_io cfg m8 o8 h8

  Skips-bind :
      {B : Type 0} (off : ℕ) (m : Result DecodeError ℕ) (f : ℕ → Result DecodeError (B × ℕ))
      → Skips off m
      → ((o : ℕ) → Advances buf o (f o))
      → Advances buf off (m >>= f)
  Skips-bind off (ok o) f h k = Advances-widen buf off o (f o) h (k o)
  Skips-bind off (err e) f h k = tt

  skip_event_id-Skips : (off w : ℕ) → Skips off (skip_event_id buf off w)
  unfolding skip_event_id read_field
  skip_event_id-Skips off w = ground arith

  skip_generation-Skips : (has : Bool) (off : ℕ) → Skips off (skip_generation has buf off)
  unfolding skip_generation
  skip_generation-Skips false off = omega arith
  skip_generation-Skips true off = ground arith

  pub parse_io_block-Advances :
      (cfg : IoLayout) (off : ℕ) → Advances buf off (parse_io_block buf off cfg)
  unfolding parse_io_block
  parse_io_block-Advances cfg off =
      Skips-bind off _ _ (skip_event_id-Skips off cfg.event_id_width) λ o.
        Skips-bind o _ _ (skip_generation-Skips cfg.has_generation o) λ o'. groups-Advances cfg o'

abbrev KeepsBytes : Slice → Record → ℕ → Type 0
KeepsBytes s rec used =
    (rec.raw_bytes ≡ take used (visible s)) × (24 ≤ used) × (used ≤ length (visible s))

finish_record-KeepsBytes :
    (s : Slice) (m : Result DecodeError (IoMap × ℕ)) (rec : Record) (used : ℕ)
    → Advances (visible s) 24 m
    → finish_record s m ≡ decoded rec used
    → KeepsBytes s rec used
unfolding finish_record header_record
finish_record-KeepsBytes s (ok (ios, off)) rec used a h = ground arith
finish_record-KeepsBytes s (err e) rec used a h = cc

layout-Advances :
    (buf : List ℕ) (off : ℕ) (layout : Result DecodeError IoLayout)
    → Advances buf off (layout >>= λ cfg. parse_io_block buf off cfg)
layout-Advances buf off (ok cfg) = parse_io_block-Advances buf cfg off
layout-Advances buf off (err e) = tt

-- A decoded record holds the bytes that it was read from, at least its header.
pub decode_record-KeepsBytes :
    (s : Slice) (codec_id used : ℕ) (rec : Record)
    → decode_record s codec_id ≡ decoded rec used
    → (rec.raw_bytes ≡ take used (visible s)) × (24 ≤ used) × (used ≤ length (visible s))
unfolding decode_record
decode_record-KeepsBytes s codec_id used rec h =
    let m = layout_for_codec codec_id >>= λ cfg. parse_io_block (visible s) 24 cfg in
    let a = layout-Advances (visible s) 24 (layout_for_codec codec_id) in
    elim (Bool-cases (ltb s.len 9)) [
      | inl short ↦ cc (rw short at h)
      | inr long ↦ elim (Bool-cases (ltb (length s.backing) 24)) [
        | inl small ↦ cc (rw small at (rw long at h))
        | inr room ↦ finish_record-KeepsBytes s m rec used a (rw room at (rw long at h))
      ]
    ]

-- Where the header's slice expression leaves the capacity.
pub decode_record_panics :
    (s : Slice) (codec_id : ℕ)
    → 9 ≤ s.len
    → length s.backing < 24
    → decode_record s codec_id ≡ panicked
unfolding decode_record
decode_record_panics s codec_id h k = ground arith

-- The codecs that have a layout.
abbrev pub IsSupported : ℕ → Type 0
IsSupported c = (c ≡ 0x08) ⊎ ((c ≡ 0x8e) ⊎ (c ≡ 0x10))

layout_for_codec-IsSupported :
    (codec_id : ℕ) (cfg : IoLayout) → layout_for_codec codec_id ≡ ok cfg → IsSupported codec_id
unfolding layout_for_codec
layout_for_codec-IsSupported codec_id cfg h = ground arith

finish_record-IsSupported :
    (s : Slice) (codec_id : ℕ) (layout : Result DecodeError IoLayout) {rec : Record} {used : ℕ}
    → layout_for_codec codec_id ≡ layout
    → finish_record s (layout >>= λ cfg. parse_io_block (visible s) 24 cfg) ≡ decoded rec used
    → IsSupported codec_id
unfolding finish_record
finish_record-IsSupported s codec_id (ok cfg) e h = layout_for_codec-IsSupported codec_id cfg e
finish_record-IsSupported s codec_id (err x) e h = cc

pub decode_record-IsSupported :
    (s : Slice) (codec_id : ℕ) {rec : Record} {used : ℕ}
    → decode_record s codec_id ≡ decoded rec used
    → IsSupported codec_id
unfolding decode_record
decode_record-IsSupported s codec_id {rec} {used} h = elim (Bool-cases (ltb s.len 9)) [
  | inl short ↦ cc (rw short at h)
  | inr long ↦ elim (Bool-cases (ltb (length s.backing) 24)) [
    | inl small ↦ cc (rw small at (rw long at h))
    | inr room ↦
        finish_record-IsSupported s codec_id (layout_for_codec codec_id) {rec = rec} {used = used}
          refl (rw room at (rw long at h))
  ]
]
