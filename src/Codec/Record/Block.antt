-- ===== src/Codec/Record/Block.antt =====
-- internal/teltonika/codec/record.go: `parseIOBlock` and `decodeRecord` read back the encoder.
use gps_data_receiver.Prelude.{
  ℕ, ◌+◌, ◌^◌, ◌<◌, ◌≡◌, refl, List, [], ◌++◌, arith, Bool, true, false, length, encode_be, At,
}
use gps_data_receiver.Prelude.Result.{ok}
use gps_data_receiver.Codec.Record.{
  IoMap, IoLayout, read_io_count, skip_event_id, skip_generation, parse_group, parse_variable_group,
  parse_io_block, layout_for_codec,
}
use gps_data_receiver.Codec.Record.Fields.{
  IsWidth, Reads, At-field, At-fits, read_field-encode_be, read_entries-encode,
  read_variables-encode,
}
use gps_data_receiver.Codec.Encode.{
  IoEntry, VariableEntry, AvlRecord, encode_group, encode_variable_group, encode_generation,
  encode_io_block, put_entries, put_variable_group, expected_ios, GroupFits, VariableGroupFits,
  BlockFits,
}

-- The layouts that `layoutForCodec` gives have widths of one or two bytes.
pub record LayoutFits (cfg : IoLayout) : Type 0 where
  pub event_id : IsWidth cfg.event_id_width
  pub count : IsWidth cfg.count_width
  pub id : IsWidth cfg.id_width

pub layout_for_codec-LayoutFits :
    (codec_id : ℕ) (cfg : IoLayout) → layout_for_codec codec_id ≡ ok cfg → LayoutFits cfg
unfolding layout_for_codec
layout_for_codec-LayoutFits codec_id cfg h = ground arith

module _ (buf : List ℕ) (cfg : IoLayout) (fits : LayoutFits cfg) where
  parse_group-encode :
      (vs : ℕ) (es : List IoEntry) (ios : IoMap) (off : ℕ) (rest : List ℕ)
      → At buf off (encode_group vs cfg es rest)
      → GroupFits vs cfg es
      → Reads buf (parse_group vs cfg buf ios off) (put_entries es ios) rest
  unfolding parse_group encode_group read_io_count
  parse_group-encode vs es ios off rest a (hl, hs) =
      let a1 = At-field buf off cfg.count_width (length es) _ a in
      let (off2, e2, a2) =
        read_entries-encode buf vs cfg.id_width es ios (off + cfg.count_width) rest fits.id a1 hs in
      (
        off2,
        rw (read_field-encode_be buf _ off cfg.count_width (length es) _ fits.count a hl) e2,
        a2,
      )

  parse_variable_group-encode :
      (has : Bool) (es : List VariableEntry) (ios : IoMap) (off : ℕ) (rest : List ℕ)
      → At buf off (encode_variable_group has cfg es rest)
      → VariableGroupFits has cfg es
      → Reads buf (parse_variable_group has cfg buf ios off) (put_variable_group has es ios) rest
  unfolding parse_variable_group encode_variable_group put_variable_group read_io_count
  parse_variable_group-encode false es ios off rest a h = (off, refl, a)
  parse_variable_group-encode true es ios off rest a (hl, hs) =
      let a1 = At-field buf off cfg.count_width (length es) _ a in
      let (off2, e2, a2) =
        read_variables-encode buf cfg.id_width es ios (off + cfg.count_width) rest fits.id a1 hs in
      (
        off2,
        rw (read_field-encode_be buf _ off cfg.count_width (length es) _ fits.count a hl) e2,
        a2,
      )

  skip_event_id-encode :
      (v off : ℕ) (rest : List ℕ)
      → At buf off (encode_be cfg.event_id_width v ++ rest)
      → v < 256 ^ cfg.event_id_width
      → skip_event_id buf off cfg.event_id_width ≡ ok (off + cfg.event_id_width)
  unfolding skip_event_id
  skip_event_id-encode v off rest a h =
      rw (read_field-encode_be buf _ off cfg.event_id_width v rest fits.event_id a h)

  skip_generation-encode :
      (has : Bool) (g off : ℕ) (rest : List ℕ)
      → At buf off (encode_generation has g rest)
      → (off' : ℕ) × (skip_generation has buf off ≡ ok off') × At buf off' rest
  unfolding skip_generation encode_generation
  skip_generation-encode false g off rest a = (off, refl, a)
  skip_generation-encode true g off rest a =
      (off + 1, ground (arith, At-fits buf off 1 g rest a), At-field buf off 1 g rest a)

  -- `parseIOBlock` gives the map of the block's entries and stops behind the block.
  pub parse_io_block-encode :
      (r : AvlRecord) (off : ℕ) (rest : List ℕ)
      → At buf off (encode_io_block cfg r rest)
      → BlockFits cfg r
      → Reads buf (parse_io_block buf off cfg) (expected_ios cfg r) rest
  unfolding parse_io_block encode_io_block expected_ios read_io_count
  parse_io_block-encode r off rest a h =
      let a0 = At-field buf off cfg.event_id_width r.event_id _ a in
      let (og, eg, ag) = skip_generation-encode cfg.has_generation r.generation _ _ a0 in
      let at = At-field buf og cfg.count_width r.total _ ag in
      let i1 : IoMap = put_entries r.one [] in
      let i2 : IoMap = put_entries r.two i1 in
      let i4 : IoMap = put_entries r.four i2 in
      let i8 : IoMap = put_entries r.eight i4 in
      let (o1, e1, a1) = parse_group-encode 1 r.one [] (og + cfg.count_width) _ at h.one in
      let (o2, e2, a2) = parse_group-encode 2 r.two i1 o1 _ a1 h.two in
      let (o4, e4, a4) = parse_group-encode 4 r.four i2 o2 _ a2 h.four in
      let (o8, e8, a8) = parse_group-encode 8 r.eight i4 o4 _ a4 h.eight in
      let (ov, ev, av) =
        parse_variable_group-encode cfg.has_variable_io r.variable i8 o8 rest a8 h.variable in
      (
        ov,
        rw (skip_event_id-encode r.event_id off _ a h.event_id) (
            rw eg (
              rw (read_field-encode_be buf _ og cfg.count_width r.total _ fits.count ag h.total)
                (rw e1 (rw e2 (rw e4 (rw e8 ev)))))),
        av,
      )
