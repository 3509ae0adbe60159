-- ===== src/Codec/Record/Bytes.antt =====
-- What the encoder writes are bytes.
use gps_data_receiver.Prelude.{
  ℕ, zero, suc, ◌/◌, ◌%◌, List, [], ◌∷◌, ◌++◌, arith, Bool, true, false, length, encode_be, All,
  All-append, IsByte,
}
use gps_data_receiver.Codec.Record.{IoLayout}
use gps_data_receiver.Codec.Encode.{
  IoEntry, VariableEntry, AvlRecord, encode_entries, encode_group, encode_variables,
  encode_variable_group, encode_generation, encode_io_block, encode_header, encode_record,
  encode_records, encode_payload, VariableFits, VariableGroupFits, BlockFits, RecordFits,
}

abbrev AreBytes : List ℕ → Type 0
AreBytes = All IsByte

encode_be-AreBytes : (n v : ℕ) → AreBytes (encode_be n v)
unfolding encode_be
encode_be-AreBytes zero v = tt
encode_be-AreBytes (suc n) v =
    All-append IsByte (encode_be n (v / 256)) (v % 256 ∷ []) (encode_be-AreBytes n (v / 256))
      (omega arith)

field-AreBytes : (n v : ℕ) (rest : List ℕ) → AreBytes rest → AreBytes (encode_be n v ++ rest)
field-AreBytes n v rest h = All-append IsByte (encode_be n v) rest (encode_be-AreBytes n v) h

encode_entries-AreBytes :
    (vs iw : ℕ) (es : List IoEntry) (rest : List ℕ)
    → AreBytes rest
    → AreBytes (encode_entries vs iw es rest)
unfolding encode_entries
encode_entries-AreBytes vs iw [] rest h = h
encode_entries-AreBytes vs iw (e ∷ es) rest h =
    field-AreBytes iw e.id _ (field-AreBytes vs e.value _ (encode_entries-AreBytes vs iw es rest h))

encode_group-AreBytes :
    (vs : ℕ) (cfg : IoLayout) (es : List IoEntry) (rest : List ℕ)
    → AreBytes rest
    → AreBytes (encode_group vs cfg es rest)
unfolding encode_group
encode_group-AreBytes vs cfg es rest h =
    field-AreBytes cfg.count_width _ _ (encode_entries-AreBytes vs cfg.id_width es rest h)

encode_variables-AreBytes :
    (iw : ℕ) (es : List VariableEntry) (rest : List ℕ)
    → All (VariableFits iw) es
    → AreBytes rest
    → AreBytes (encode_variables iw es rest)
unfolding encode_variables
encode_variables-AreBytes iw [] rest f h = h
encode_variables-AreBytes iw (e ∷ es) rest (f, fs) h = field-AreBytes iw e.id _ (
    field-AreBytes 2 (length e.value) _
      (All-append IsByte e.value _ f.2 (encode_variables-AreBytes iw es rest fs h)))

encode_variable_group-AreBytes :
    (has : Bool) (cfg : IoLayout) (es : List VariableEntry) (rest : List ℕ)
    → VariableGroupFits has cfg es
    → AreBytes rest
    → AreBytes (encode_variable_group has cfg es rest)
unfolding encode_variable_group
encode_variable_group-AreBytes false cfg es rest f h = h
encode_variable_group-AreBytes true cfg es rest f h =
    field-AreBytes cfg.count_width _ _ (encode_variables-AreBytes cfg.id_width es rest f.1 h)

encode_generation-AreBytes :
    (has : Bool) (g : ℕ) (rest : List ℕ) → AreBytes rest → AreBytes (encode_generation has g rest)
unfolding encode_generation
encode_generation-AreBytes false g rest h = h
encode_generation-AreBytes true g rest h = field-AreBytes 1 g rest h

encode_io_block-AreBytes :
    (cfg : IoLayout) (r : AvlRecord) (rest : List ℕ)
    → BlockFits cfg r
    → AreBytes rest
    → AreBytes (encode_io_block cfg r rest)
unfolding encode_io_block
encode_io_block-AreBytes cfg r rest f h = field-AreBytes cfg.event_id_width _ _ (
    encode_generation-AreBytes cfg.has_generation r.generation _ (
      field-AreBytes cfg.count_width _ _ (
        encode_group-AreBytes 1 cfg r.one _ (
          encode_group-AreBytes 2 cfg r.two _ (
            encode_group-AreBytes 4 cfg r.four _ (
              encode_group-AreBytes 8 cfg r.eight _ (
                encode_variable_group-AreBytes cfg.has_variable_io cfg r.variable rest f.variable
                  h)))))))

encode_header-AreBytes :
    (r : AvlRecord) (rest : List ℕ) → AreBytes rest → AreBytes (encode_header r rest)
unfolding encode_header
encode_header-AreBytes r rest h = field-AreBytes 8 _ _ (
    field-AreBytes 1 _ _ (
      field-AreBytes 4 _ _ (
        field-AreBytes 4 _ _ (
          field-AreBytes 2 _ _
            (field-AreBytes 2 _ _ (field-AreBytes 1 _ _ (field-AreBytes 2 _ _ h)))))))

encode_records-AreBytes :
    (cfg : IoLayout) (rs : List AvlRecord) (rest : List ℕ)
    → All (RecordFits cfg) rs
    → AreBytes rest
    → AreBytes (encode_records cfg rs rest)
unfolding encode_records encode_record
encode_records-AreBytes cfg [] rest f h = h
encode_records-AreBytes cfg (r ∷ rs) rest (f, fs) h =
    encode_header-AreBytes r _
      (encode_io_block-AreBytes cfg r _ f.block (encode_records-AreBytes cfg rs rest fs h))

pub encode_payload-AreBytes :
    (codec_id : ℕ) (cfg : IoLayout) (rs : List AvlRecord)
    → IsByte codec_id
    → IsByte (length rs)
    → All (RecordFits cfg) rs
    → All IsByte (encode_payload codec_id cfg rs)
unfolding encode_payload
encode_payload-AreBytes codec_id cfg rs hc hn f =
    (hc, (hn, encode_records-AreBytes cfg rs (length rs ∷ []) f (hn, tt)))
