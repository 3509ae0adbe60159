-- ===== src/Codec/Record/Append.antt =====
-- The encoder's functions put the bytes that follow at the end.
use gps_data_receiver.Prelude.{ℕ, ◌≡◌, refl, List, [], ◌∷◌, ◌++◌, append_assoc, Bool, true, false}
use gps_data_receiver.Codec.Record.{IoLayout}
use gps_data_receiver.Codec.Encode.{
  IoEntry, VariableEntry, AvlRecord, encode_entries, encode_group, encode_variables,
  encode_variable_group, encode_generation, encode_io_block, encode_header, encode_record,
}

module _ (more : List ℕ) where
  encode_entries-append :
      (vs iw : ℕ) (es : List IoEntry) (rest : List ℕ)
      → encode_entries vs iw es rest ++ more ≡ encode_entries vs iw es (rest ++ more)
  unfolding encode_entries
  encode_entries-append vs iw [] rest = refl
  encode_entries-append vs iw (e ∷ es) rest =
      simp (append_assoc, encode_entries-append vs iw es rest)

  encode_group-append :
      (vs : ℕ) (cfg : IoLayout) (es : List IoEntry) (rest : List ℕ)
      → encode_group vs cfg es rest ++ more ≡ encode_group vs cfg es (rest ++ more)
  unfolding encode_group
  encode_group-append vs cfg es rest = simp (append_assoc, encode_entries-append)

  encode_variables-append :
      (iw : ℕ) (es : List VariableEntry) (rest : List ℕ)
      → encode_variables iw es rest ++ more ≡ encode_variables iw es (rest ++ more)
  unfolding encode_variables
  encode_variables-append iw [] rest = refl
  encode_variables-append iw (e ∷ es) rest = simp (append_assoc, encode_variables-append iw es rest)

  encode_variable_group-append :
      (has : Bool) (cfg : IoLayout) (es : List VariableEntry) (rest : List ℕ)
      → encode_variable_group has cfg es rest ++ more
        ≡ encode_variable_group has cfg es (rest ++ more)
  unfolding encode_variable_group
  encode_variable_group-append false cfg es rest = refl
  encode_variable_group-append true cfg es rest = simp (append_assoc, encode_variables-append)

  encode_generation-append :
      (has : Bool) (g : ℕ) (rest : List ℕ)
      → encode_generation has g rest ++ more ≡ encode_generation has g (rest ++ more)
  unfolding encode_generation
  encode_generation-append false g rest = refl
  encode_generation-append true g rest = simp append_assoc

  encode_io_block-append :
      (cfg : IoLayout) (r : AvlRecord) (rest : List ℕ)
      → encode_io_block cfg r rest ++ more ≡ encode_io_block cfg r (rest ++ more)
  unfolding encode_io_block
  encode_io_block-append cfg r rest =
      simp
        (append_assoc, encode_generation-append, encode_group-append, encode_variable_group-append)

  pub encode_header-append :
      (r : AvlRecord) (rest : List ℕ)
      → encode_header r rest ++ more ≡ encode_header r (rest ++ more)
  unfolding encode_header
  encode_header-append r rest = simp append_assoc

  pub encode_record-append :
      (cfg : IoLayout) (r : AvlRecord) (rest : List ℕ)
      → encode_record cfg r rest ++ more ≡ encode_record cfg r (rest ++ more)
  unfolding encode_record
  encode_record-append cfg r rest = simp (encode_header-append, encode_io_block-append)
