-- ===== src/Codec/Packet/Sound.antt =====
-- internal/teltonika/codec/packet.go: what `ParsePacket` accepts is a framed payload.
use gps_data_receiver.Prelude.{
  ℕ, zero, suc, ◌+◌, ◌-◌, ◌≤◌, ◌≡◌, refl, sym, ap, ◌∙◌, List, [], ◌∷◌, ◌++◌, append_assoc,
  append-nil, arith, length, take, drop, take-append-drop, leb, Bool-cases, ◌⊎◌, inl, inr, leb,
}
use gps_data_receiver.Codec.Record.{
  DecodeError, Record, Slice, visible, Decoded, decoded, failed, decode_record,
}
use gps_data_receiver.Codec.Record.Sound.{
  decode_record-KeepsBytes, decode_record-IsSupported, IsSupported,
}
use gps_data_receiver.Codec.Packet.{
  parsed, sub_slice, finish_records, continue_records, read_records,
}
use gps_data_receiver.Codec.Packet.Slices.{visible-sub_slice, length-visible}

-- The bytes of the records, one after the other.
unfoldable pub raw_of : List Record → List ℕ
raw_of [] = []
raw_of (r ∷ rs) = r.raw_bytes ++ raw_of rs

-- The loop has read `n` records behind those in `acc`, and their bytes are the rest of the payload.
abbrev pub Tiles : ℕ → ℕ → List ℕ → List Record → ℕ → List Record → Type 0
Tiles n codec_id left acc c recs =
    (rs : List Record) × (recs ≡ acc ++ rs)
    × (length rs ≡ n)
    × (c ≡ codec_id)
    × (left ≡ raw_of rs)
    × ((n ≡ 0) ⊎ IsSupported codec_id)

Decoded-cases :
    (d : Decoded)
    → ((rec : Record) × (used : ℕ) × (d ≡ decoded rec used))
      ⊎ (((e : DecodeError) × (d ≡ failed e)) ⊎ (d ≡ Decoded.panicked))
Decoded-cases (decoded rec used) = inl (rec, used, refl)
Decoded-cases (failed e) = inr (inl (e, refl))
Decoded-cases Decoded.panicked = inr (inr refl)

module _ (num codec_id : ℕ) (backing : List ℕ) (end : ℕ) (fits : end ≤ length backing) where
  finish_records-Tiles :
      (off : ℕ) (acc : List Record) {c : ℕ} {recs : List Record}
      → finish_records codec_id num off end acc ≡ parsed c recs
      → Tiles 0 codec_id (visible (sub_slice backing off end)) acc c recs
  unfolding finish_records raw_of
  finish_records-Tiles off acc {c} {recs} h =
      let none_left : end - off ≡ 0 = ground arith in
      (
        [],
        ground (arith, append-nil acc),
        refl,
        ground arith,
        ap (λ (k : ℕ). take k (drop off backing)) none_left,
        inl refl,
      )

  pub read_records-Tiles :
      (n i off : ℕ) (acc : List Record) {c : ℕ} {recs : List Record}
      → off ≤ end
      → read_records n num codec_id backing end i off acc ≡ parsed c recs
      → Tiles n codec_id (visible (sub_slice backing off end)) acc c recs
  unfolding read_records continue_records raw_of
  read_records-Tiles zero i off acc le h = finish_records-Tiles off acc h
  read_records-Tiles (suc n) i off acc {c} {recs} le h =
      let s : Slice = sub_slice backing off end in
      elim (Bool-cases (leb end off)) [
        | inl stop ↦ cc (rw stop at h)
        | inr more ↦ elim (Decoded-cases (decode_record s codec_id)) [
          | inl (rec, used, e) ↦
              let (raw, low, high) = decode_record-KeepsBytes s codec_id used rec e in
              let size = length-visible backing off end fits in
              let (rs, er, en, ec, el, _) =
                read_records-Tiles n (i + 1) (off + used) (acc ++ rec ∷ []) (omega arith)
                  (rw (more, e) at h) in
              (
                rec ∷ rs,
                er ∙ append_assoc acc (rec ∷ []) rs,
                ap suc en,
                ec,
                sym (take-append-drop used (visible s))
                    ∙ ap (λ (l : List ℕ). l ++ drop used (visible s)) (sym raw)
                    ∙ ap (λ (l : List ℕ). rec.raw_bytes ++ l)
                        (sym (visible-sub_slice backing off used end) ∙ el),
                inr (decode_record-IsSupported s codec_id e),
              )
          | inr (inl (x, e)) ↦ cc (rw (more, e) at h)
          | inr (inr e) ↦ cc (rw (more, e) at h)
        ]
      ]
